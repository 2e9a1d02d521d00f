-- ===== src/MagicBox/Handlers/Laws.antt =====
-- What a message of candles leaves in the cache.
use faculty_auxie_mm.MagicBox.Cache.Laws.{cache_size-push, slot_of-push_self}
use faculty_auxie_mm.MagicBox.Cache.{DataStreamService, slot_of, push_to_observable}
use faculty_auxie_mm.Prelude.Text.{Text}
use faculty_auxie_mm.MagicBox.Handlers.{handle_ohlcv_message, Text, Ohlcv, DataStreamService}
use faculty_auxie_mm.Prelude.{
  ◌≡◌, ◌∷◌, ◌∙◌, none, some, false, refl, zero, suc, [], List, ℕ, take, ap, sym,
}

-- a list put in front of another, its last item first
abbrev pub reverse_onto {ℓ} : {A : Type ℓ} → List A → List A → List A
reverse_onto [] ys = ys
reverse_onto (x ∷ xs) ys = reverse_onto xs (x ∷ ys)

module _ {A : Type 0} where
  take-take : (n : ℕ) (ys : List A) → take n (take n ys) ≡ take n ys
  take-take zero ys = refl
  take-take (suc n) [] = refl
  take-take (suc n) (y ∷ ys) = ap (λ t. y ∷ t) (take-take n ys)

  take-take_more : (n : ℕ) (ys : List A) → take n (take (suc n) ys) ≡ take n ys
  take-take_more zero ys = refl
  take-take_more (suc n) [] = refl
  take-take_more (suc n) (y ∷ ys) = ap (λ t. y ∷ t) (take-take_more n ys)

  take-in_front : (n : ℕ) (x : A) (ys : List A) → take n (x ∷ take n ys) ≡ take n (x ∷ ys)
  take-in_front zero x ys = refl
  take-in_front (suc n) x ys = ap (λ t. x ∷ t) (take-take_more n ys)

  pub take-reverse_onto :
      (n : ℕ) (xs ys : List A) → take n (reverse_onto xs (take n ys)) ≡ take n (reverse_onto xs ys)
  take-reverse_onto n [] ys = take-take n ys
  take-reverse_onto n (x ∷ xs) ys =
      sym (take-reverse_onto n xs (x ∷ take n ys))
      ∙ ap (λ t. take n (reverse_onto xs t)) (take-in_front n x ys)
      ∙ take-reverse_onto n xs (x ∷ ys)

-- After a message of candles the slot of its key has the message's candles, the last one newest,
-- before those it had, cut to the cache size.
pub slot_of-handle_ohlcv_message :
    (now : ℕ) (key : Text) (cs : List Ohlcv) (s : DataStreamService Ohlcv)
    → take s.cache_size (slot_of (handle_ohlcv_message now key cs s) key)
      ≡ take s.cache_size (reverse_onto cs (slot_of s key))
unfolding handle_ohlcv_message
slot_of-handle_ohlcv_message now key [] s = refl
slot_of-handle_ohlcv_message now key (c ∷ cs) s =
    let p = push_to_observable {I = Unit} now key c (some c.timestamp) false none s in
    let n = s.cache_size in
    let same = cache_size-push {I = Unit} now key c (some c.timestamp) false none s in
    let slot = slot_of-push_self {I = Unit} now key c (some c.timestamp) false none s in
    (rw (same, slot) at (slot_of-handle_ohlcv_message now key cs p.service))
    ∙ take-reverse_onto n cs (c ∷ slot_of s key)
