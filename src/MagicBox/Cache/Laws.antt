-- ===== src/MagicBox/Cache/Laws.antt =====
-- A push puts the entry in front, forgets what is past the cache size and touches no other key.
use faculty_auxie_mm.Prelude.{
  ℕ, ◌≤◌, ◌≡◌, refl, Bool, Option, ◌∷◌, arith, length, length-take, take, if◌then◌else◌,
}
use faculty_auxie_mm.Prelude.Text.{Text, text_eq, text_eq_iff, text_Eq}
use faculty_auxie_mm.Prelude.Dict.{lookup-insert}
use faculty_auxie_mm.MagicBox.Cache.{DataStreamService, slot_of, push_to_observable}

-- No slot has more versions than the cache size.
pub record IsBounded {V : Type 0} (s : DataStreamService V) : Type 0 where
  pub at_key : (k : Text) → length (slot_of s k) ≤ s.cache_size

module _ {V I : Type 0} (now : ℕ) (key : Text) (entry : V) (ts : Option ℕ) (all : Bool)
    (i : Option I) where
  pub slot_of-push :
      (s : DataStreamService V) (k : Text)
      → slot_of (push_to_observable now key entry ts all i s).service k
        ≡ (if text_eq key k then take s.cache_size (entry ∷ slot_of s key) else slot_of s k)
  unfolding push_to_observable
  slot_of-push s k = ground (
    arith,
    lookup-insert key k (take s.cache_size (entry ∷ slot_of s key)) s.cache,
    text_eq_iff key k,
  )

  pub slot_of-push_self :
      (s : DataStreamService V)
      → slot_of (push_to_observable now key entry ts all i s).service key
        ≡ take s.cache_size (entry ∷ slot_of s key)
  slot_of-push_self s = ground (arith, slot_of-push s key, text_eq_iff key key)

  pub cache_size-push :
      (s : DataStreamService V)
      → (push_to_observable now key entry ts all i s).service.cache_size ≡ s.cache_size
  unfolding push_to_observable
  cache_size-push s = refl

  pub push-IsBounded :
      (s : DataStreamService V)
      → IsBounded s
      → IsBounded (push_to_observable now key entry ts all i s).service
  unfolding push_to_observable
  push-IsBounded s h = record {
    at_key = λ k. ground (
      arith,
      slot_of-push s k,
      h.at_key k,
      length-take s.cache_size (entry ∷ slot_of s key),
      text_eq_iff key k,
    );
  }
