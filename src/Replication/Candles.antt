-- ===== src/Replication/Candles.antt =====
-- Candles from the gatherer (packages/gatherer/src/worker.ts) to the cache of the magicbox
-- (packages/magicbox/src/services/datastream-service.ts).
use faculty_auxie_mm.Gatherer.Candles.{Entry, candle_of, on_candles}
use faculty_auxie_mm.MagicBox.Cache.{DataStreamService, slot_of}
use faculty_auxie_mm.MagicBox.Cache.Laws.{cache_size-push}
use faculty_auxie_mm.MagicBox.Handlers.{Ohlcv, handle_ohlcv_message}
use faculty_auxie_mm.MagicBox.Handlers.Laws.{
  reverse_onto, slot_of-handle_ohlcv_message, take-reverse_onto,
}
use faculty_auxie_mm.Prelude.Text.{Text}
use faculty_auxie_mm.Prelude.{
  ◌≡◌, ◌∷◌, ◌++◌, ◌∙◌, [], none, some, false, List, Option, ℕ, refl, ap, sym, take, map,
}

abbrev pub receive_candles :
    ℕ → Text → Option (List Ohlcv) → DataStreamService Ohlcv → DataStreamService Ohlcv
receive_candles now key none s = s
receive_candles now key (some cs) s = handle_ohlcv_message now key cs s

-- What the exchange brings one after the other, each with the time at which the magicbox reads it.
unfoldable pub run_candles :
    Text → List (ℕ × List Entry) → DataStreamService Ohlcv → DataStreamService Ohlcv
run_candles key [] s = s
run_candles key ((now, entries) ∷ batches) s =
    run_candles key batches (receive_candles now key (on_candles entries) s)

-- What the cache has of the candles of an exchange.
abbrev pub shown_candles : List Entry → List Ohlcv
shown_candles [] = []
shown_candles (e ∷ entries) =
    record {
      timestamp = e.time;
      open_price = e.open_price;
      high = e.high;
      low = e.low;
      close = e.close;
      volume = e.time;
    }
    ∷ shown_candles entries

map-candle_of : (entries : List Entry) → map candle_of entries ≡ shown_candles entries
map-candle_of [] = refl
map-candle_of (e ∷ entries) = ap (λ cs. candle_of e ∷ cs) (map-candle_of entries)

abbrev pub all_entries : List (ℕ × List Entry) → List Entry
all_entries [] = []
all_entries ((now, entries) ∷ batches) = entries ++ all_entries batches

cache_size-handle_ohlcv_message :
    (now : ℕ) (key : Text) (cs : List Ohlcv) (s : DataStreamService Ohlcv)
    → (handle_ohlcv_message now key cs s).cache_size ≡ s.cache_size
unfolding handle_ohlcv_message
cache_size-handle_ohlcv_message now key [] s = refl
cache_size-handle_ohlcv_message now key (c ∷ cs) s =
    cache_size-handle_ohlcv_message now key cs _
    ∙ cache_size-push {I = Unit} now key c (some c.timestamp) false none s

reverse_onto-append :
    {A : Type 0} (xs ys zs : List A)
    → reverse_onto (xs ++ ys) zs ≡ reverse_onto ys (reverse_onto xs zs)
reverse_onto-append [] ys zs = refl
reverse_onto-append (x ∷ xs) ys zs = reverse_onto-append xs ys (x ∷ zs)

map-append : {A B : Type 0} (f : A → B) (xs ys : List A) → map f (xs ++ ys) ≡ map f xs ++ map f ys
map-append f [] ys = refl
map-append f (x ∷ xs) ys = ap (λ r. f x ∷ r) (map-append f xs ys)

module _ (key : Text) where
  cache_size-receive_candles :
      (now : ℕ) (entries : List Entry) (s : DataStreamService Ohlcv)
      → (receive_candles now key (on_candles entries) s).cache_size ≡ s.cache_size
  unfolding on_candles
  cache_size-receive_candles now [] s = refl
  cache_size-receive_candles now (e ∷ entries) s = cache_size-handle_ohlcv_message now key _ s

  slot_of-receive_candles :
      (now : ℕ) (entries : List Entry) (s : DataStreamService Ohlcv)
      → take s.cache_size (slot_of (receive_candles now key (on_candles entries) s) key)
        ≡ take s.cache_size (reverse_onto (map candle_of entries) (slot_of s key))
  unfolding on_candles
  slot_of-receive_candles now [] s = refl
  slot_of-receive_candles now (e ∷ entries) s =
      slot_of-handle_ohlcv_message now key (map candle_of (e ∷ entries)) s

  candles-run_candles :
      (batches : List (ℕ × List Entry)) (s : DataStreamService Ohlcv)
      → take s.cache_size (slot_of (run_candles key batches s) key)
        ≡ take s.cache_size (reverse_onto (map candle_of (all_entries batches)) (slot_of s key))
  unfolding run_candles
  candles-run_candles [] s = refl
  candles-run_candles ((now, entries) ∷ batches) s =
      let s' : DataStreamService Ohlcv = receive_candles now key (on_candles entries) s in
      let n : ℕ = s.cache_size in
      let later : List Ohlcv = map candle_of (all_entries batches) in
      (rw (cache_size-receive_candles now entries s) at (candles-run_candles batches s'))
      ∙ sym (take-reverse_onto n later (slot_of s' key))
      ∙ ap (λ t. take n (reverse_onto later t)) (slot_of-receive_candles now entries s)
      ∙ take-reverse_onto n later (reverse_onto (map candle_of entries) (slot_of s key))
      ∙ ap (take n) (
          sym (reverse_onto-append (map candle_of entries) later (slot_of s key))
          ∙ ap (λ cs. reverse_onto cs (slot_of s key))
              (sym (map-append candle_of entries (all_entries batches))))

  -- Whatever the exchange brings, the entries of the cache, up to its size, are then its candles,
  -- the last one newest, followed by those that were there; each of its candles has its prices, and
  -- its time in place of its volume.
  pub slot_of-run_candles :
      (batches : List (ℕ × List Entry)) (s : DataStreamService Ohlcv)
      → take s.cache_size (slot_of (run_candles key batches s) key)
        ≡ take s.cache_size (reverse_onto (shown_candles (all_entries batches)) (slot_of s key))
  slot_of-run_candles batches s =
      candles-run_candles batches s
      ∙ ap (λ cs. take s.cache_size (reverse_onto cs (slot_of s key)))
          (map-candle_of (all_entries batches))
