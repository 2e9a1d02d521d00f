-- ===== src/Replication/Sync.antt =====
-- Both ends of the order book stream, run over a sequence of books.
use faculty_auxie_mm.Prelude.{
  ℕ, suc, zero, ◌+◌, ◌<◌, ◌≡◌, refl, sym, ◌∙◌, Bool, true, false, Option, none, some, List, [], ◌∷◌,
  ◌++◌, All, foldl, arith, ltb, take, ◌==◌, if◌then◌else◌, Bool-cases, inl, inr,
}
use mathlib.Core.Path.{subst}
use faculty_auxie_mm.Prelude.Text.{Text, text_Eq}
use faculty_auxie_mm.Prelude.Dict.{insert}
use faculty_auxie_mm.Prelude.Sorted.{IsStrictBy}
use faculty_auxie_mm.Book.{OrderBook, Level, level_Eq, ask_key, bid_key}
use faculty_auxie_mm.Book.Lodash.{Lodash}
use faculty_auxie_mm.Book.Message.{BookMessage, deltas, Deltas}
use faculty_auxie_mm.Gatherer.Diff.{get_array_diff}
use faculty_auxie_mm.Gatherer.Feed.{
  Feed, Tick, changes, deltas_of, delta_message, snapshot_message, on_order_book,
  order_book_snapshot_freq_ms,
}
use faculty_auxie_mm.MagicBox.Cache.{DataStreamService, slot_of}
use faculty_auxie_mm.MagicBox.Cache.Laws.{slot_of-push_self, cache_size-push}
use faculty_auxie_mm.MagicBox.OrderBooks.{
  apply_deltas, apply_to_slot, push_book, handle_order_book_message,
}
use faculty_auxie_mm.Replication.Side.{apply_side-get_array_diff, eq_of_no_changes}

pub record System : Type 0 where
  pub feed : Feed
  pub box : DataStreamService OrderBook

-- A book at the gatherer, with the magicbox's clock when it reads the message.
pub record Event : Type 0 where
  pub tick : Tick
  pub read_at : ℕ

module _ (l : Lodash Level) (symbol key : Text) where
  unfoldable pub deliver :
      ℕ → Option BookMessage → DataStreamService OrderBook → DataStreamService OrderBook
  deliver read_at none box = box
  deliver read_at (some m) box = (handle_order_book_message l read_at key (some m) box).service

  unfoldable pub step : System → Event → System
  step s e =
      let (feed, message) = on_order_book l symbol e.tick s.feed in
      record { feed = feed; box = deliver e.read_at message s.box }

  unfoldable pub run : System → List Event → System
  run = foldl step

-- Asks rise and bids fall in price, with one level at each price.
pub record IsWellFormed (b : OrderBook) : Type 0 where
  pub asks_rise : IsStrictBy ask_key b.asks
  pub bids_fall : IsStrictBy bid_key b.bids

-- The newest cached book under a key has the sides of a book.
abbrev pub Heads : List OrderBook → OrderBook → Type 0
Heads [] b = ⊥
Heads (o ∷ older) b = (o.asks ≡ b.asks) × (o.bids ≡ b.bids)

abbrev pub Shows : Text → DataStreamService OrderBook → OrderBook → Type 0
Shows key box b = Heads (slot_of box key) b

abbrev pub Caught : Text → OrderBook → DataStreamService OrderBook → Type 0
Caught key b box = (0 < box.cache_size) × Shows key box b

-- The cached book follows the clone that the gatherer compares with.
abbrev pub Follows : Text → Option OrderBook → DataStreamService OrderBook → Type 0
Follows key none box = 0 < box.cache_size
Follows key (some b) box = (0 < box.cache_size) × IsWellFormed b × Shows key box b

Heads-take :
    (n : ℕ) (o b : OrderBook) (older : List OrderBook)
    → 0 < n
    → Heads (o ∷ []) b
    → Heads (take n (o ∷ older)) b
Heads-take zero o b older h e = absurd (omega arith)
Heads-take (suc n) o b older h e = e

apply_deltas-Heads :
    (l : Lodash Level) (o old new : OrderBook) (d : Deltas)
    → IsWellFormed old
    → IsWellFormed new
    → Heads (o ∷ []) old
    → d.asks ≡ get_array_diff l old.asks new.asks
    → d.bids ≡ get_array_diff l old.bids new.bids
    → Heads (apply_deltas l o d ∷ []) new
unfolding apply_deltas
apply_deltas-Heads l o old new d wo wn e ea eb = (
  rw (e.0, ea) (apply_side-get_array_diff l ask_key old.asks new.asks wo.asks_rise wn.asks_rise),
  rw (e.1, eb) (apply_side-get_array_diff l bid_key old.bids new.bids wo.bids_fall wn.bids_fall),
)

-- A tick that writes no deltas has the sides of the book before.
no_changes :
    (l : Lodash Level) (clone : OrderBook) (t : Tick) (symbol : Text)
    → IsWellFormed clone
    → IsWellFormed t.book
    → let d = deltas_of l symbol clone t in
      (changes d.asks d.bids == 0) ≡ true → (clone.asks ≡ t.book.asks) × (clone.bids ≡ t.book.bids)
unfolding deltas_of
no_changes l clone t symbol wc wt same = (
  eq_of_no_changes l ask_key clone.asks t.book.asks wc.asks_rise wt.asks_rise (ground arith)
      (ground arith),
  eq_of_no_changes l bid_key clone.bids t.book.bids wc.bids_fall wt.bids_fall (ground arith)
      (ground arith),
)

Heads-same :
    (slot : List OrderBook) (old new : OrderBook)
    → Heads slot old
    → (old.asks ≡ new.asks) × (old.bids ≡ new.bids)
    → Heads slot new
Heads-same [] old new h e = h
Heads-same (o ∷ older) old new h e = (h.0 ∙ e.0, h.1 ∙ e.1)

module _ (l : Lodash Level) (key : Text) (now : ℕ) where
  push_book-Shows :
      (o b : OrderBook) (ts : Option ℕ) (box : DataStreamService OrderBook)
      → 0 < box.cache_size
      → Heads (o ∷ []) b
      → Caught key b (push_book now key o ts box).service
  push_book-Shows o b ts box h e =
      let nothing : Option (Unit {0}) = none in
      (
        omega (arith, cache_size-push now key o ts false nothing box),
        subst (λ slot. Heads slot b) (sym (slot_of-push_self now key o ts false nothing box))
            (Heads-take box.cache_size o b (slot_of box key) h e),
      )

  -- Deltas from the book that the slot shows to a new book make the slot show the new one.
  apply_to_slot-Shows :
      (slot : List OrderBook) (old new : OrderBook) (d : Deltas) (box : DataStreamService OrderBook)
      → 0 < box.cache_size
      → IsWellFormed old
      → IsWellFormed new
      → Heads slot old
      → d.asks ≡ get_array_diff l old.asks new.asks
      → d.bids ≡ get_array_diff l old.bids new.bids
      → Caught key new (apply_to_slot l now key d slot box).service
  unfolding apply_to_slot
  apply_to_slot-Shows [] old new d box h wo wn e ea eb = absurd e
  apply_to_slot-Shows (o ∷ older) old new d box h wo wn e ea eb =
      push_book-Shows (apply_deltas l o d) new (some d.timestamp)
        (record box { cache = insert key (apply_deltas l o d ∷ older) box.cache }) h
        (apply_deltas-Heads l o old new d wo wn e ea eb)

  snapshot_message-Shows :
      (symbol : Text) (t : Tick) (box : DataStreamService OrderBook)
      → 0 < box.cache_size
      → Caught key t.book (deliver l symbol key now (some (snapshot_message symbol t)) box)
  unfolding deliver handle_order_book_message snapshot_message
  snapshot_message-Shows symbol t box h = push_book-Shows _ t.book _ box h (refl, refl)

  delta_message-Shows :
      (symbol : Text) (clone : OrderBook) (t : Tick) (box : DataStreamService OrderBook)
      → 0 < box.cache_size
      → IsWellFormed clone
      → IsWellFormed t.book
      → Shows key box clone
      → Caught key t.book (deliver l symbol key now (delta_message l symbol clone t) box)
  unfolding deliver handle_order_book_message delta_message
  delta_message-Shows symbol clone t box h wc wt shows =
      let d = deltas_of l symbol clone t in
      let quiet = changes d.asks d.bids == 0 in
      let Goal = λ (b : Bool).
        Caught key t.book (deliver l symbol key now (if b then none else some (deltas d)) box) in
      elim (Bool-cases quiet) [
        | inl same ↦ subst Goal (sym same) (
          h,
          Heads-same (slot_of box key) clone t.book shows (no_changes l clone t symbol wc wt same),
        )
        | inr changed ↦
            subst Goal (sym changed)
              (apply_to_slot-Shows (slot_of box key) clone t.book d box h wc wt shows refl refl)
      ]

module _ (l : Lodash Level) (symbol key : Text) where
  step_at :
      (clone : Option OrderBook) (time : ℕ) (box : DataStreamService OrderBook) (e : Event)
      → IsWellFormed e.tick.book
      → Follows key clone box
      → let s =
          step l symbol key
            (record { feed = record { order_book_clone = clone; time = time }; box = box })
            e in
        (s.feed.order_book_clone ≡ some e.tick.book) × Caught key e.tick.book s.box
  unfolding step on_order_book
  step_at none time box e wf h = (refl, snapshot_message-Shows l key e.read_at symbol e.tick box h)
  step_at (some clone) time box e wf h =
      elim (Bool-cases (ltb (time + order_book_snapshot_freq_ms) e.tick.now)) [
        | inl late ↦ rw late (refl, snapshot_message-Shows l key e.read_at symbol e.tick box h.0)
        | inr early ↦
            rw early
              (refl, delta_message-Shows l key e.read_at symbol clone e.tick box h.0 h.1 wf h.2)
      ]

  step-Follows :
      (s : System) (e : Event)
      → IsWellFormed e.tick.book
      → Follows key s.feed.order_book_clone s.box
      → let s' = step l symbol key s e in
        (s'.feed.order_book_clone ≡ some e.tick.book) × Caught key e.tick.book s'.box
  step-Follows s e wf h = step_at s.feed.order_book_clone s.feed.time s.box e wf h

  Follows-of_Caught :
      (c : Option OrderBook) (b : OrderBook) (box : DataStreamService OrderBook)
      → c ≡ some b
      → IsWellFormed b
      → Caught key b box
      → Follows key c box
  Follows-of_Caught none b box e wf h = cc
  Follows-of_Caught (some c) b box e wf h =
      let q : b ≡ c = ground arith in subst (λ x. Follows key (some x) box) q (h.0, wf, h.1)

  -- After any well-formed books and then the book `last`, read in the order of writing, the
  -- magicbox's newest cached book has the asks and the bids of `last`: from a gatherer with no
  -- clone, and a cache with room for at least one version.
  pub run-Shows :
      (events : List Event) (last : Event) (s : System)
      → All (λ e. IsWellFormed e.tick.book) events
      → IsWellFormed last.tick.book
      → Follows key s.feed.order_book_clone s.box
      → Shows key (run l symbol key s (events ++ last ∷ [])).box last.tick.book
  unfolding run
  run-Shows [] last s wfs wf h = (step-Follows s last wf h).1.1
  run-Shows (e ∷ events) last s wfs wf h =
      let s' = step l symbol key s e in
      let moved = step-Follows s e wfs.0 h in
      run-Shows events last s' wfs.1 wf
        (Follows-of_Caught s'.feed.order_book_clone e.tick.book s'.box moved.0 wfs.0 moved.1)
