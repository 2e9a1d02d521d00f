-- ===== src/Gatherer/Feed.antt =====
-- The `watchOrderBook` subscriber of packages/gatherer/src/worker.ts: a snapshot first and every
-- minute, and the changes since the book before otherwise.
use faculty_auxie_mm.Prelude.{
  ℕ, ◌+◌, ltb, Option, none, some, length, or_default, ◌==◌, if◌then◌else◌,
}
use faculty_auxie_mm.Prelude.Text.{Text}
use faculty_auxie_mm.Book.{OrderBook, Level, level_Eq}
use faculty_auxie_mm.Book.Lodash.{Lodash}
use faculty_auxie_mm.Book.Message.{BookMessage, snapshot, deltas, Deltas}
use faculty_auxie_mm.Gatherer.Diff.{ArrayDiff, get_array_diff}

abbrev pub order_book_snapshot_freq_ms : ℕ
order_book_snapshot_freq_ms = 60000

-- The variables that the subscriber closes over.
pub record Feed : Type 0 where
  pub order_book_clone : Option OrderBook
  pub time : ℕ

-- One order book as the exchange reports it, with the clock at its arrival.
pub record Tick : Type 0 where
  pub now : ℕ
  pub timestamp_local : ℕ
  pub book : OrderBook

pub timestamp_of : Tick → ℕ
timestamp_of t = or_default t.book.timestamp t.timestamp_local

abbrev pub changes : ArrayDiff Level → ArrayDiff Level → ℕ
changes asks bids = length asks.remove + length asks.add + length bids.remove + length bids.add

-- The changes from the book before.
unfoldable pub deltas_of : Lodash Level → Text → OrderBook → Tick → Deltas
unfolding timestamp_of
deltas_of l symbol clone t = record {
  asks = get_array_diff l clone.asks t.book.asks;
  bids = get_array_diff l clone.bids t.book.bids;
  timestamp = timestamp_of t;
  timestamp_local = t.timestamp_local;
  datetime = t.book.datetime;
  nonce = t.book.nonce;
  symbol = symbol;
}

-- Nothing is written where neither side changed.
unfoldable pub delta_message : Lodash Level → Text → OrderBook → Tick → Option BookMessage
unfolding deltas_of
delta_message l symbol clone t =
    let d = deltas_of l symbol clone t in
    if changes d.asks d.bids == 0 then none else some (deltas d)

unfoldable pub snapshot_message : Text → Tick → BookMessage
unfolding timestamp_of
snapshot_message symbol t =
    snapshot (record t.book { timestamp = some (timestamp_of t) }) t.timestamp_local symbol

-- The test `!orderBookClone || (now - time) > ORDER_BOOK_SNAPSHOT_FREQ_MS`, and the clone after it.
unfoldable pub on_order_book : Lodash Level → Text → Tick → Feed → Feed × Option BookMessage
on_order_book l symbol t f = elim f.order_book_clone [
  | none ↦
      (record { order_book_clone = some t.book; time = t.now }, some (snapshot_message symbol t))
  | some clone ↦
      if ltb (f.time + order_book_snapshot_freq_ms) t.now
      then (
        record { order_book_clone = some t.book; time = t.now },
        some (snapshot_message symbol t),
      )
      else (record f { order_book_clone = some t.book }, delta_message l symbol clone t)
]
