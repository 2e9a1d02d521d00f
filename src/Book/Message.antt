-- ===== src/Book/Message.antt =====
-- What the gatherer writes for an order book and the magicbox reads: the payloads of
-- packages/gatherer/src/worker.ts, told apart by their field `type`.
use faculty_auxie_mm.Prelude.{ℕ, Option}
use faculty_auxie_mm.Prelude.Text.{Text}
use faculty_auxie_mm.Book.{OrderBook, Level}
use faculty_auxie_mm.Gatherer.Diff.{ArrayDiff}

pub record Deltas : Type 0 where
  pub asks : ArrayDiff Level
  pub bids : ArrayDiff Level
  pub timestamp : ℕ
  pub timestamp_local : ℕ
  pub datetime : Option Text
  pub nonce : Option ℕ
  pub symbol : Text

pub data BookMessage : Type 0 where
  -- `{ ...data, type: 'snapshot', timestampLocal, timestamp, symbol }`
  snapshot : OrderBook → ℕ → Text → BookMessage
  deltas : Deltas → BookMessage
