-- ===== src/MagicBox/OrderBooks.antt =====
-- DataStreamService.handleOrderBookMessage (packages/magicbox/src/services/datastream-service.ts).
-- `orderbook` is the object at the head of the slot: the source changes it in place and pushes a
-- clone of it, so the slot's old head is written back before the push.
use faculty_auxie_mm.Prelude.{ℕ, false, Option, none, some, List, [], ◌∷◌, ◌++◌}
use faculty_auxie_mm.Prelude.Text.{Text, text_Eq}
use faculty_auxie_mm.Prelude.Dict.{insert}
use faculty_auxie_mm.Prelude.Int.{ℤ}
use faculty_auxie_mm.Book.{OrderBook, Level, level_Eq, ask_key, bid_key}
use faculty_auxie_mm.Book.Lodash.{Lodash}
use faculty_auxie_mm.Book.Message.{BookMessage, snapshot, deltas, Deltas}
use faculty_auxie_mm.Gatherer.Diff.{ArrayDiff}
use faculty_auxie_mm.MagicBox.Cache.{DataStreamService, Pushed, slot_of, push_to_observable}

-- One side: the removed levels go, the added ones are appended, and the side is sorted.
unfoldable pub apply_side : Lodash Level → (Level → ℤ) → List Level → ArrayDiff Level → List Level
apply_side l key side d = l.sort_by (l.pull_all_with side d.remove l.is_equal ++ d.add) key

unfoldable pub apply_deltas : Lodash Level → OrderBook → Deltas → OrderBook
apply_deltas l orderbook d = record {
  timestamp = some d.timestamp;
  datetime = d.datetime;
  nonce = d.nonce;
  asks = apply_side l ask_key orderbook.asks d.asks;
  bids = apply_side l bid_key orderbook.bids d.bids;
}

-- With no data, or with deltas before any snapshot, nothing is pushed.
abbrev pub unchanged : DataStreamService OrderBook → Pushed OrderBook Unit
unchanged s = record { service = s; slot = []; emitted = none }

abbrev pub push_book :
    ℕ → Text → OrderBook → Option ℕ → DataStreamService OrderBook → Pushed OrderBook Unit
push_book now key book timestamp s = push_to_observable now key book timestamp false none s

unfoldable pub apply_to_slot :
    Lodash Level
    → ℕ
    → Text
    → Deltas
    → List OrderBook
    → DataStreamService OrderBook
    → Pushed OrderBook Unit
apply_to_slot l now key d [] s = unchanged s
apply_to_slot l now key d (orderbook ∷ older) s =
    let orderbook' = apply_deltas l orderbook d in
    push_book now key orderbook' (some d.timestamp)
      (record s { cache = insert key (orderbook' ∷ older) s.cache })

unfoldable pub handle_order_book_message :
    Lodash Level
    → ℕ
    → Text
    → Option BookMessage
    → DataStreamService OrderBook
    → Pushed OrderBook Unit
unfolding apply_to_slot
handle_order_book_message l now key none s = unchanged s
handle_order_book_message l now key (some (snapshot book local symbol)) s =
    push_book now key book book.timestamp s
handle_order_book_message l now key (some (deltas d)) s =
    apply_to_slot l now key d (slot_of s key) s
