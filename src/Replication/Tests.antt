-- ===== src/Replication/Tests.antt =====
-- Test data and examples for the order book stream.
use faculty_auxie_mm.Replication.Orders.{Agree, AreFresh, receive, store_orders-Agree}
use faculty_auxie_mm.Orders.Store.{dict_store, order_key}
use faculty_auxie_mm.MagicBox.Orders.{find_order}
use faculty_auxie_mm.Gatherer.Orders.{handle_orders, state_changed, store_order, store_orders}
use faculty_auxie_mm.Orders.{Order, Status, opened, buy, closed}
use faculty_auxie_mm.Prelude.{
  ℕ, ◌+◌, ◌≡◌, none, some, List, [], ◌∷◌, ◌++◌, arith, refl, Option, length,
}
use faculty_auxie_mm.Prelude.Text.{codes, Text}
use faculty_auxie_mm.Book.{OrderBook, Level, level_Eq, ask_key}
use faculty_auxie_mm.Book.Lodash.{plain_lodash}
use faculty_auxie_mm.Gatherer.Diff.{get_array_diff}
use faculty_auxie_mm.MagicBox.OrderBooks.{apply_side}
use faculty_auxie_mm.MagicBox.Cache.{DataStreamService}
use faculty_auxie_mm.Replication.Side.{apply_side-get_array_diff}
use faculty_auxie_mm.Replication.Sync.{System, Event, IsWellFormed, Shows, run, run-Shows}

abbrev level : ℕ → ℕ → Level
level p a = record { price = p; amount = a }

abbrev book_at : ℕ → List Level → List Level → OrderBook
book_at t asks bids = record {
  timestamp = some t;
  datetime = none;
  nonce = none;
  asks = asks;
  bids = bids;
}

abbrev pub first_book : OrderBook
first_book = book_at 1000 (level 101 5 ∷ level 102 7 ∷ []) (level 100 4 ∷ level 98 1 ∷ [])

abbrev pub second_book : OrderBook
second_book =
    book_at 2000 (level 101 6 ∷ level 102 7 ∷ level 105 2 ∷ []) (level 99 3 ∷ level 98 1 ∷ [])

abbrev event_at : ℕ → OrderBook → Event
event_at t b = record { tick = record { now = t; timestamp_local = t; book = b }; read_at = t + 1 }

abbrev empty_box : DataStreamService OrderBook
empty_box = record {
  cache = [];
  observables = (codes "k") ∷ [];
  cache_size = 30;
  max_timestamp_delta = 3000;
}

abbrev start : System
start = record { feed = record { order_book_clone = none; time = 0 }; box = empty_box }

second-IsWellFormed : IsWellFormed second_book
second-IsWellFormed = omega arith

run-Shows_example :
    Shows
      (codes "k")
      (run plain_lodash (codes "ETH/BTC") (codes "k") start (
        event_at 1000 first_book ∷ event_at 2000 first_book ∷ []
        ++ event_at 3000 second_book ∷ [])).box
      second_book
run-Shows_example =
    run-Shows plain_lodash (codes "ETH/BTC") (codes "k")
      (event_at 1000 first_book ∷ event_at 2000 first_book ∷ []) (event_at 3000 second_book) start
      (omega arith) second-IsWellFormed (omega arith)

apply_side-get_array_diff_example :
    apply_side plain_lodash ask_key first_book.asks
      (get_array_diff plain_lodash first_book.asks second_book.asks)
    ≡ second_book.asks
apply_side-get_array_diff_example =
    apply_side-get_array_diff plain_lodash ask_key first_book.asks second_book.asks (omega arith)
      (omega arith)

abbrev order_at : Text → Option Status → Option ℕ → Order
order_at id status filled = record {
  id = id;
  client_order_id = [];
  symbol = codes "ETH/BTC";
  side = buy;
  timestamp = 1000;
  status = status;
  price = 100;
  amount = some 10;
  filled = filled;
  remaining = none;
}

abbrev reports : List Order
reports =
    order_at (codes "7") (some opened) (some 0)
    ∷ order_at (codes "8") (some opened) (some 0)
    ∷ order_at (codes "7") (some opened) (some 0)
    ∷ order_at (codes "7") (some closed) (some 10)
    ∷ []

abbrev order_box : DataStreamService (List Order)
order_box = record { cache = []; observables = []; cache_size = 30; max_timestamp_delta = 3000 }

-- The third report repeats the first, and is not written.
three_written : length (handle_orders dict_store (codes "T") [] reports).1 ≡ 3
unfolding handle_orders state_changed
three_written = refl

-- Rounds of two subscribers, one order each, and then one more.
abbrev both_rounds : List (Option Order × Order)
both_rounds =
    (none, order_at (codes "7") (some opened) (some 0))
    ∷ (none, order_at (codes "8") (some opened) (some 0))
    ∷ (
      some (order_at (codes "7") (some opened) (some 0)),
      order_at (codes "7") (some closed) (some 10),
    )
    ∷ []

store_orders-Agree_example :
    let (s', written) = store_orders dict_store (codes "T") [] both_rounds in
    Agree dict_store
      (codes "T")
      (codes "k")
      1000
      1000
      (λ id. Unit)
      s'
      (receive (codes "k") 1000 1000 order_box written)
unfolding find_order AreFresh store_order
store_orders-Agree_example =
    store_orders-Agree dict_store (codes "T") (codes "k") 1000 1000 (λ id. Unit) both_rounds []
      order_box (omega arith, λ id ours. refl) (refl, (refl, (refl, tt)))

-- Two both_rounds that both read the order as it was first: the older report is stored last, and is not
-- written.
abbrev overlapping : List (Option Order × Order)
overlapping =
    (none, order_at (codes "7") (some opened) (some 0))
    ∷ (
      some (order_at (codes "7") (some opened) (some 0)),
      order_at (codes "7") (some closed) (some 10),
    )
    ∷ (
      some (order_at (codes "7") (some opened) (some 0)),
      order_at (codes "7") (some opened) (some 0),
    )
    ∷ []

stale_order_stored :
    let (s', written) = store_orders dict_store (codes "T") [] overlapping in
    (dict_store.hget s' (order_key (codes "T") (codes "7"))
      ≡ some (order_at (codes "7") (some opened) (some 0)))
    × (written
        ≡ order_at (codes "7") (some opened) (some 0)
          ∷ order_at (codes "7") (some closed) (some 10)
          ∷ [])
unfolding store_orders state_changed
stale_order_stored = (refl, refl)
