-- ===== src/MagicBox/Grid.antt =====
-- The grid trader (packages/magicbox/src/plugins/grid.ts). Prices and sizes, which the plugin rounds
-- to the market's precision, are natural numbers of its smallest step. The trader, which sends an
-- order to the executor over HTTP and waits, is a parameter: it answers the order's id, or throws.
-- The writes of the grid to redis and the connection are left out.
pub mod Laws
pub mod Fills
pub mod Tests
use faculty_auxie_mm.Book.{OrderBook, Level}
use faculty_auxie_mm.Prelude.Text.{Text, text_eq}
use faculty_auxie_mm.Orders.{opened, closed, canceled, Status, OrderSide, sell, buy}
use faculty_auxie_mm.Prelude.{
  ◌∷◌, if◌then◌else◌, ◌==◌, ◌+◌, ◌&&◌, ◌||◌, none, some, true, false, [], List, Option, Bool, ℕ,
  not, any, ltb,
}

pub record GridOrder : Type 0 where
  pub starting_side : OrderSide
  pub current_side : OrderSide
  pub starting_price : ℕ
  pub current_price : ℕ
  pub next_price : ℕ
  pub order_size : ℕ
  pub total_filled : ℕ
  pub order_in_book : Bool
  -- none for -1
  pub order_id_in_book : Option Text

pub record Grid : Type 0 where
  pub cross_enabled : Bool
  pub order_grid : List GridOrder
  pub best_bid : ℕ
  pub best_ask : ℕ
  -- Is the lock held by a call that was left without its `done`?
  pub lock_held : Bool

abbrev pub is_sell : OrderSide → Bool
is_sell sell = true
is_sell buy = false

abbrev pub opposite : OrderSide → OrderSide
opposite buy = sell
opposite sell = buy

abbrev pub is_empty : List Level → Bool
is_empty [] = true
is_empty (x ∷ xs) = false

-- The last two tests of checkForCross.
abbrev pub crosses : Grid → ℕ → OrderSide → Bool
crosses g price sell = not (ltb g.best_bid price)
crosses g price buy = not (ltb price g.best_ask)

-- checkForCross, which throws where it reads a book that is missing or has no bids or asks. What
-- looks like an assignment of the best prices compares them.
unfoldable pub check_for_cross : Option OrderBook → ℕ → OrderSide → Grid → Option Bool
check_for_cross book price side g =
    if g.best_ask == 0 || g.best_bid == 0
    then elim book [
      | none ↦ none
      | some b ↦
          if is_sell side && is_empty b.bids
          then some false
          else if not (is_sell side) && is_empty b.asks
          then some false
          else if is_empty b.bids || is_empty b.asks
          then none
          else some (crosses g price side)
    ]
    else some (crosses g price side)

pub record Trader : Type 1 where
  pub State : Type 0
  pub submit_order_synchronously : ℕ → ℕ → OrderSide → State → State × Option Text

pub data Submission : Type 0 where
  submitted : Text → Submission
  not_submitted thrown : Submission

module _ (trader : Trader) (book : Option OrderBook) where
  abbrev pub submission_of : trader.State × Option Text → trader.State × Submission
  submission_of (t, none) = (t, thrown)
  submission_of (t, some id) = (t, submitted id)

  unfoldable pub submit_grid_order_to_exchange :
      ℕ → ℕ → OrderSide → Grid → trader.State → trader.State × Submission
  unfolding check_for_cross
  submit_grid_order_to_exchange price size side g t =
      let order = submission_of (trader.submit_order_synchronously price size side t) in
      if g.cross_enabled then order else elim (check_for_cross book price side g) [
        | none ↦ (t, thrown)
        | some true ↦ (t, not_submitted)
        | some false ↦ order
      ]

  -- One turn of the loop over the orders: an order in the book stays as it is.
  abbrev pub resubmitted : GridOrder → Submission → GridOrder
  resubmitted o (submitted id) = record o { order_in_book = true; order_id_in_book = some id }
  resubmitted o not_submitted = record o { order_in_book = false }
  resubmitted o thrown = o

  abbrev pub is_thrown : Submission → Bool
  is_thrown thrown = true
  is_thrown (submitted id) = false
  is_thrown not_submitted = false

  -- What is thrown leaves the loop, with the orders before it changed. The last part is whether the
  -- loop came to its end.
  unfoldable pub submit_missing :
      Grid → List GridOrder → trader.State → List GridOrder × trader.State × Bool
  unfolding submit_grid_order_to_exchange
  submit_missing g [] t = ([], t, true)
  submit_missing g (o ∷ os) t = elim o.order_in_book [
    | true ↦ let (os', t', complete) = submit_missing g os t in (o ∷ os', t', complete)
    | false ↦
        let (u, result) =
          submit_grid_order_to_exchange o.current_price o.order_size o.current_side g t in
        let (os', t', complete) = submit_missing g os u in
        if is_thrown result then (o ∷ os, u, false) else (resubmitted o result ∷ os', t', complete)
  ]

abbrev pub best_of : ℕ → List Level → ℕ
best_of old [] = old
best_of old (x ∷ xs) = x.price

abbrev pub with_best : OrderBook → Grid → Grid
with_best b g = record g {
  best_bid = best_of g.best_bid b.bids;
  best_ask = best_of g.best_ask b.asks;
}

abbrev pub check_for_unsubmitted_orders : List GridOrder → Bool
check_for_unsubmitted_orders = any (λ o. not o.order_in_book)

-- lookUpOrderFromGrid, and checkIfOrderIdInGrid by whether it finds one
unfoldable pub look_up_order_from_grid : Text → List GridOrder → Option GridOrder
look_up_order_from_grid id [] = none
look_up_order_from_grid id (o ∷ os) =
    let rest = look_up_order_from_grid id os in
    elim o.order_id_in_book [ none ↦ rest | some i ↦ if text_eq i id then some o else rest ]

abbrev pub modified : OrderSide → ℕ → ℕ → Bool → Option Text → GridOrder → GridOrder
modified side current next is_opened id o = record o {
  current_side = side;
  current_price = current;
  next_price = next;
  total_filled = o.total_filled + o.order_size;
  order_in_book = is_opened;
  order_id_in_book = id;
}

-- modifyOrderInGrid: every order at the price
unfoldable pub modify_order_in_grid :
    ℕ → OrderSide → ℕ → ℕ → Bool → Option Text → List GridOrder → List GridOrder
modify_order_in_grid actual side current next is_opened id [] = []
modify_order_in_grid actual side current next is_opened id (o ∷ os) =
    (if o.current_price == actual then modified side current next is_opened id o else o)
    ∷ modify_order_in_grid actual side current next is_opened id os

module _ (trader : Trader) (book : Option OrderBook) where
  -- the part of Handle for a book
  unfoldable pub handle_order_book : OrderBook → Grid → trader.State → Grid × trader.State × Bool
  handle_order_book b g t =
      let g' = with_best b g in
      let (os, t', complete) = submit_missing trader book g' g'.order_grid t in
      if not g.cross_enabled && check_for_unsubmitted_orders g.order_grid
      then (record g' { order_grid = os }, t', complete)
      else (g', t, true)

  abbrev pub after_fill :
      GridOrder → OrderSide → Grid → trader.State × Submission → Grid × trader.State
  after_fill o side g (t, submitted id) = (
    record g {
      order_grid =
          modify_order_in_grid o.current_price side o.current_price o.starting_price true (some id)
            g.order_grid;
    },
    t,
  )
  after_fill o side g (t, not_submitted) = (
    record g {
      order_grid =
          modify_order_in_grid o.current_price side o.current_price o.starting_price false none
            g.order_grid;
    },
    t,
  )
  after_fill o side g (t, thrown) = (record g { lock_held = true }, t)

  -- onLockAcquired, for an order that was closed, and the `done` behind it. What a submission throws
  -- leaves both, and the lock of the plugin is then held for good.
  unfoldable pub on_lock_acquired : Text → OrderSide → Grid → trader.State → Grid × trader.State
  on_lock_acquired id side g t = elim (look_up_order_from_grid id g.order_grid) [
    | none ↦ (g, t)
    | some o ↦
        after_fill o (opposite side) g (
          submit_grid_order_to_exchange trader book o.current_price o.order_size (opposite side) g
            t)
  ]

-- What Handle acts on: a book, or an order of some status.
pub data Event : Type 0 where
  book_changed : OrderBook → Event
  order_changed : Text → OrderSide → Option Status → Event

abbrev pub is_closed : Option Status → Bool
is_closed none = false
is_closed (some opened) = false
is_closed (some closed) = true
is_closed (some canceled) = false

module _ (trader : Trader) where
  -- Handle, with the newest book of the data stream. An exception ends the call. While the lock is
  -- held, a filled order waits for it until the wait is given up.
  unfoldable pub handle_event : Option OrderBook → Event → Grid × trader.State → Grid × trader.State
  unfolding handle_order_book on_lock_acquired
  handle_event book (book_changed b) (g, t) =
      let (g', t', complete) = handle_order_book trader book b g t in (g', t')
  handle_event book (order_changed id side status) (g, t) =
      if is_closed status && not g.lock_held
      then on_lock_acquired trader book id side g t
      else (g, t)

  unfoldable pub handle_events :
      List (Option OrderBook × Event) → Grid × trader.State → Grid × trader.State
  unfolding handle_event
  handle_events [] s = s
  handle_events ((book, e) ∷ es) s = handle_events es (handle_event book e s)
