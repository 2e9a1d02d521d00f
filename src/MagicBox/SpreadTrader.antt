-- ===== src/MagicBox/SpreadTrader.antt =====
-- The plugin SpreadTraderPlugin (packages/magicbox/src/plugins/spreadtrader.ts): an order in the
-- middle of the spread, cancelled and replaced at each tick. The executor, through which it trades,
-- is a parameter. A lock makes each tick one step, but for the events that are handled while the
-- executor is asked to cancel.
pub mod Lost
pub mod Laws
pub mod Middle
pub mod Attempts
pub mod Executed
pub mod Tests
use mathlib.Core.List.{Memᴰ}
use faculty_auxie_mm.MagicBox.Adapter.{maximum, minimum}
use faculty_auxie_mm.MagicBox.Grid.{opposite}
use faculty_auxie_mm.Book.{Level}
use faculty_auxie_mm.Orders.{OrderSide, buy}
use faculty_auxie_mm.Prelude.Text.{Text}
use faculty_auxie_mm.Prelude.{
  ◌≡◌, ◌∷◌, ◌+◌, ◌==◌, [], none, some, true, false, List, Option, Bool, ℕ, map, not, is_some, ◌&&◌,
  if◌then◌else◌, ◌⊎◌,
}

-- `spread`: an amount with a half, as twice itself, or what the floating point makes of an empty side.
pub data Spread : Type 0 where
  undefined not_a_number infinite : Spread
  half : ℕ → Spread

-- Math.max and Math.min of the prices, and the number between them
unfoldable pub middle_of : (bids asks : List Level) → Spread
middle_of [] asks = not_a_number
middle_of (b ∷ bids) [] = infinite
middle_of (b ∷ bids) (a ∷ asks) =
    half (maximum b.price (map (λ l. l.price) bids) + minimum a.price (map (λ l. l.price) asks))

abbrev pub is_truthy : Spread → Bool
is_truthy undefined = false
is_truthy not_a_number = false
is_truthy infinite = true
is_truthy (half n) = not (n == 0)

-- What changes from one order to the next: its amount, pair, type and module do not.
pub record LimitOrder : Type 0 where
  pub side : OrderSide
  pub price : Spread

-- It throws (a timeout, or a status other than 200), or answers with an order, of
-- which only the id is read, or with an empty body.
pub data Answer : Type 0 where
  thrown : Answer
  answered : Option Text → Answer

pub record ExecutorService : Type 1 where
  pub State : Type 0
  pub IsOpen : Text → State → Type 0
  pub submit : LimitOrder → State → State × Answer
  pub cancel : Text → State → State × Answer
  -- orders are filled
  pub elapse : State → State
  -- The id of the order that a submission may open, which is that of its answer, and the ids of those
  -- that were opened by attempts that failed afterwards and were made again.
  pub new_id : LimitOrder → State → Text
  pub failed_ids : LimitOrder → State → List Text
  pub submit_opens :
      (o : LimitOrder) (s : State) (id : Text)
      → IsOpen id (submit o s).0
      → (id ≡ new_id o s) ⊎ (Memᴰ id (failed_ids o s) ⊎ IsOpen id s)
  pub submit_answers :
      (o : LimitOrder) (s : State) (id : Text)
      → (submit o s).1 ≡ answered (some id)
      → id ≡ new_id o s
  pub cancel_opens : (i id : Text) (s : State) → IsOpen id (cancel i s).0 → IsOpen id s
  -- an order that is answered is cancelled
  pub cancel_closes :
      (i id : Text) (s : State) → (cancel i s).1 ≡ answered (some id) → ¬ IsOpen i (cancel i s).0
  pub elapse_opens : (id : Text) (s : State) → IsOpen id (elapse s) → IsOpen id s

-- The events that Handle looks at; `balances.free` is an object or missing.
pub data Event : Type 0 where
  watch_balance : Option (List (Text × ℕ)) → Event
  watch_order_book : (bids asks : List Level) → Event
  watch_orders other : Event

pub record Trader : Type 0 where
  pub next_action : OrderSide
  pub last_order_id : Option Text
  pub balance : Option (List (Text × ℕ))
  pub spread : Spread

abbrev pub new_trader : Trader
new_trader = record { next_action = buy; last_order_id = none; balance = none; spread = undefined }

-- Handle
unfoldable pub handle : Event → Trader → Trader
unfolding middle_of
handle (watch_balance free) t = record t { balance = free }
handle (watch_order_book bids asks) t = record t { spread = middle_of bids asks }
handle watch_orders t = t
handle other t = t

unfoldable pub handle_all : List Event → Trader → Trader
unfolding handle
handle_all [] t = t
handle_all (e ∷ es) t = handle_all es (handle e t)

abbrev pub next_order : Trader → LimitOrder
next_order t = record { side = t.next_action; price = t.spread }

-- The answer to a submission: an empty body has no id.
abbrev pub after_answer : Answer → Trader → Trader
after_answer thrown t = t
after_answer (answered id) t = record t { last_order_id = id; next_action = opposite t.next_action }

pub data Happening : Type 0 where
  event : Event → Happening
  five_seconds : List Event → Happening
  time : Happening

module _ (executor : ExecutorService) where
  pub record System : Type 0 where
    pub trader : Trader
    pub orders : executor.State

  -- what the answer to a cancellation leads to, and whether the tick goes on
  abbrev pub after_cancel : Answer → executor.State → System → System × Bool
  after_cancel thrown orders s = (record s { orders = orders }, false)
  after_cancel (answered order) orders s =
      (record { trader = record s.trader { last_order_id = none }; orders = orders }, true)

  -- The order that is there is cancelled.
  abbrev pub cancel_last : Option Text → System → System × Bool
  cancel_last none s = (s, true)
  cancel_last (some id) s =
      let (orders, answer) = executor.cancel id s.orders in after_cancel answer orders s

  unfoldable pub tick_cancel : System → System × Bool
  tick_cancel s = cancel_last s.trader.last_order_id s

  unfoldable pub tick_submit : System → System
  tick_submit s =
      let (orders, answer) = executor.submit (next_order s.trader) s.orders in
      if is_some s.trader.balance && is_truthy s.trader.spread
      then record { trader = after_answer answer s.trader; orders = orders }
      else s

  -- tick, with the events that are handled before the answer to the cancellation
  unfoldable pub tick : List Event → System → System
  unfolding tick_cancel tick_submit handle_all
  tick during s =
      let (s', goes_on) = tick_cancel s in
      let handled = record s' { trader = handle_all during s'.trader } in
      let submitted = tick_submit handled in if goes_on then submitted else handled

  unfoldable pub happen : Happening → System → System
  unfolding handle tick
  happen (event e) s = record s { trader = handle e s.trader }
  happen (five_seconds during) s = tick during s
  happen time s = record s { orders = executor.elapse s.orders }
