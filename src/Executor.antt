-- ===== src/Executor.antt =====
-- TradingService and the request handler of the executor (packages/executor/src/services/
-- trading.service.ts, packages/executor/src/index.ts).
-- ccxt, redis and delayed-promise-retry are not part of the repository and are parameters. A call of
-- the exchange that throws, or answers nothing, answers `none`. A write to redis is taken,
-- or refused, which throws and changes nothing.
pub mod Laws
pub mod Placed
pub mod Cancel
pub mod Service
pub mod Tests
use faculty_auxie_mm.Orders.Store.{order_key}
use faculty_auxie_mm.Orders.{Order, OrderSide}
use faculty_auxie_mm.Prelude.Text.{Text, text_eq, codes}
use faculty_auxie_mm.Prelude.{
  ◌≡◌, ◌∷◌, ◌++◌, if◌then◌else◌, ◌+◌, ◌≤◌, ◌&&◌, none, some, true, zero, suc, [], List, Option,
  Bool, ℕ, is_some, or_default, false,
}

pub record SubmitOrder : Type 0 where
  pub symbol : Text
  pub side : OrderSide
  pub is_market : Bool
  pub amount_base : ℕ
  pub price : ℕ
  pub created_by_module : Text

pub record CancelOrder : Type 0 where
  pub order_id : Text
  pub symbol : Text

-- What a message or a request asks for.
pub data Command : Type 0 where
  create : SubmitOrder → Command
  cancel : CancelOrder → Command
  other : Command

pub data Answer : Type 0 where
  ok : Option Order → Answer
  tenant_not_found unexpected_action : Answer

-- One exchange of a tenant. `placed` counts the orders that it has taken.
pub record Market : Type 1 where
  pub State : Type 0
  pub retries_before_stopping : Option ℕ
  pub create_order : SubmitOrder → State → State × Option Order
  pub fetch_order : Text → Text → State → State × Option Order
  pub cancel_order : Text → Text → State → State × Option Order
  pub placed : State → ℕ
  -- a call places one order at most, and one where it answers
  pub placed_at_most : (o : SubmitOrder) (m : State) → placed (create_order o m).0 ≤ placed m + 1
  pub placed_answered :
      (o : SubmitOrder) (m : State)
      → is_some (create_order o m).1 ≡ true
      → placed (create_order o m).0 ≡ placed m + 1
  pub placed_fetch : (id symbol : Text) (m : State) → placed (fetch_order id symbol m).0 ≡ placed m
  -- an order is fetched by its id
  pub fetched_id :
      (id symbol : Text) (m : State) (o : Order) → (fetch_order id symbol m).1 ≡ some o → o.id ≡ id

-- The streams of orders, and the hashes with the fields `order` and `orderSource`.
pub record Redis : Type 1 where
  pub State : Type 0
  pub stream : State → Text → List Order
  pub order : State → Text → Option Order
  pub order_source : State → Text → Option Text
  -- each write with whether it is taken
  pub x_add : Text → Order → State → State × Bool
  -- HSET of the order, and of the source where one is given
  pub h_set : Text → Order → Option Text → State → State × Bool
  pub stream-x_add :
      (k j : Text) (o : Order) (s : State)
      → stream (x_add k o s).0 j
        ≡ (if (x_add k o s).1 && text_eq k j then stream s j ++ o ∷ [] else stream s j)
  pub order-x_add : (k j : Text) (o : Order) (s : State) → order (x_add k o s).0 j ≡ order s j
  pub order_source-x_add :
      (k j : Text) (o : Order) (s : State) → order_source (x_add k o s).0 j ≡ order_source s j
  pub stream-h_set :
      (k j : Text) (o : Order) (source : Option Text) (s : State)
      → stream (h_set k o source s).0 j ≡ stream s j
  pub order-h_set :
      (k j : Text) (o : Order) (source : Option Text) (s : State)
      → order (h_set k o source s).0 j
        ≡ (if (h_set k o source s).1 && text_eq k j then some o else order s j)
  pub order_source-h_set :
      (k j : Text) (o : Order) (source : Option Text) (s : State)
      → order_source (h_set k o source s).0 j ≡ (
          if (h_set k o source s).1 && text_eq k j && is_some source
          then source
          else order_source s j)

-- Run a function until it brings a result, a number of times at most.
unfoldable pub run_until {ℓ κ} :
    {S : Type ℓ} {A : Type κ} → (S → S × Option A) → ℕ → S → S × Option A
run_until fn zero s = (s, none)
run_until fn (suc n) s =
    let (s', result) = fn s in
    let later = run_until fn n s' in elim result [ some a ↦ (s', some a) | none ↦ later ]

-- delayedPromiseRetry: how often it tries for a number of retries is its own matter.
pub record Retry : Type 1 where
  pub tries : ℕ → ℕ
  pub delayed_promise_retry : {S A : Type 0} → (S → S × Option A) → ℕ → S → S × Option A
  pub retry-eq-run_until :
      {S A : Type 0} (fn : S → S × Option A) (n : ℕ) (s : S)
      → delayed_promise_retry fn n s ≡ run_until fn (tries n) s

abbrev pub number_of_retries : ℕ
number_of_retries = 20

abbrev pub orders_stream : Text → Text → Text → Text
orders_stream tenant exchange_id symbol =
    codes "stream." ++ (tenant ++ b'.' ∷ (exchange_id ++ codes ".watchOrders." ++ symbol))

module _ (market : Market) where
  abbrev pub with_detail :
      Order → market.State × Option Order → market.State × Option (Order × Order)
  with_detail order (m, none) = (m, none)
  with_detail order (m, some detail) = (m, some (order, detail))

  -- An answer without a status is completed by a fetch.
  abbrev pub detailed : market.State × Option Order → market.State × Option (Order × Order)
  detailed (m, none) = (m, none)
  detailed (m, some order) =
      if is_some order.status
      then (m, some (order, order))
      else with_detail order (market.fetch_order order.id order.symbol m)

  -- `fn` of createOrder: the order and its details
  unfoldable pub attempt : SubmitOrder → market.State → market.State × Option (Order × Order)
  attempt submit_order m = detailed (market.create_order submit_order m)

module _ (market : Market) (redis : Redis) (retry : Retry) (tenant exchange_id : Text) where
  pub record World : Type 0 where
    pub at_market : market.State
    pub at_redis : redis.State

  -- The order is returned where the last write is taken.
  abbrev pub recorded : Order → market.State → redis.State × Bool → World × Option Order
  recorded detail m (s, true) = (record { at_market = m; at_redis = s }, some detail)
  recorded detail m (s, false) = (record { at_market = m; at_redis = s }, none)

  abbrev pub record_in_hash :
      SubmitOrder → Order → Order → market.State → redis.State × Bool → World × Option Order
  record_in_hash submit_order order detail m (s, true) =
      recorded detail m
        (redis.h_set (order_key tenant order.id) detail (some submit_order.created_by_module) s)
  record_in_hash submit_order order detail m (s, false) =
      (record { at_market = m; at_redis = s }, none)

  abbrev pub record_created :
      SubmitOrder → redis.State → market.State × Option (Order × Order) → World × Option Order
  record_created submit_order s (m, none) = (record { at_market = m; at_redis = s }, none)
  record_created submit_order s (m, some (order, detail)) =
      record_in_hash submit_order order detail m
        (redis.x_add (orders_stream tenant exchange_id submit_order.symbol) detail s)

  -- TradingService.createOrder
  unfoldable pub create_order : SubmitOrder → World → World × Option Order
  unfolding attempt
  create_order submit_order w =
      let retries = or_default market.retries_before_stopping number_of_retries in
      record_created submit_order w.at_redis
        (retry.delayed_promise_retry (attempt market submit_order) retries w.at_market)

  abbrev pub record_canceled :
      Text → redis.State → market.State × Option Order → World × Option Order
  record_canceled id s (m, none) = (record { at_market = m; at_redis = s }, none)
  record_canceled id s (m, some detail) =
      recorded detail m (redis.h_set (order_key tenant id) detail none s)

  abbrev pub fetch_canceled : Text → market.State × Option Order → market.State × Option Order
  fetch_canceled id (m, none) = (m, none)
  fetch_canceled id (m, some order) = market.fetch_order id order.symbol m

  -- TradingService.cancelOrder
  unfoldable pub cancel_order : CancelOrder → World → World × Option Order
  cancel_order params w = record_canceled params.order_id w.at_redis (
      fetch_canceled params.order_id
        (market.cancel_order params.order_id params.symbol w.at_market))

  -- TradingService.onCommandReceived: any other action is passed over
  unfoldable pub on_command_received : Command → World → World
  on_command_received (create submit_order) w = (create_order submit_order w).0
  on_command_received (cancel params) w = (cancel_order params w).0
  on_command_received other w = w

  -- submitHandler for this tenant and exchange; `served` is whether the tenant has a service. An
  -- order that there is not is answered with 200 and no body.
  unfoldable pub submit_handler : Bool → Command → World → World × Answer
  submit_handler false command w = (w, tenant_not_found)
  submit_handler true (create submit_order) w =
      let (w', order) = create_order submit_order w in (w', ok order)
  submit_handler true (cancel params) w = let (w', order) = cancel_order params w in (w', ok order)
  submit_handler true other w = (w, unexpected_action)
