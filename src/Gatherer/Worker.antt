-- ===== src/Gatherer/Worker.antt =====
-- SetupWorker of packages/gatherer/src/worker.ts: what a worker of the gatherer subscribes to for its
-- workplan, with the exchange that ExchangeService has for it. A subscription is the subject that it
-- is on and the streams that its subscriber writes. rxjs subscribes to every source of a merge.
pub mod Laws
pub mod Streams
pub mod Tests
use faculty_auxie_mm.Gatherer.Loop.{Param, undefined}
use faculty_auxie_mm.Gatherer.Streamer.Methods.{
  Observed, single, merged, watch_order_book, watch_trades, watch_my_trades, watch_orders,
  fetch_orders, watch_ohlcv, fetch_balance, watch_balance,
}
use faculty_auxie_mm.Gatherer.Streamer.{Exchange, Streamer, subscribe}
use faculty_auxie_mm.Keys.{
  get_observable_key, order_book_key, order_book_snapshot_key, stream_prefix,
}
use faculty_auxie_mm.Prelude.Text.{Text, codes, text_eq, replace_first}
use faculty_auxie_mm.Prelude.{
  ◌∷◌, ◌++◌, [], none, some, true, false, List, Option, Bool, ℕ, if◌then◌else◌, is_some, ◌&&◌,
}

pub record DataPoint : Type 0 where
  pub action : Text
  pub limit : Param
  pub since : Param
  pub timeframe : Param

-- A data point of a workplan is a name or an object.
pub data DataPointEntry : Type 0 where
  name : Text → DataPointEntry
  object : DataPoint → DataPointEntry

abbrev pub data_point_of : DataPointEntry → DataPoint
data_point_of (name action) = record {
  action = action;
  limit = undefined;
  since = undefined;
  timeframe = undefined;
}
data_point_of (object p) = p

pub record WorkPlan : Type 0 where
  pub asset_pairs : List Text
  pub data_points : List DataPointEntry
  pub delay_on_fetch : Option ℕ

-- The cases of `switch (dataPoint.action)`.
pub data Action : Type 0 where
  order_book trades my_trades orders ohlcv balance : Action
  unknown : Action

abbrev pub action_of : Text → Action
action_of action =
    if text_eq action (codes "watchOrderBook")
    then order_book
    else if text_eq action (codes "watchTrades")
    then trades
    else if text_eq action (codes "watchMyTrades")
    then my_trades
    else if text_eq action (codes "watchOrders")
    then orders
    else if text_eq action (codes "watchOHLCV")
    then ohlcv
    else if text_eq action (codes "watchBalance")
    then balance
    else unknown

pub record Subscription : Type 0 where
  pub observed : Observed
  pub streams : List Text

-- What a worker has set up so far.
pub record Worker : Type 0 where
  pub service : Streamer
  pub subscriptions : List Subscription

module _ (exchange : Exchange) where
  abbrev pub data_point_stream : Text → Text → Text
  data_point_stream action symbol =
      stream_prefix ++ get_observable_key action exchange.tenant exchange.id (some symbol ∷ [])

  abbrev pub balance_stream : Text
  balance_stream = replace_first (codes "fetch") (codes "watch") (
      stream_prefix
      ++ get_observable_key (codes "watchBalance") exchange.tenant exchange.full_name [])

-- A subscriber on what a method of the service returned.
abbrev pub subscribed : Observed → List Text → Streamer → Worker → Worker
subscribed observed streams s w = record {
  service = s;
  subscriptions = w.subscriptions ++ record { observed = observed; streams = streams } ∷ [];
}

abbrev pub subscribe_some : Option ℕ → Streamer → Streamer
subscribe_some none s = s
subscribe_some (some subject) s = subscribe subject s

-- `.subscribe` of null throws; the result says whether the code goes on.
abbrev pub on_subject : List Text → Worker → Option ℕ × Streamer → Worker × Bool
on_subject streams w (none, s) = (record w { service = s }, false)
on_subject streams w (some subject, s) =
    (subscribed (single subject) streams (subscribe subject s) w, true)

-- `?.subscribe`
abbrev pub on_any : List Text → Worker → Option ℕ × Streamer → Worker
on_any streams w (none, s) = record w { service = s }
on_any streams w (some subject, s) = subscribed (single subject) streams (subscribe subject s) w

-- A merge with null fails when it is subscribed to: its sources are left again, and nothing is written.
-- The error itself, which no subscriber handles, is thrown later, and is left out.
abbrev pub on_merge : List Text → Streamer → Worker → Bool → Option ℕ → Option ℕ → Worker
on_merge streams s w true a b = subscribed (merged a b) streams s w
on_merge streams s w false a b = record w { service = s }

abbrev pub on_observed : List Text → Worker → Observed × Streamer → Worker × Bool
on_observed streams w (single subject, s) =
    (subscribed (single subject) streams (subscribe subject s) w, true)
on_observed streams w (merged a b, s) =
    (on_merge streams (subscribe_some b (subscribe_some a s)) w (is_some a && is_some b) a b, true)

-- What follows a subscription that may have thrown.
abbrev pub and_then : Worker × Bool → (Worker → Worker × Bool) → Worker × Bool
and_then (w, false) next = (w, false)
and_then (w, true) next = next w

module _ (exchange : Exchange) (delay : Option ℕ) (symbol : Text) where
  -- The cases of the switch.
  unfoldable pub subscribe_action : Action → DataPoint → Worker → Worker × Bool
  unfolding watch_order_book watch_trades watch_my_trades watch_orders fetch_orders watch_ohlcv
      fetch_balance watch_balance
  subscribe_action order_book p w =
      on_subject
        (order_book_key exchange.tenant exchange.id symbol
          ∷ order_book_snapshot_key exchange.tenant exchange.id symbol
          ∷ [])
        w (watch_order_book exchange (some symbol) (some true) delay p.limit undefined w.service)
  subscribe_action trades p w =
      on_subject (data_point_stream exchange (codes "watchTrades") symbol ∷ []) w
        (watch_trades exchange (some symbol) (some true) delay p.since p.limit undefined w.service)
  subscribe_action my_trades p w =
      on_subject (data_point_stream exchange (codes "watchMyTrades") symbol ∷ []) w (
        watch_my_trades exchange (some symbol) (some true) delay p.since p.limit undefined
          w.service)
  subscribe_action orders p w =
      let stream = data_point_stream exchange (codes "watchOrders") symbol in
      let watched = on_any (stream ∷ []) w (
        watch_orders exchange (some symbol) (some false) delay p.since p.limit undefined
          w.service) in
      on_observed (stream ∷ []) watched
        (fetch_orders exchange (some symbol) delay p.since p.limit undefined watched.service)
  subscribe_action ohlcv p w =
      on_subject (data_point_stream exchange (codes "watchOHLCV") symbol ∷ []) w (
        watch_ohlcv exchange (some symbol) (some true) delay p.timeframe p.since p.limit undefined
          w.service)
  subscribe_action balance p w =
      and_then
        (on_subject (balance_stream exchange ∷ []) w
          (fetch_balance exchange delay undefined w.service))
        (λ fetched. (
          on_any (balance_stream exchange ∷ []) fetched
              (watch_balance exchange (some false) delay undefined fetched.service),
          true,
        ))
  subscribe_action unknown p w = (w, true)

  unfoldable pub subscribe_data_point : DataPointEntry → Worker → Worker × Bool
  subscribe_data_point entry w =
      let p = data_point_of entry in subscribe_action (action_of p.action) p w

  -- The inner loop
  unfoldable pub subscribe_data_points : List DataPointEntry → Worker → Worker × Bool
  subscribe_data_points [] w = (w, true)
  subscribe_data_points (entry ∷ entries) w =
      and_then (subscribe_data_point entry w) (λ w'. subscribe_data_points entries w')

module _ (exchange : Exchange) (delay : Option ℕ) (entries : List DataPointEntry) where
  -- The outer loop
  unfoldable pub subscribe_pairs : List Text → Worker → Worker × Bool
  subscribe_pairs [] w = (w, true)
  subscribe_pairs (symbol ∷ symbols) w =
      and_then (subscribe_data_points exchange delay symbol entries w)
        (λ w'. subscribe_pairs symbols w')

unfoldable pub setup_worker : Exchange → WorkPlan → Streamer → Worker × Bool
setup_worker exchange plan s =
    subscribe_pairs exchange plan.delay_on_fetch plan.data_points plan.asset_pairs
      (record { service = s; subscriptions = [] })
