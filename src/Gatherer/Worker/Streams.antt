-- ===== src/Gatherer/Worker/Streams.antt =====
-- Which streams a worker of the gatherer (packages/gatherer/src/worker.ts) writes for its workplan.
use faculty_auxie_mm.Gatherer.Loop.{undefined}
use faculty_auxie_mm.Gatherer.Streamer.Methods.{
  watch_order_book, watch_trades, watch_my_trades, watch_ohlcv, fetch_balance, watch_balance,
  watch_orders, fetch_orders,
}
use faculty_auxie_mm.Gatherer.Worker.Laws.{
  offers, streams_of, HasPlainName, written, Adds, contains-append, on_subject-Adds,
  on_observed-Adds, fetch_orders_offered, contains-on_any, get_observable_offered,
}
use faculty_auxie_mm.Gatherer.Worker.{
  Action, DataPoint, DataPointEntry, Worker, subscribe_action, action_of, data_point_of,
  balance_stream, data_point_stream, and_then, order_book, trades, my_trades, ohlcv, orders,
  balance, unknown, replace_first, watch_order_book, on_any, undefined, subscribe_data_points,
  setup_worker, subscribe_data_point, subscribe_pairs, WorkPlan,
}
use faculty_auxie_mm.Gatherer.Streamer.{Exchange, chosen_action, Streamer}
use mathlib.Core.Path.{subst, ap₂}
use faculty_auxie_mm.Keys.{observable_key, get_observable_key, stream_prefix, truthy}
use faculty_auxie_mm.Keys.Laws.{order_book_key-eq, join_truthy_one}
use faculty_auxie_mm.Prelude.Count.{contains}
use faculty_auxie_mm.Prelude.Text.{Text, codes, replace_first, join_dots, text_Eq}
use faculty_auxie_mm.Prelude.{
  ◌≡◌, ◌∷◌, ◌++◌, ◌∙◌, ◌||◌, [], none, some, true, false, List, Option, Bool, ℕ, refl, ap, arith,
  All,
}

-- The streams of all data points for one pair, and for all pairs.
abbrev pub pair_streams : Exchange → Text → List DataPointEntry → List Text
pair_streams exchange symbol [] = []
pair_streams exchange symbol (entry ∷ entries) =
    streams_of exchange symbol (action_of (data_point_of entry).action)
    ++ pair_streams exchange symbol entries

abbrev pub plan_streams : Exchange → List DataPointEntry → List Text → List Text
plan_streams exchange entries [] = []
plan_streams exchange entries (symbol ∷ symbols) =
    pair_streams exchange symbol entries ++ plan_streams exchange entries symbols

data_point_stream-eq :
    (exchange : Exchange) (action symbol : Text)
    → data_point_stream exchange action symbol
      ≡ stream_prefix ++ observable_key exchange.tenant exchange.id action (some symbol)
unfolding get_observable_key observable_key
data_point_stream-eq exchange action symbol = rw (join_truthy_one symbol) refl

truthy_no_params :
    (t e a : Text)
    → truthy (some t ∷ some e ∷ some a ∷ some [] ∷ [])
      ≡ truthy (some t ∷ some e ∷ some a ∷ none ∷ [])
truthy_no_params [] [] [] = refl
truthy_no_params [] [] (c ∷ a) = refl
truthy_no_params [] (d ∷ e) [] = refl
truthy_no_params [] (d ∷ e) (c ∷ a) = refl
truthy_no_params (b ∷ t) [] [] = refl
truthy_no_params (b ∷ t) [] (c ∷ a) = refl
truthy_no_params (b ∷ t) (d ∷ e) [] = refl
truthy_no_params (b ∷ t) (d ∷ e) (c ∷ a) = refl

balance_stream-eq :
    (exchange : Exchange)
    → HasPlainName exchange
    → balance_stream exchange
      ≡ stream_prefix
        ++ observable_key exchange.tenant exchange.full_name (codes "watchBalance") none
unfolding get_observable_key observable_key
balance_stream-eq exchange h =
    ap (λ parts. replace_first (codes "fetch") (codes "watch") (stream_prefix ++ join_dots parts))
      (truthy_no_params exchange.tenant exchange.full_name (codes "watchBalance"))
    ∙ h

fetch_only :
    (exchange : Exchange)
    → chosen_action (codes "fetchBalance") exchange false ≡ codes "fetchBalance"
unfolding chosen_action
fetch_only exchange = ground arith

Adds-eq :
    {streams streams' : List Text} (w : Worker) (r : Worker × Bool)
    → streams ≡ streams'
    → Adds streams w r
    → Adds streams' w r
Adds-eq w r e h = subst (λ streams. Adds streams w r) e h

Adds-and_then :
    (xs ys : List Text) (w : Worker) (r : Worker × Bool) (next : Worker → Worker × Bool)
    → Adds xs w r
    → ((w' : Worker) → Adds ys w' (next w'))
    → Adds (xs ++ ys) w (and_then r next)
Adds-and_then xs ys w (w', false) next h k = absurd (ground (arith, h.0))
Adds-and_then xs ys w (w', true) next h k =
    ((k w').0, λ key. ground (arith, h.1 key, (k w').1 key, contains-append xs ys key))

-- A step to the same streams
Adds-again :
    (xs : List Text) (w : Worker) (r : Worker × Bool) (next : Worker → Worker)
    → Adds xs w r
    → ((w' : Worker) (k : Text)
        → (contains (written w'.subscriptions) k ≡ true
            → contains (written (next w').subscriptions) k ≡ true)
          × (contains (written (next w').subscriptions) k || contains xs k
              ≡ contains (written w'.subscriptions) k || contains xs k))
    → Adds xs w (and_then r (λ w'. (next w', true)))
Adds-again xs w (w', false) next h k = absurd (ground (arith, h.0))
Adds-again xs w (w', true) next h k = (refl, λ key. ground (arith, h.1 key, k w' key))

module _ (exchange : Exchange) (delay : Option ℕ) (plain : HasPlainName exchange) where
  subscribe_action-Adds :
      (symbol : Text) (action : Action) (p : DataPoint) (w : Worker)
      → offers exchange action ≡ true
      → Adds
          (streams_of exchange symbol action)
          w
          (subscribe_action exchange delay symbol action p w)
  unfolding subscribe_action watch_order_book watch_trades watch_my_trades watch_ohlcv fetch_balance
      watch_balance
  subscribe_action-Adds symbol order_book p w h =
      let (deltas, snapshots, _) = order_book_key-eq exchange.tenant exchange.id symbol in
      Adds-eq w (subscribe_action exchange delay symbol order_book p w)
        (ap₂ (λ x y. x ∷ y ∷ []) deltas snapshots)
        (on_subject-Adds _ w _ (
          get_observable_offered (codes "watchOrderBook") exchange (some true) delay (some symbol) _
            w.service h))
  subscribe_action-Adds symbol trades p w h =
      Adds-eq w (subscribe_action exchange delay symbol trades p w)
        (ap (λ x. x ∷ []) (data_point_stream-eq exchange (codes "watchTrades") symbol))
        (on_subject-Adds _ w _ (
          get_observable_offered (codes "watchTrades") exchange (some true) delay (some symbol) _
            w.service h))
  subscribe_action-Adds symbol my_trades p w h =
      Adds-eq w (subscribe_action exchange delay symbol my_trades p w)
        (ap (λ x. x ∷ []) (data_point_stream-eq exchange (codes "watchMyTrades") symbol))
        (on_subject-Adds _ w _ (
          get_observable_offered (codes "watchMyTrades") exchange (some true) delay (some symbol) _
            w.service h))
  subscribe_action-Adds symbol ohlcv p w h =
      Adds-eq w (subscribe_action exchange delay symbol ohlcv p w)
        (ap (λ x. x ∷ []) (data_point_stream-eq exchange (codes "watchOHLCV") symbol))
        (on_subject-Adds _ w _ (
          get_observable_offered (codes "watchOHLCV") exchange (some true) delay (some symbol) _
            w.service h))
  subscribe_action-Adds symbol orders p w h =
      let streams : List Text = data_point_stream exchange (codes "watchOrders") symbol ∷ [] in
      let watched : Worker = on_any streams w (
        watch_orders exchange (some symbol) (some false) delay p.since p.limit undefined
          w.service) in
      let added =
        on_observed-Adds streams watched
          (fetch_orders exchange (some symbol) delay p.since p.limit undefined watched.service)
          (fetch_orders_offered exchange (some symbol) delay p.since p.limit undefined
            watched.service h) in
      Adds-eq w (subscribe_action exchange delay symbol orders p w)
        (ap (λ x. x ∷ []) (data_point_stream-eq exchange (codes "watchOrders") symbol))
        (added.0, λ k. added.1 k ∙ (contains-on_any streams w _ k).1)
  subscribe_action-Adds symbol balance p w h =
      Adds-eq w (subscribe_action exchange delay symbol balance p w)
        (ap (λ x. x ∷ []) (balance_stream-eq exchange plain))
        (Adds-again (balance_stream exchange ∷ []) w _ _
          (on_subject-Adds _ w _ (
            get_observable_offered (codes "fetchBalance") exchange (some false) delay none _
              w.service (rw (fetch_only exchange) h)))
          (λ w' k. contains-on_any (balance_stream exchange ∷ []) w' _ k))
  subscribe_action-Adds symbol unknown p w h = (refl, λ k. ground arith)

  subscribe_data_points-Adds :
      (symbol : Text) (entries : List DataPointEntry) (w : Worker)
      → All (λ e. offers exchange (action_of (data_point_of e).action) ≡ true) entries
      → Adds
          (pair_streams exchange symbol entries)
          w
          (subscribe_data_points exchange delay symbol entries w)
  unfolding subscribe_data_points subscribe_data_point
  subscribe_data_points-Adds symbol [] w h = (refl, λ k. ground arith)
  subscribe_data_points-Adds symbol (entry ∷ entries) w h =
      let p : DataPoint = data_point_of entry in
      Adds-and_then (streams_of exchange symbol (action_of p.action))
        (pair_streams exchange symbol entries) w
        (subscribe_action exchange delay symbol (action_of p.action) p w)
        (λ w'. subscribe_data_points exchange delay symbol entries w')
        (subscribe_action-Adds symbol (action_of p.action) p w h.0)
        (λ w'. subscribe_data_points-Adds symbol entries w' h.1)

  module _ (entries : List DataPointEntry)
      (offered : All
        (λ e. offers exchange (action_of (data_point_of e).action) ≡ true)
        entries) where
    subscribe_pairs-Adds :
        (symbols : List Text) (w : Worker)
        → Adds
            (plan_streams exchange entries symbols)
            w
            (subscribe_pairs exchange delay entries symbols w)
    unfolding subscribe_pairs
    subscribe_pairs-Adds [] w = (refl, λ k. ground arith)
    subscribe_pairs-Adds (symbol ∷ symbols) w =
        Adds-and_then (pair_streams exchange symbol entries) (plan_streams exchange entries symbols)
          w (subscribe_data_points exchange delay symbol entries w)
          (λ w'. subscribe_pairs exchange delay entries symbols w')
          (subscribe_data_points-Adds symbol entries w offered)
          (λ w'. subscribe_pairs-Adds symbols w')

-- Where the exchange offers every data point of a workplan, the worker sets up all of them, and the
-- streams that its subscribers write are those of its pairs and data points, under the names that
-- the magicbox reads, if the name of its balance's stream holds no `fetch` that would be replaced.
pub setup_worker-plan_streams :
    (exchange : Exchange) (plan : WorkPlan) (s : Streamer)
    → HasPlainName exchange
    → All (λ e. offers exchange (action_of (data_point_of e).action) ≡ true) plan.data_points
    → let r = setup_worker exchange plan s in
      (r.1 ≡ true)
      × ((k : Text)
          → contains (written r.0.subscriptions) k
            ≡ contains (plan_streams exchange plan.data_points plan.asset_pairs) k)
unfolding setup_worker
setup_worker-plan_streams exchange plan s plain offered =
    subscribe_pairs-Adds exchange plan.delay_on_fetch plain plan.data_points offered
      plan.asset_pairs (record { service = s; subscriptions = [] })
