-- ===== src/Executor/Tests.antt =====
-- Redis and a retry in memory, an exchange that answers without a status, and examples.
use faculty_auxie_mm.Executor.Cancel.{cancel_order_recorded}
use faculty_auxie_mm.Executor.Laws.{create_order_recorded}
use faculty_auxie_mm.ApiServer.Config.{never}
use faculty_auxie_mm.Executor.Placed.{create_order_placed, create_order_once}
use mathlib.Core.Option.{some-injective}
use faculty_auxie_mm.Orders.{Order, Status, buy, opened}
use faculty_auxie_mm.Executor.{
  Redis, Retry, SubmitOrder, Order, or_default, run_until, codes, Market, text_eq, is_some, World,
  create_order, attempt, cancel_order,
}
use faculty_auxie_mm.Prelude.Text.{Text, codes, text_Eq, text_eq, text_eq_iff}
use faculty_auxie_mm.Prelude.Dict.{Dict, insert, lookup, lookup-insert}
use faculty_auxie_mm.Prelude.{
  ◌≡◌, ◌∷◌, ◌++◌, if◌then◌else◌, ◌+◌, ◌&&◌, none, some, false, refl, [], List, Option, Bool, ℕ,
  arith, or_default, is_some, ap, ◌≤◌, true, sym,
}

pub record RedisMemory : Type 0 where
  pub streams : Dict Text (List Order)
  pub orders : Dict Text Order
  pub sources : Dict Text Text

abbrev pub memory_source : Text → Option Text → Dict Text Text → Dict Text Text
memory_source k none d = d
memory_source k (some source) d = insert k source d

pub lookup-memory_source :
    (k j : Text) (source : Option Text) (d : Dict Text Text)
    → lookup j (memory_source k source d)
      ≡ (if text_eq k j && is_some source then source else lookup j d)
lookup-memory_source k j none d = ground arith
lookup-memory_source k j (some source) d = ground (arith, lookup-insert k j source d)

pub memory-x_add :
    (k j : Text) (o : Order) (d : Dict Text (List Order))
    → or_default (lookup j (insert k (or_default (lookup k d) [] ++ o ∷ []) d)) []
      ≡ (if text_eq k j then or_default (lookup j d) [] ++ o ∷ [] else or_default (lookup j d) [])
memory-x_add k j o d =
    ground (arith, lookup-insert k j (or_default (lookup k d) [] ++ o ∷ []) d, text_eq_iff k j)

abbrev pub redis_memory : Redis
redis_memory = record {
  State = RedisMemory;
  stream = λ s j. or_default (lookup j s.streams) [];
  order = λ s j. lookup j s.orders;
  order_source = λ s j. lookup j s.sources;
  x_add = λ k o s. (
    record s { streams = insert k (or_default (lookup k s.streams) [] ++ o ∷ []) s.streams },
    true,
  );
  h_set = λ k o source s.
      (record s { orders = insert k o s.orders; sources = memory_source k source s.sources }, true);
  stream-x_add = λ k j o s. memory-x_add k j o s.streams;
  order-x_add = λ k j o s. refl;
  order_source-x_add = λ k j o s. refl;
  stream-h_set = λ k j o source s. refl;
  order-h_set = λ k j o source s. lookup-insert k j o s.orders;
  order_source-h_set = λ k j o source s. lookup-memory_source k j source s.sources;
}

abbrev pub plain_retry : Retry
plain_retry = record {
  tries = λ n. n;
  delayed_promise_retry = run_until;
  retry-eq-run_until = λ fn n s. refl;
}

abbrev pub order_of : SubmitOrder → Text → Option Status → Order
order_of o id status = record {
  id = id;
  client_order_id = id;
  symbol = o.symbol;
  side = o.side;
  timestamp = 1;
  status = status;
  price = o.price;
  amount = some o.amount_base;
  filled = some 0;
  remaining = some o.amount_base;
}

abbrev pub request : SubmitOrder
request = record {
  symbol = codes "ETH/BTC";
  side = buy;
  is_market = false;
  amount_base = 3;
  price = 100;
  created_by_module = codes "Grid";
}

pub fetched_id_of :
    (fetches : Bool) (id : Text) (o : Order)
    → (if fetches then some (order_of request id (some opened)) else none) ≡ some o
    → o.id ≡ id
fetched_id_of true id o h =
    ap (λ x. x.id) (sym (some-injective (order_of request id (some opened)) o h))
fetched_id_of false id o h = cc

-- An exchange that counts its orders, answers without a status, and fetches or does not.
abbrev pub market_of : Bool → Market
market_of fetches = record {
  State = ℕ;
  retries_before_stopping = some 3;
  create_order = λ o m. (m + 1, some (order_of o (codes "7") none));
  fetch_order =
      λ id symbol m. (m, if fetches then some (order_of request id (some opened)) else none);
  cancel_order = λ id symbol m. (m, none);
  placed = λ m. m;
  placed_at_most = λ o m. omega arith;
  placed_answered = λ o m h. refl;
  placed_fetch = λ id symbol m. refl;
  fetched_id = λ id symbol m o h. fetched_id_of fetches id o h;
}

abbrev pub tenant : Text
tenant = codes "acme"

abbrev pub start :
    (fetches : Bool) → World (market_of fetches) redis_memory plain_retry tenant (codes "ftx")
start fetches = record {
  at_market = 0;
  at_redis = record { streams = []; orders = []; sources = [] };
}

-- three attempts that cannot fetch their order place three orders
create_order_placed_example :
    (create_order
      (market_of false)
      redis_memory
      plain_retry
      tenant
      (codes "ftx")
      request
      (start false)).0.at_market
    ≤ 0 + 3
create_order_placed_example =
    create_order_placed (market_of false) redis_memory plain_retry tenant (codes "ftx") request
      (start false)

create_order_once_example :
    (create_order
      (market_of true)
      redis_memory
      plain_retry
      tenant
      (codes "ftx")
      request
      (start true)).0.at_market
    ≡ 1
unfolding create_order run_until
create_order_once_example =
    create_order_once (market_of true) redis_memory plain_retry tenant (codes "ftx") request
      (start true) (λ id symbol m. refl) (λ o m h. never h) (λ k o s. refl, λ k o source s. refl)

-- three orders stand at the exchange, and none is known here
duplicates :
    let out =
      create_order
        (market_of false)
        redis_memory
        plain_retry
        tenant
        (codes "ftx")
        request
        (start false) in
    (out.0.at_market ≡ 3) × (out.1 ≡ none)
unfolding create_order attempt run_until
duplicates = (refl, refl)

-- A redis that has no room.
abbrev full_redis : Redis
full_redis = record {
  State = Unit;
  stream = λ s j. [];
  order = λ s j. none;
  order_source = λ s j. none;
  x_add = λ k o s. (s, false);
  h_set = λ k o source s. (s, false);
  stream-x_add = λ k j o s. refl;
  order-x_add = λ k j o s. refl;
  order_source-x_add = λ k j o s. refl;
  stream-h_set = λ k j o source s. refl;
  order-h_set = λ k j o source s. refl;
  order_source-h_set = λ k j o source s. refl;
}

-- The order stands at the exchange, and the caller is told of none.
unrecorded :
    let out =
      create_order
        (market_of true)
        full_redis
        plain_retry
        tenant
        (codes "ftx")
        request
        (record { at_market = 0; at_redis = tt }) in
    (out.0.at_market ≡ 1) × (out.1 ≡ none)
unfolding create_order attempt run_until
unrecorded = (refl, refl)

create_order_recorded_example :
    let d = order_of request (codes "7") (some opened) in
    let s =
      (create_order
        (market_of true)
        redis_memory
        plain_retry
        tenant
        (codes "ftx")
        request
        (start true)).0.at_redis in
    (redis_memory.stream s (codes "stream.acme.ftx.watchOrders.ETH/BTC") ≡ d ∷ [])
    × (redis_memory.order s (codes "order.acme.7") ≡ some d)
    × (redis_memory.order_source s (codes "order.acme.7") ≡ some (codes "Grid"))
unfolding create_order attempt run_until
create_order_recorded_example =
    create_order_recorded (market_of true) redis_memory plain_retry tenant (codes "ftx") request
      (start true) (order_of request (codes "7") (some opened)) refl

-- An exchange that cancels what it is asked to.
abbrev canceling_market : Market
canceling_market = record (market_of true) {
  cancel_order = λ id symbol m. (m, some (order_of request id none));
}

cancel_order_recorded_example :
    let d = order_of request (codes "7") (some opened) in
    let key = codes "order.acme.7" in
    let w : World canceling_market redis_memory plain_retry tenant (codes "ftx") = record {
      at_market = 1;
      at_redis = record { streams = []; orders = []; sources = [] };
    } in
    let s =
      (cancel_order canceling_market redis_memory plain_retry tenant
        (codes "ftx")
        (record { order_id = codes "7"; symbol = codes "ETH/BTC" })
        w).0.at_redis in
    (redis_memory.order s key ≡ some d)
    × (redis_memory.order_source s key ≡ none)
    × (redis_memory.stream s key ≡ [])
unfolding cancel_order
cancel_order_recorded_example =
    cancel_order_recorded canceling_market redis_memory plain_retry tenant (codes "ftx")
      (record { order_id = codes "7"; symbol = codes "ETH/BTC" })
      (record { at_market = 1; at_redis = record { streams = []; orders = []; sources = [] } })
      (codes "order.acme.7")
