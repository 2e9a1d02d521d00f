-- ===== src/Executor/Placed.antt =====
-- How many orders one call of createOrder places at the exchange.
use faculty_auxie_mm.Prelude.Text.{Text}
use faculty_auxie_mm.Orders.Store.{order_key}
use faculty_auxie_mm.Orders.{Order}
use faculty_auxie_mm.Executor.{
  run_until, Market, is_some, Order, Text, SubmitOrder, Redis, with_detail, detailed, Retry,
  recorded, record_in_hash, record_created, orders_stream, create_order, attempt, World, or_default,
  number_of_retries,
}
use faculty_auxie_mm.Prelude.{
  ◌≡◌, if◌then◌else◌, ◌+◌, ◌≤◌, ◌∙◌, none, some, true, false, refl, zero, suc, inl, inr, Option,
  Bool, ℕ, arith, Option-cases, is_some, ap, Bool-cases, or_default,
}

run_until_at_most :
    {S A : Type 0} (fn : S → S × Option A) (measure : S → ℕ)
    → ((s : S) → measure (fn s).0 ≤ measure s + 1)
    → (n : ℕ) (s : S) → measure (run_until fn n s).0 ≤ measure s + n
unfolding run_until
run_until_at_most fn measure each zero s = omega arith
run_until_at_most fn measure each (suc n) s = elim (Option-cases (fn s).1) [
  | inl failed ↦
      rw (failed, run_until) (omega (arith, each s, run_until_at_most fn measure each n (fn s).0))
  | inr (b, answered) ↦ rw (answered, run_until) (omega (arith, each s))
]

abbrev pub one_if : Bool → ℕ
one_if b = if b then 1 else 0

run_until_once :
    {S A : Type 0} (fn : S → S × Option A) (measure : S → ℕ)
    → ((s : S) → measure (fn s).0 ≡ measure s + one_if (is_some (fn s).1))
    → (n : ℕ) (s : S)
    → measure (run_until fn n s).0 ≡ measure s + one_if (is_some (run_until fn n s).1)
unfolding run_until
run_until_once fn measure each zero s = omega arith
run_until_once fn measure each (suc n) s = elim (Option-cases (fn s).1) [
  | inl failed ↦
      let later = run_until_once fn measure each n (fn s).0 in
      let one = rw failed at (each s) in
      rw (failed, run_until)
        (later ∙ ap (λ x. x + one_if (is_some (run_until fn n (fn s).0).1)) (omega (arith, one)))
  | inr (b, answered) ↦ let one = rw answered at (each s) in rw (answered, run_until) one
]

module _ (market : Market) where
  with_detail-placed :
      (order : Order) (r : market.State × Option Order) → (with_detail market order r).0 ≡ r.0
  with_detail-placed order (m, none) = refl
  with_detail-placed order (m, some detail) = refl

  with_detail_answered :
      (order : Order) (r : market.State × Option Order)
      → is_some (with_detail market order r).1 ≡ is_some r.1
  with_detail_answered order (m, none) = refl
  with_detail_answered order (m, some detail) = refl

  detailed-placed :
      (r : market.State × Option Order) → market.placed (detailed market r).0 ≡ market.placed r.0
  detailed-placed (m, none) = refl
  detailed-placed (m, some order) = elim (Bool-cases (is_some order.status)) [
    | inl is ↦ rw is refl
    | inr other ↦ rw other (
        ap market.placed (with_detail-placed order (market.fetch_order order.id order.symbol m))
        ∙ market.placed_fetch order.id order.symbol m)
  ]

  detailed_answered :
      (r : market.State × Option Order)
      → ((id symbol : Text) (m : market.State) → is_some (market.fetch_order id symbol m).1 ≡ true)
      → is_some (detailed market r).1 ≡ is_some r.1
  detailed_answered (m, none) fetches = refl
  detailed_answered (m, some order) fetches = elim (Bool-cases (is_some order.status)) [
    | inl is ↦ rw is refl
    | inr other ↦ rw other (
        with_detail_answered order (market.fetch_order order.id order.symbol m)
        ∙ fetches order.id order.symbol m)
  ]

  -- An attempt places an order exactly where it answers.
  attempt_placed :
      (submit_order : SubmitOrder) (m : market.State)
      → ((id symbol : Text) (m : market.State) → is_some (market.fetch_order id symbol m).1 ≡ true)
      → ((o : SubmitOrder) (m : market.State)
          → is_some (market.create_order o m).1 ≡ false
          → market.placed (market.create_order o m).0 ≡ market.placed m)
      → market.placed (attempt market submit_order m).0
        ≡ market.placed m + one_if (is_some (attempt market submit_order m).1)
  unfolding attempt
  attempt_placed submit_order m fetches refuses =
      let r = market.create_order submit_order m in
      rw (detailed-placed r, detailed_answered r fetches)
        (elim (Bool-cases (is_some r.1)) [
          | inl is ↦ rw is (market.placed_answered submit_order m is)
          | inr other ↦ rw other (omega (arith, refuses submit_order m other))
        ])

module _ (market : Market) (redis : Redis) (retry : Retry) (tenant exchange_id : Text) where
  pub recorded-market :
      (detail : Order) (m : market.State) (r : redis.State × Bool)
      → let out = recorded market redis retry tenant exchange_id detail m r in
        (out.0.at_market ≡ m) × (is_some out.1 ≡ r.1)
  recorded-market detail m (s, true) = (refl, refl)
  recorded-market detail m (s, false) = (refl, refl)

  record_in_hash-market :
      (submit_order : SubmitOrder) (order detail : Order) (m : market.State)
      (r : redis.State × Bool)
      → let out =
          record_in_hash market redis retry tenant exchange_id submit_order order detail m r in
        (out.0.at_market ≡ m)
        × (r.1 ≡ true
            → ((k : Text) (o : Order) (source : Option Text) (s : redis.State)
                → (redis.h_set k o source s).1 ≡ true)
            → is_some out.1 ≡ true)
  record_in_hash-market submit_order order detail m (s, false) = (refl, λ added set. cc)
  record_in_hash-market submit_order order detail m (s, true) =
      let source = some submit_order.created_by_module in
      let last =
        recorded-market detail m (redis.h_set (order_key tenant order.id) detail source s) in
      (last.0, λ added set. last.1 ∙ set (order_key tenant order.id) detail source s)

  -- Does redis take every write?
  abbrev pub TakesWrites : Type 0
  TakesWrites =
      ((k : Text) (o : Order) (s : redis.State) → (redis.x_add k o s).1 ≡ true)
      × ((k : Text) (o : Order) (source : Option Text) (s : redis.State)
          → (redis.h_set k o source s).1 ≡ true)

  pub record_created-market :
      (submit_order : SubmitOrder) (s : redis.State) (r : market.State × Option (Order × Order))
      → let out = record_created market redis retry tenant exchange_id submit_order s r in
        (out.0.at_market ≡ r.0) × (TakesWrites → is_some out.1 ≡ is_some r.1)
  record_created-market submit_order s (m, none) = (refl, λ takes. refl)
  record_created-market submit_order s (m, some (order, detail)) =
      let key = orders_stream tenant exchange_id submit_order.symbol in
      let last = record_in_hash-market submit_order order detail m (redis.x_add key detail s) in
      (last.0, λ takes. last.1 (takes.0 key detail s) takes.1)

  -- However often the order's details cannot be fetched, one call places no more orders than
  -- delayed-promise-retry tries.
  pub create_order_placed :
      (submit_order : SubmitOrder) (w : World market redis retry tenant exchange_id)
      → let out = create_order market redis retry tenant exchange_id submit_order w in
        let retries = or_default market.retries_before_stopping number_of_retries in
        market.placed out.0.at_market ≤ market.placed w.at_market + retry.tries retries
  unfolding create_order attempt
  create_order_placed submit_order w =
      let fn = attempt market submit_order in
      let n = or_default market.retries_before_stopping number_of_retries in
      let tried = retry.retry-eq-run_until fn n w.at_market in
      let same =
        record_created-market submit_order w.at_redis
          (retry.delayed_promise_retry fn n w.at_market) in
      rw (same.0, tried)
        (run_until_at_most fn market.placed
          (λ m.
            rw (detailed-placed market (market.create_order submit_order m))
              (market.placed_at_most submit_order m))
          (retry.tries n) w.at_market)

  -- One call places exactly one order where it returns one and none otherwise: at an exchange whose
  -- orders can always be fetched, and that takes no order by a call that it does not answer, and with a
  -- redis that takes every write, since an order that is placed is not returned where a write throws.
  pub create_order_once :
      (submit_order : SubmitOrder) (w : World market redis retry tenant exchange_id)
      → ((id symbol : Text) (m : market.State) → is_some (market.fetch_order id symbol m).1 ≡ true)
      → ((o : SubmitOrder) (m : market.State)
          → is_some (market.create_order o m).1 ≡ false
          → market.placed (market.create_order o m).0 ≡ market.placed m)
      → TakesWrites
      → let out = create_order market redis retry tenant exchange_id submit_order w in
        market.placed out.0.at_market ≡ market.placed w.at_market + one_if (is_some out.1)
  unfolding create_order
  create_order_once submit_order w fetches refuses takes =
      let fn = attempt market submit_order in
      let n = or_default market.retries_before_stopping number_of_retries in
      let tried = retry.retry-eq-run_until fn n w.at_market in
      let same =
        record_created-market submit_order w.at_redis
          (retry.delayed_promise_retry fn n w.at_market) in
      rw (same.0, same.1 takes, tried)
        (run_until_once fn market.placed (λ m. attempt_placed market submit_order m fetches refuses)
          (retry.tries n) w.at_market)
