-- ===== src/Executor/Laws.antt =====
-- What createOrder and cancelOrder leave in redis.
use mathlib.Core.Option.{some-injective}
use faculty_auxie_mm.Orders.Store.{order_key}
use faculty_auxie_mm.Prelude.Text.{Text, text_eq_iff}
use faculty_auxie_mm.Orders.{Order}
use faculty_auxie_mm.Executor.{
  run_until, Market, Order, attempt, Redis, with_detail, detailed, SubmitOrder, Retry, Text,
  is_some, record_created, create_order, orders_stream, World, order_key, or_default,
  number_of_retries,
}
use faculty_auxie_mm.Prelude.{
  ◌≡◌, ◌∷◌, ◌++◌, ◌∙◌, none, some, true, refl, zero, suc, [], inl, inr, Option, ℕ, Option-cases,
  sym, Bool-cases, is_some, or_default, arith, ap,
}

module _ (redis : Redis) (k : Text) (o : Order) (s : redis.State) where
  stream-x_add_self :
      (redis.x_add k o s).1 ≡ true
      → redis.stream (redis.x_add k o s).0 k ≡ redis.stream s k ++ o ∷ []
  stream-x_add_self taken = ground (arith, taken, redis.stream-x_add k k o s, text_eq_iff k k)

  order-h_set_self :
      (source : Option Text)
      → (redis.h_set k o source s).1 ≡ true
      → redis.order (redis.h_set k o source s).0 k ≡ some o
  order-h_set_self source taken =
      ground (arith, taken, redis.order-h_set k k o source s, text_eq_iff k k)

  order_source-h_set_self :
      (source : Text)
      → (redis.h_set k o (some source) s).1 ≡ true
      → redis.order_source (redis.h_set k o (some source) s).0 k ≡ some source
  order_source-h_set_self source taken =
      ground (arith, taken, redis.order_source-h_set k k o (some source) s, text_eq_iff k k)

-- What holds of every result of a function holds of the result of its retries.
run_until-result :
    {S A : Type 0} (fn : S → S × Option A) (P : A → Type 0)
    → ((s : S) (a : A) → (fn s).1 ≡ some a → P a)
    → (n : ℕ) (s : S) (a : A) → (run_until fn n s).1 ≡ some a
    → P a
unfolding run_until
run_until-result fn P each zero s a h = cc
run_until-result fn P each (suc n) s a h = elim (Option-cases (fn s).1) [
  | inl failed ↦ run_until-result fn P each n (fn s).0 a (rw (failed, run_until) at h)
  | inr (b, answered) ↦ each s a (answered ∙ (rw (answered, run_until) at h))
]

module _ (market : Market) where
  with_detail-id :
      (order : Order) (r : market.State × Option Order) (a : Order × Order)
      → ((o : Order) → r.1 ≡ some o → o.id ≡ order.id)
      → (with_detail market order r).1 ≡ some a
      → a.1.id ≡ a.0.id
  with_detail-id order (m, none) a same h = cc
  with_detail-id order (m, some detail) a same h =
      rw (sym (some-injective (order, detail) a h)) (same detail refl)

  -- The details that an attempt answers with are those of its order.
  detailed-id :
      (r : market.State × Option Order) (a : Order × Order)
      → (detailed market r).1 ≡ some a
      → a.1.id ≡ a.0.id
  detailed-id (m, none) a h = cc
  detailed-id (m, some order) a h = elim (Bool-cases (is_some order.status)) [
    | inl is ↦ rw (sym (some-injective (order, order) a (rw is at h))) refl
    | inr other ↦
        with_detail-id order (market.fetch_order order.id order.symbol m) a
          (λ o e. market.fetched_id order.id order.symbol m o e) (rw other at h)
  ]

  pub attempts-id :
      (submit_order : SubmitOrder) (n : ℕ) (m : market.State) (a : Order × Order)
      → (run_until (attempt market submit_order) n m).1 ≡ some a
      → a.1.id ≡ a.0.id
  unfolding attempt
  attempts-id submit_order =
      run_until-result (attempt market submit_order) (λ a. a.1.id ≡ a.0.id)
        (λ m a h. detailed-id (market.create_order submit_order m) a h)

module _ (market : Market) (redis : Redis) (retry : Retry) (tenant exchange_id : Text) where
  record_created_recorded :
      (submit_order : SubmitOrder) (s : redis.State) (r : market.State × Option (Order × Order))
      (d : Order)
      → ((a : Order × Order) → r.1 ≡ some a → a.1.id ≡ a.0.id)
      → let out = record_created market redis retry tenant exchange_id submit_order s r in
        let key = orders_stream tenant exchange_id submit_order.symbol in
        out.1 ≡ some d
        → (redis.stream out.0.at_redis key ≡ redis.stream s key ++ d ∷ [])
          × (redis.order out.0.at_redis (order_key tenant d.id) ≡ some d)
          × (redis.order_source out.0.at_redis (order_key tenant d.id)
              ≡ some submit_order.created_by_module)
  record_created_recorded submit_order s (m, none) d same h = cc
  record_created_recorded submit_order s (m, some (order, detail)) d same h =
      elim (Bool-cases
        (redis.x_add (orders_stream tenant exchange_id submit_order.symbol) detail s).1) [
          | inr refused ↦ absurd (cc (rw refused at h))
          | inl added ↦
              elim (Bool-cases
                (redis.h_set (order_key tenant order.id) detail
                  (some submit_order.created_by_module)
                  (redis.x_add (orders_stream tenant exchange_id submit_order.symbol) detail
                    s).0).1) [
                      | inr refused ↦ absurd (cc (rw (added, refused) at h))
                      | inl set ↦
                          let key = orders_stream tenant exchange_id submit_order.symbol in
                          let k = order_key tenant order.id in
                          let module' = submit_order.created_by_module in
                          let s' = (redis.x_add key detail s).0 in
                          let s'' = (redis.h_set k detail (some module') s').0 in
                          let is = some-injective detail d (rw (added, set) at h) in
                          let same_id : d.id ≡ order.id = rw (sym is) (same (order, detail) refl) in
                          rw (added, set)
                            (
                              redis.stream-h_set k key detail (some module') s'
                                  ∙ stream-x_add_self redis key detail s added
                                  ∙ ap (λ o. redis.stream s key ++ o ∷ []) is,
                              ap (λ i. redis.order s'' (order_key tenant i)) same_id
                                  ∙ order-h_set_self redis k detail s' (some module') set
                                  ∙ ap some is,
                              rw same_id (order_source-h_set_self redis k detail s' module' set),
                            )
                    ]
        ]

  -- An order that createOrder returns is the last record of its stream and stands in the hash of its
  -- id, with the module that asked for it.
  pub create_order_recorded :
      (submit_order : SubmitOrder) (w : World market redis retry tenant exchange_id) (d : Order)
      → let out = create_order market redis retry tenant exchange_id submit_order w in
        let key = orders_stream tenant exchange_id submit_order.symbol in
        out.1 ≡ some d
        → (redis.stream out.0.at_redis key ≡ redis.stream w.at_redis key ++ d ∷ [])
          × (redis.order out.0.at_redis (order_key tenant d.id) ≡ some d)
          × (redis.order_source out.0.at_redis (order_key tenant d.id)
              ≡ some submit_order.created_by_module)
  unfolding create_order
  create_order_recorded submit_order w d h =
      let fn = attempt market submit_order in
      let n = or_default market.retries_before_stopping number_of_retries in
      let tried = retry.retry-eq-run_until fn n w.at_market in
      record_created_recorded submit_order w.at_redis (retry.delayed_promise_retry fn n w.at_market)
        d (λ a e. attempts-id market submit_order (retry.tries n) w.at_market a (rw tried at e)) h
