-- ===== src/MagicBox/SpreadTrader/Executed.antt =====
-- The executor (packages/executor/src) as the spread trader (packages/magicbox/src/plugins/
-- spreadtrader.ts) uses it, where it answers in time: its submitHandler meets what the trader relies
-- on. The ids of the orders that are open at an exchange are a parameter.
use faculty_auxie_mm.MagicBox.SpreadTrader.Attempts.{
  OpenOrders, last_opened, failed_attempts, run_until_id, run_until-opens,
}
use faculty_auxie_mm.MagicBox.SpreadTrader.{Answer, answered, LimitOrder, thrown, ExecutorService}
use faculty_auxie_mm.Executor
use mathlib.Core.List.{Memᴰ}
use faculty_auxie_mm.Executor.{
  tenant_not_found, unexpected_action, Command, Market, SubmitOrder, attempt, detailed, run_until,
  with_detail, Redis, Retry, World, create, create_order, ok, recorded, record_created,
  record_in_hash, submit_handler, number_of_retries, CancelOrder, cancel, cancel_order,
  fetch_canceled, record_canceled,
}
use faculty_auxie_mm.Executor.Placed.{record_created-market, recorded-market}
use mathlib.Core.Option.{some-injective}
use faculty_auxie_mm.Orders.{Order}
use faculty_auxie_mm.Prelude.Text.{Text}
use faculty_auxie_mm.Prelude.{
  ◌≡◌, ◌⊎◌, none, some, Option, Bool, ℕ, ◌∙◌, refl, sym, true, false, or_default, ap,
}

-- axios throws where the status is not 200.
unfoldable pub answer_of : Executor.Answer → Answer
answer_of (ok none) = answered none
answer_of (ok (some order)) = answered (some order.id)
answer_of tenant_not_found = thrown
answer_of unexpected_action = thrown

module _ (market : Market) (orders : OpenOrders market) (redis : Redis) (retry : Retry)
    (tenant exchange_id symbol : Text) (order_of : LimitOrder → SubmitOrder) where
  abbrev pub Executing : Type 0
  Executing = World market redis retry tenant exchange_id

  abbrev pub tries : ℕ
  tries = retry.tries (or_default market.retries_before_stopping number_of_retries)

  created-market :
      (o : SubmitOrder) (s : redis.State) (r : market.State × Option (Order × Order))
      → (record_created market redis retry tenant exchange_id o s r).0.at_market ≡ r.0
  created-market o s r = (record_created-market market redis retry tenant exchange_id o s r).0

  -- What is returned is what was to be recorded.
  recorded_answer :
      (detail d : Order) (m : market.State) (r : redis.State × Bool)
      → (recorded market redis retry tenant exchange_id detail m r).1 ≡ some d
      → detail ≡ d
  recorded_answer detail d m (s, true) h = some-injective detail d h
  recorded_answer detail d m (s, false) h = cc

  record_in_hash_answer :
      (o : SubmitOrder) (order detail d : Order) (m : market.State) (r : redis.State × Bool)
      → (record_in_hash market redis retry tenant exchange_id o order detail m r).1 ≡ some d
      → detail ≡ d
  record_in_hash_answer o order detail d m (s, true) h = recorded_answer detail d m _ h
  record_in_hash_answer o order detail d m (s, false) h = cc

  answer_of-some :
      (response : Option Order) (id : Text)
      → answer_of (ok response) ≡ answered (some id)
      → (d : Order) × (response ≡ some d) × (d.id ≡ id)
  unfolding answer_of
  answer_of-some none id h = cc
  answer_of-some (some d) id h = (d, refl, cc)

  created_id :
      (o : SubmitOrder) (s : redis.State) (r : market.State × Option (Order × Order)) (id : Text)
      → answer_of (ok (record_created market redis retry tenant exchange_id o s r).1)
        ≡ answered (some id)
      → (p : Order × Order) × (r.1 ≡ some p) × (p.1.id ≡ id)
  unfolding answer_of
  created_id o s (m, none) id h = cc
  created_id o s (m, some (order, detail)) id h =
      let answer =
        answer_of-some
          (record_created market redis retry tenant exchange_id o s (m, some (order, detail))).1 id
          h in
      let same = record_in_hash_answer o order detail answer.0 m _ (answer.1) in
      ((order, detail), refl, ap (λ x. x.id) same ∙ answer.2)

  abbrev pub call : Command → Executing → Executing × Answer
  call command w =
      let (w', response) = submit_handler market redis retry tenant exchange_id true command w in
      (w', answer_of response)

  pub call-submit-opens :
      (o : SubmitOrder) (w : Executing) (id : Text)
      → orders.IsOpen id (call (create o) w).0.at_market
      → (id ≡ last_opened market orders o tries w.at_market)
        ⊎ (Memᴰ id (failed_attempts market orders o tries w.at_market)
            ⊎ orders.IsOpen id w.at_market)
  unfolding submit_handler create_order
  call-submit-opens o w id h =
      let n = or_default market.retries_before_stopping number_of_retries in
      let m = w.at_market in
      let retried = retry.delayed_promise_retry (attempt market o) n m in
      let placed : orders.IsOpen id retried.0 = rw (created-market o w.at_redis retried) at h in
      run_until-opens market orders o tries m id
        (rw (retry.retry-eq-run_until (attempt market o) n m) at placed)

  pub call_submit_id :
      (o : SubmitOrder) (w : Executing) (id : Text)
      → (call (create o) w).1 ≡ answered (some id)
      → id ≡ last_opened market orders o tries w.at_market
  unfolding submit_handler create_order
  call_submit_id o w id h =
      let n = or_default market.retries_before_stopping number_of_retries in
      let m = w.at_market in
      let retried = retry.delayed_promise_retry (attempt market o) n m in
      let made = created_id o w.at_redis retried id h in
      sym made.2
      ∙ run_until_id market orders o tries m made.0
          (ap (λ r. r.1) (sym (retry.retry-eq-run_until (attempt market o) n m)) ∙ made.1)

  canceled-market :
      (i : Text) (s : redis.State) (r : market.State × Option Order)
      → (record_canceled market redis retry tenant exchange_id i s r).0.at_market ≡ r.0
  canceled-market i s (m, none) = refl
  canceled-market i s (m, some o) = (recorded-market market redis retry tenant exchange_id o m _).0

  canceled_answer :
      (i : Text) (s : redis.State) (r : market.State × Option Order) (id : Text)
      → answer_of (ok (record_canceled market redis retry tenant exchange_id i s r).1)
        ≡ answered (some id)
      → (d : Order) × (r.1 ≡ some d)
  unfolding answer_of
  canceled_answer i s (m, none) id h = cc
  canceled_answer i s (m, some d) id h = (d, refl)

  fetch_canceled-opens :
      (i id : Text) (r : market.State × Option Order)
      → orders.IsOpen id (fetch_canceled market redis retry tenant exchange_id i r).0
      → orders.IsOpen id r.0
  fetch_canceled-opens i id (m, none) h = h
  fetch_canceled-opens i id (m, some o) h = orders.fetch_opens i o.symbol id m h

  fetch_canceled_answer :
      (i : Text) (r : market.State × Option Order) (d : Order)
      → (fetch_canceled market redis retry tenant exchange_id i r).1 ≡ some d
      → (o : Order) × (r.1 ≡ some o)
  fetch_canceled_answer i (m, none) d h = cc
  fetch_canceled_answer i (m, some o) d h = (o, refl)

  abbrev pub cancel_of : Text → CancelOrder
  cancel_of i = record { order_id = i; symbol = symbol }

  pub call-cancel-opens :
      (i id : Text) (w : Executing)
      → orders.IsOpen id (call (cancel (cancel_of i)) w).0.at_market
      → orders.IsOpen id (market.cancel_order i symbol w.at_market).0
  unfolding submit_handler cancel_order
  call-cancel-opens i id w h =
      let r = market.cancel_order i symbol w.at_market in
      fetch_canceled-opens i id r (
        rw (canceled-market i w.at_redis (fetch_canceled market redis retry tenant exchange_id i r))
          at h)

  pub call-cancel-closes :
      (i id : Text) (w : Executing)
      → (call (cancel (cancel_of i)) w).1 ≡ answered (some id)
      → ¬ orders.IsOpen i (call (cancel (cancel_of i)) w).0.at_market
  unfolding submit_handler cancel_order
  call-cancel-closes i id w h still =
      let r = market.cancel_order i symbol w.at_market in
      let detail =
        canceled_answer i w.at_redis (fetch_canceled market redis retry tenant exchange_id i r) id
          h in
      let order = fetch_canceled_answer i r detail.0 detail.1 in
      orders.cancel_closes i symbol w.at_market order.0 order.1 (call-cancel-opens i i w still)

  -- The executor, asked as the trader asks it.
  abbrev pub executing : ExecutorService
  executing = record {
    State = Executing;
    IsOpen = λ id w. orders.IsOpen id w.at_market;
    submit = λ o w. call (create (order_of o)) w;
    cancel = λ i w. call (cancel (cancel_of i)) w;
    elapse = λ w. record w { at_market = orders.fill w.at_market };
    new_id = λ o w. last_opened market orders (order_of o) tries w.at_market;
    failed_ids = λ o w. failed_attempts market orders (order_of o) tries w.at_market;
    submit_opens = λ o w id h. call-submit-opens (order_of o) w id h;
    submit_answers = λ o w id h. call_submit_id (order_of o) w id h;
    cancel_opens =
        λ i id w h. orders.cancel_opens i symbol id w.at_market (call-cancel-opens i id w h);
    cancel_closes = λ i id w h. call-cancel-closes i id w h;
    elapse_opens = λ id w h. orders.fill_opens id w.at_market h;
  }
