-- ===== src/MagicBox/SpreadTrader/Attempts.antt =====
-- Which orders an exchange has after the attempts of TradingService.createOrder (packages/executor/src/
-- services/trading.service.ts). The ids of its open orders are a parameter.
use mathlib.Core.List.{Memᴰ}
use faculty_auxie_mm.Executor.{Market, SubmitOrder, attempt, detailed, run_until, with_detail}
use faculty_auxie_mm.Orders.{Order}
use faculty_auxie_mm.Prelude.Text.{Text}
use faculty_auxie_mm.Prelude.{
  ◌≡◌, ◌∷◌, ◌⊎◌, [], inl, inr, none, some, List, Option, ℕ, zero, suc, is_some, Bool-cases, ap, ◌∙◌,
  Option-cases, if◌then◌else◌, refl, sym,
}

-- Which orders are open: a call opens one at most, the one that it answers, a cancellation that is
-- answered closes its order, and a fetch opens none.
pub record OpenOrders (market : Market) : Type 1 where
  pub IsOpen : Text → market.State → Type 0
  pub opened : SubmitOrder → market.State → Text
  pub fill : market.State → market.State
  pub create_opens :
      (o : SubmitOrder) (m : market.State) (id : Text)
      → IsOpen id (market.create_order o m).0
      → (id ≡ opened o m) ⊎ IsOpen id m
  pub create_answers :
      (o : SubmitOrder) (m : market.State) (a : Order)
      → (market.create_order o m).1 ≡ some a
      → a.id ≡ opened o m
  pub fetch_opens :
      (i symbol id : Text) (m : market.State)
      → IsOpen id (market.fetch_order i symbol m).0
      → IsOpen id m
  pub cancel_opens :
      (i symbol id : Text) (m : market.State)
      → IsOpen id (market.cancel_order i symbol m).0
      → IsOpen id m
  pub cancel_closes :
      (i symbol : Text) (m : market.State) (a : Order)
      → (market.cancel_order i symbol m).1 ≡ some a
      → ¬ IsOpen i (market.cancel_order i symbol m).0
  pub fill_opens : (id : Text) (m : market.State) → IsOpen id (fill m) → IsOpen id m

some_injective : {A : Type 0} {a b : A} → some a ≡ some b → a ≡ b
some_injective h = cc

module _ (market : Market) (orders : OpenOrders market) where
  with_detail-opens :
      (order : Order) (r : market.State × Option Order) (id : Text)
      → orders.IsOpen id (with_detail market order r).0
      → orders.IsOpen id r.0
  with_detail-opens order (m, none) id h = h
  with_detail-opens order (m, some detail) id h = h

  detailed-opens :
      (r : market.State × Option Order) (id : Text)
      → orders.IsOpen id (detailed market r).0
      → orders.IsOpen id r.0
  detailed-opens (m, none) id h = h
  detailed-opens (m, some order) id h = elim (Bool-cases (is_some order.status)) [
    | inl known ↦ rw (known) at h
    | inr unknown ↦ orders.fetch_opens order.id order.symbol id m (
        with_detail-opens order (market.fetch_order order.id order.symbol m) id (rw (unknown) at h))
  ]

  with_detail_id :
      (order : Order) (r : market.State × Option Order) (p : Order × Order)
      → (with_detail market order r).1 ≡ some p
      → r.1 ≡ some p.1
  with_detail_id order (m, none) p h = cc
  with_detail_id order (m, some detail) p h = cc

  detailed_id :
      (r : market.State × Option Order) (p : Order × Order)
      → (detailed market r).1 ≡ some p
      → (order : Order) × (r.1 ≡ some order) × (p.1.id ≡ order.id)
  detailed_id (m, none) p h = cc
  detailed_id (m, some order) p h = elim (Bool-cases (is_some order.status)) [
    | inl known ↦
        let both : (order, order) ≡ p = some_injective (rw (known) at h) in
        (order, refl, ap (λ q. q.1.id) (sym both))
    | inr unknown ↦ (
      order,
      refl,
      market.fetched_id order.id order.symbol m p.1
          (with_detail_id order (market.fetch_order order.id order.symbol m) p (rw (unknown) at h)),
    )
  ]

  module _ (o : SubmitOrder) where
    attempt-opens :
        (m : market.State) (id : Text)
        → orders.IsOpen id (attempt market o m).0
        → (id ≡ orders.opened o m) ⊎ orders.IsOpen id m
    unfolding attempt
    attempt-opens m id h =
        orders.create_opens o m id (detailed-opens (market.create_order o m) id h)

    attempt_id :
        (m : market.State) (p : Order × Order)
        → (attempt market o m).1 ≡ some p
        → p.1.id ≡ orders.opened o m
    unfolding attempt
    attempt_id m p h =
        let order = detailed_id (market.create_order o m) p h in
        order.2 ∙ orders.create_answers o m order.0 order.1

    -- the orders of the attempts that failed, and the one of the attempt that did not
    pub failed_attempts : ℕ → market.State → List Text
    failed_attempts zero m = []
    failed_attempts (suc n) m =
        let later = failed_attempts n (attempt market o m).0 in
        if is_some (attempt market o m).1 then [] else orders.opened o m ∷ later

    pub last_opened : ℕ → market.State → Text
    last_opened zero m = orders.opened o m
    last_opened (suc n) m =
        let later = last_opened n (attempt market o m).0 in
        if is_some (attempt market o m).1 then orders.opened o m else later

    pub run_until-opens :
        (n : ℕ) (m : market.State) (id : Text)
        → orders.IsOpen id (run_until (attempt market o) n m).0
        → (id ≡ last_opened n m) ⊎ (Memᴰ id (failed_attempts n m) ⊎ orders.IsOpen id m)
    unfolding run_until failed_attempts last_opened
    run_until-opens zero m id h = inr (inr h)
    run_until-opens (suc n) m id h = elim (Option-cases (attempt market o m).1) [
      | inl failed ↦
          let m' = (attempt market o m).0 in
          let h' : orders.IsOpen id (run_until (attempt market o) n m').0 =
            rw (failed, run_until) at h in
          rw (failed) (elim (run_until-opens n m' id h') [
            | inl e ↦ inl e
            | inr (inl later) ↦ inr (inl (Memᴰ.tail later))
            | inr (inr before) ↦ elim (attempt-opens m id before) [
              | inl e ↦ inr (inl (Memᴰ.head e))
              | inr b ↦ inr (inr b)
            ]
          ])
      | inr answer ↦
          let h' : orders.IsOpen id (attempt market o m).0 = rw (answer.1, run_until) at h in
          rw (answer.1) (elim (attempt-opens m id h') [ inl e ↦ inl e | inr b ↦ inr (inr b) ])
    ]

    pub run_until_id :
        (n : ℕ) (m : market.State) (p : Order × Order)
        → (run_until (attempt market o) n m).1 ≡ some p
        → p.1.id ≡ last_opened n m
    unfolding run_until last_opened
    run_until_id zero m p h = cc
    run_until_id (suc n) m p h = elim (Option-cases (attempt market o m).1) [
      | inl failed ↦
          rw (failed) (run_until_id n (attempt market o m).0 p (rw (failed, run_until) at h))
      | inr answer ↦
          let h' : some answer.0 ≡ some p = rw (answer.1, run_until) at h in
          rw (answer.1) (attempt_id m p (answer.1 ∙ h'))
    ]
