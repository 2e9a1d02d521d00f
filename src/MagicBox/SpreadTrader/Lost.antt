-- ===== src/MagicBox/SpreadTrader/Lost.antt =====
-- The orders of the spread trader (packages/magicbox/src/plugins/spreadtrader.ts) that it has lost,
-- and what an answer of the executor adds to them.
use faculty_auxie_mm.Prelude.Text.{Text}
use mathlib.Core.List.{Memᴰ}
use mathlib.Core.List.Memᴰ
use faculty_auxie_mm.MagicBox.SpreadTrader.{
  ExecutorService, System, Answer, tick_cancel, happen, LimitOrder, answered, is_truthy, Happening,
  after_cancel, after_answer, next_order, five_seconds, thrown, handle_all, event, time, Trader,
}
use faculty_auxie_mm.Prelude.{
  ◌≡◌, ◌∷◌, if◌then◌else◌, ◌+◌, ◌≤◌, ◌&&◌, ◌⊎◌, none, some, [], inl, inr, List, ℕ, arith, is_some,
  length, ap, ◌∙◌, sym, Option, ◌++◌, length-append,
}

-- Is an order that may be open forgotten? A cancellation that is not answered by an order loses the
-- one that it was for, unless it is thrown; a submission loses the orders of attempts that failed, and
-- a new one unless it is answered by one.
abbrev pub cancel_loses : Answer → ℕ
cancel_loses thrown = 0
cancel_loses (answered none) = 1
cancel_loses (answered (some id)) = 0

abbrev pub submit_loses : Answer → List Text → ℕ
submit_loses thrown failed = length failed + 1
submit_loses (answered none) failed = length failed + 1
submit_loses (answered (some id)) failed = length failed

module _ (executor : ExecutorService) where
  abbrev pub lost_by_cancel : Option Text → System executor → ℕ
  lost_by_cancel none s = 0
  lost_by_cancel (some id) s = cancel_loses (executor.cancel id s.orders).1

  abbrev pub lost_by_submit : System executor → ℕ
  lost_by_submit s =
      if is_some s.trader.balance && is_truthy s.trader.spread
      then submit_loses (executor.submit (next_order s.trader) s.orders).1
          (executor.failed_ids (next_order s.trader) s.orders)
      else 0

  unfoldable pub lost_by : Happening → System executor → ℕ
  unfolding tick_cancel
  lost_by (five_seconds during) s =
      let (s', goes_on) = tick_cancel executor s in
      let handled = record s' { trader = handle_all during s'.trader } in
      lost_by_cancel s.trader.last_order_id s + (if goes_on then lost_by_submit handled else 0)
  lost_by (event e) s = 0
  lost_by time s = 0

  unfoldable pub run : List Happening → System executor → System executor
  unfolding happen
  run [] s = s
  run (h ∷ hs) s = run hs (happen executor h s)

  unfoldable pub lost_in : List Happening → System executor → ℕ
  unfolding happen lost_by
  lost_in [] s = 0
  lost_in (h ∷ hs) s = lost_by h s + lost_in hs (happen executor h s)

  -- All open orders are known to the trader, or among as many as `n` that it has lost.
  pub record Knows (n : ℕ) (s : System executor) : Type 0 where
    pub lost : List Text
    pub few : length lost ≤ n
    pub known :
        (id : Text)
        → executor.IsOpen id s.orders
        → (s.trader.last_order_id ≡ some id) ⊎ Memᴰ id lost

  pub forget-Knows :
      (n : ℕ) (s : System executor) (id : Text) (a : Answer)
      → s.trader.last_order_id ≡ some id
      → (executor.cancel id s.orders).1 ≡ a
      → Knows n s
      → Knows (n + cancel_loses a) (after_cancel executor a (executor.cancel id s.orders).0 s).0
  forget-Knows n s id thrown is answer k = record {
    lost = k.lost;
    few = omega (arith, k.few);
    known = λ j o. k.known j (executor.cancel_opens id j s.orders o);
  }
  forget-Knows n s id (answered none) is answer k = record {
    lost = id ∷ k.lost;
    few = omega (arith, k.few);
    known = λ j o. inr (elim (k.known j (executor.cancel_opens id j s.orders o)) [
      | inl e ↦ Memᴰ.head cc
      | inr m ↦ Memᴰ.tail m
    ]);
  }
  forget-Knows n s id (answered (some i)) is answer k = record {
    lost = k.lost;
    few = omega (arith, k.few);
    known = λ j o. inr (elim (k.known j (executor.cancel_opens id j s.orders o)) [
      | inl e ↦
          let same : j ≡ id = cc in
          absurd (executor.cancel_closes id i s.orders answer (rw (same) at o))
      | inr m ↦ m
    ]);
  }

  -- The order of a submission, or one that is lost
  submit_known :
      (n : ℕ) (s : System executor) (o : LimitOrder) (id : Text)
      → s.trader.last_order_id ≡ none
      → (k : Knows n s) → executor.IsOpen id (executor.submit o s.orders).0
      → (id ≡ executor.new_id o s.orders) ⊎ Memᴰ id (executor.failed_ids o s.orders ++ k.lost)
  submit_known n s o id is k opened =
      let failed = executor.failed_ids o s.orders in
      elim (executor.submit_opens o s.orders id opened) [
        | inl new ↦ inl new
        | inr (inl failed_before) ↦ inr (Memᴰ.append_left k.lost failed_before)
        | inr (inr before) ↦ elim (k.known id before) [
          | inl e ↦ cc
          | inr m ↦ inr (Memᴰ.append_right failed m)
        ]
      ]

  -- A submission whose order the trader does not come to know.
  submitted_unknown :
      (n : ℕ) (s : System executor) (o : LimitOrder) (t : Trader)
      → s.trader.last_order_id ≡ none
      → Knows n s
      → Knows
          (n + (length (executor.failed_ids o s.orders) + 1))
          (record { trader = t; orders = (executor.submit o s.orders).0 })
  submitted_unknown n s o t is k = record {
    lost = executor.new_id o s.orders ∷ (executor.failed_ids o s.orders ++ k.lost);
    few = omega (arith, k.few, length-append (executor.failed_ids o s.orders) k.lost);
    known = λ j opened.
        inr (elim (submit_known n s o j is k opened) [
          | inl new ↦ Memᴰ.head new
          | inr m ↦ Memᴰ.tail m
        ]);
  }

  pub submitted-Knows :
      (n : ℕ) (s : System executor) (o : LimitOrder) (a : Answer)
      → s.trader.last_order_id ≡ none
      → (executor.submit o s.orders).1 ≡ a
      → Knows n s
      → Knows
          (n + submit_loses a (executor.failed_ids o s.orders))
          (record { trader = after_answer a s.trader; orders = (executor.submit o s.orders).0 })
  submitted-Knows n s o thrown is answer k = submitted_unknown n s o _ is k
  submitted-Knows n s o (answered none) is answer k = submitted_unknown n s o _ is k
  submitted-Knows n s o (answered (some id)) is answer k = record {
    lost = executor.failed_ids o s.orders ++ k.lost;
    few = omega (arith, k.few, length-append (executor.failed_ids o s.orders) k.lost);
    known = λ j opened. elim (submit_known n s o j is k opened) [
      | inl new ↦ inl (ap some (executor.submit_answers o s.orders id answer ∙ sym new))
      | inr m ↦ inr m
    ];
  }
