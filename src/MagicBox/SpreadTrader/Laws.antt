-- ===== src/MagicBox/SpreadTrader/Laws.antt =====
-- Which orders of the spread trader (packages/magicbox/src/plugins/spreadtrader.ts) are open.
use faculty_auxie_mm.MagicBox.SpreadTrader.Lost.{
  Knows, lost_by, run, lost_by_cancel, lost_by_submit, lost_in, forget-Knows, submitted-Knows,
}
use faculty_auxie_mm.Prelude.Text.{Text}
use mathlib.Core.List.{Memᴰ}
use faculty_auxie_mm.MagicBox.SpreadTrader.{
  ExecutorService, System, Answer, tick_cancel, happen, answered, is_truthy, Happening,
  after_cancel, next_order, five_seconds, thrown, handle_all, event, time, handle, Event, Trader,
  tick_submit, tick, watch_balance, watch_order_book, watch_orders, other, cancel_last, new_trader,
}
use faculty_auxie_mm.Prelude.{
  ◌≡◌, ◌∷◌, ◌+◌, ◌≤◌, ◌&&◌, none, some, true, [], inl, inr, List, ℕ, arith, is_some, length, ◌∙◌,
  refl, Bool-cases, Option,
}

handle-last : (e : Event) (t : Trader) → (handle e t).last_order_id ≡ t.last_order_id
unfolding handle
handle-last (watch_balance free) t = refl
handle-last (watch_order_book bids asks) t = refl
handle-last watch_orders t = refl
handle-last other t = refl

handle_all-last : (es : List Event) (t : Trader) → (handle_all es t).last_order_id ≡ t.last_order_id
unfolding handle_all
handle_all-last [] t = refl
handle_all-last (e ∷ es) t = handle_all-last es (handle e t) ∙ handle-last e t

module _ (executor : ExecutorService) where
  Knows-same :
      (n m : ℕ) (s : System executor) (t : Trader)
      → n ≤ m
      → t.last_order_id ≡ s.trader.last_order_id
      → Knows executor n s
      → Knows executor m (record s { trader = t })
  Knows-same n m s t le same k = record {
    lost = k.lost;
    few = omega (arith, le, k.few);
    known = λ id o. rw (same) (k.known id o);
  }

  after_cancel-last :
      (a : Answer) (orders : executor.State) (s : System executor)
      → (after_cancel executor a orders s).1 ≡ true
      → (after_cancel executor a orders s).0.trader.last_order_id ≡ none
  after_cancel-last thrown orders s h = cc
  after_cancel-last (answered order) orders s h = refl

  cancel-Knows :
      (n : ℕ) (s : System executor) (last : Option Text)
      → s.trader.last_order_id ≡ last
      → Knows executor n s
      → Knows executor (n + lost_by_cancel executor last s) (cancel_last executor last s).0
        × ((cancel_last executor last s).1 ≡ true
            → (cancel_last executor last s).0.trader.last_order_id ≡ none)
  cancel-Knows n s none is k = (Knows-same n (n + 0) s s.trader (omega arith) refl k, λ h. is)
  cancel-Knows n s (some id) is k = (
    forget-Knows executor n s id (executor.cancel id s.orders).1 is refl k,
    after_cancel-last (executor.cancel id s.orders).1 (executor.cancel id s.orders).0 s,
  )

  submit-Knows :
      (n : ℕ) (s : System executor)
      → s.trader.last_order_id ≡ none
      → Knows executor n s
      → Knows executor (n + lost_by_submit executor s) (tick_submit executor s)
  unfolding tick_submit
  submit-Knows n s is_none k =
      elim (Bool-cases (is_some s.trader.balance && is_truthy s.trader.spread)) [
        | inl submits ↦
            simp (submits) (submitted-Knows executor n s (next_order s.trader) _ is_none refl k)
        | inr waits ↦ simp (waits) (Knows-same n (n + 0) s s.trader (omega arith) refl k)
      ]

  tick-Knows :
      (n : ℕ) (s : System executor) (during : List Event)
      → Knows executor n s
      → Knows executor (n + lost_by executor (five_seconds during) s) (tick executor during s)
  unfolding lost_by tick tick_cancel
  tick-Knows n s during k =
      let lost = lost_by_cancel executor s.trader.last_order_id s in
      let c = cancel-Knows n s s.trader.last_order_id refl k in
      let s' = (tick_cancel executor s).0 in
      let t = handle_all during s'.trader in
      let same = handle_all-last during s'.trader in
      elim (Bool-cases (tick_cancel executor s).1) [
        | inl goes_on ↦ simp (goes_on) (
            Knows-same (n + lost + lost_by_submit executor (record s' { trader = t })) _ _ _
              (omega arith) refl
              (submit-Knows (n + lost) (record s' { trader = t }) (same ∙ c.1 goes_on)
                (Knows-same (n + lost) (n + lost) s' t (omega arith) same c.0)))
        | inr stops ↦ simp (stops) (Knows-same (n + lost) _ s' t (omega arith) same c.0)
      ]

  happen-Knows :
      (n : ℕ) (s : System executor) (h : Happening)
      → Knows executor n s
      → Knows executor (n + lost_by executor h s) (happen executor h s)
  unfolding happen lost_by
  happen-Knows n s (event e) k =
      Knows-same n _ s (handle e s.trader) (omega arith) (handle-last e s.trader) k
  happen-Knows n s (five_seconds during) k = tick-Knows n s during k
  happen-Knows n s time k = record {
    lost = k.lost;
    few = omega (arith, k.few);
    known = λ id o. k.known id (executor.elapse_opens id s.orders o);
  }

  run-Knows_from :
      (n : ℕ) (s : System executor) (hs : List Happening)
      → Knows executor n s
      → Knows executor (n + lost_in executor hs s) (run executor hs s)
  unfolding run lost_in
  run-Knows_from n s [] k = Knows-same n _ s s.trader (omega arith) refl k
  run-Knows_from n s (h ∷ hs) k =
      let u = run executor hs (happen executor h s) in
      Knows-same (n + lost_by executor h s + lost_in executor hs (happen executor h s)) _ u u.trader
        (omega arith) refl
        (run-Knows_from (n + lost_by executor h s) (happen executor h s) hs (happen-Knows n s h k))

  -- Whatever happens from a new trader on, whatever the executor answers and however its orders are
  -- filled: every open order is the trader's last one, but for as many as there were before it and as
  -- there are orders that the executor's calls have lost: those of attempts that failed and were made
  -- again, of submissions that were not answered by an order, and of cancellations that were answered
  -- by none.
  pub run-Knows :
      (before : List Text) (orders : executor.State) (hs : List Happening)
      → ((id : Text) → executor.IsOpen id orders → Memᴰ id before)
      → Knows executor
          (length before + lost_in executor hs (record { trader = new_trader; orders = orders }))
          (run executor hs (record { trader = new_trader; orders = orders }))
  run-Knows before orders hs h =
      run-Knows_from (length before) (record { trader = new_trader; orders = orders }) hs
        (record { lost = before; few = omega arith; known = λ id o. inr (h id o) })
