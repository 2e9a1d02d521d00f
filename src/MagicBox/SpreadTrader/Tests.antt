-- ===== src/MagicBox/SpreadTrader/Tests.antt =====
-- A spread trader with an executor that numbers its orders.
use faculty_auxie_mm.Executor.Tests.{
  order_of, market_of, plain_retry, redis_memory, request, start, tenant,
}
use faculty_auxie_mm.MagicBox.SpreadTrader.Executed.{executing, answer_of}
use faculty_auxie_mm.MagicBox.SpreadTrader.Attempts.{OpenOrders}
use faculty_auxie_mm.Orders.{Order}
use faculty_auxie_mm.Executor.{SubmitOrder, submit_handler, create_order, run_until, cancel_order}
use mathlib.Core.Option.{some-injective}
use mathlib.Core.List.{Memᴰ}
use mathlib.Core.List.Memᴰ
use faculty_auxie_mm.MagicBox.SpreadTrader.Laws.{run-Knows}
use faculty_auxie_mm.MagicBox.SpreadTrader.Lost.{run, Knows, lost_in}
use faculty_auxie_mm.Book.{Level}
use faculty_auxie_mm.MagicBox.SpreadTrader.{
  ExecutorService, LimitOrder, Answer, answered, Level, Happening, not, event, new_trader,
  watch_order_book, watch_balance, five_seconds, watch_orders, time,
}
use faculty_auxie_mm.Prelude.Text.{Text, codes, text_eq, text_eq_iff}
use faculty_auxie_mm.Prelude.{
  ◌≡◌, ◌∷◌, ◌+◌, [], none, some, true, false, List, Bool, ℕ, refl, suc, filter, if◌then◌else◌, zero,
  inl, inr, not, Bool-cases, sym, ◌⊎◌, ap, ◌<◌, arith,
}

-- orders are `1`, `11`, `111` and so on
abbrev name : ℕ → Text
name zero = codes "1"
name (suc n) = b'1' ∷ name n

-- `cancels_fail`: a cancellation is refused, which the executor answers with an empty body
record Memory : Type 0 where
  count : ℕ
  open_orders : List Text
  cancels_fail : Bool

abbrev next : LimitOrder → Memory → Memory × Answer
next o s = (
  record s { count = s.count + 1; open_orders = name s.count ∷ s.open_orders },
  answered (some (name s.count)),
)

next-opens :
    (o : LimitOrder) (s : Memory) (id : Text)
    → Memᴰ id (next o s).0.open_orders
    → (id ≡ name s.count) ⊎ (Memᴰ id [] ⊎ Memᴰ id s.open_orders)
next-opens o s id h = elim (Memᴰ.cases_cons h) [ inl e ↦ inl e | inr m ↦ inr (inr m) ]

next-answers :
    (o : LimitOrder) (s : Memory) (id : Text)
    → (next o s).1 ≡ answered (some id)
    → id ≡ name s.count
next-answers o s id h = cc

abbrev without : Text → List Text → List Text
without id ids = filter (λ j. not (text_eq j id)) ids

without_kept : (i id : Text) (ids : List Text) → Memᴰ id (without i ids) → Memᴰ id ids
without_kept i id [] h = elim h [ ]
without_kept i id (j ∷ ids) h = elim (Bool-cases (text_eq j i)) [
  | inl same ↦ Memᴰ.tail (without_kept i id ids (rw (same) at h))
  | inr differs ↦ elim (Memᴰ.cases_cons (rw (differs) at h)) [
    | inl e ↦ Memᴰ.head e
    | inr m ↦ Memᴰ.tail (without_kept i id ids m)
  ]
]

without_gone : (i : Text) (ids : List Text) → ¬ Memᴰ i (without i ids)
without_gone i [] h = elim h [ ]
without_gone i (j ∷ ids) h = elim (Bool-cases (text_eq j i)) [
  | inl same ↦ without_gone i ids (rw (same) at h)
  | inr differs ↦ elim (Memᴰ.cases_cons (rw (differs) at h)) [
    | inl e ↦ let same : text_eq j i ≡ true = (text_eq_iff j i).1 (sym e) in cc
    | inr m ↦ without_gone i ids m
  ]
]

abbrev cancel_it : Text → Memory → Memory × Answer
cancel_it id s =
    if s.cancels_fail
    then (s, answered none)
    else (record s { open_orders = without id s.open_orders }, answered (some id))

cancel_it-opens :
    (i id : Text) (s : Memory) → Memᴰ id (cancel_it i s).0.open_orders → Memᴰ id s.open_orders
cancel_it-opens i id s h = elim (Bool-cases s.cancels_fail) [
  | inl fails ↦ rw (fails) at h
  | inr works ↦ without_kept i id s.open_orders (rw (works) at h)
]

cancel_it-closes :
    (i id : Text) (s : Memory)
    → (cancel_it i s).1 ≡ answered (some id)
    → ¬ Memᴰ i (cancel_it i s).0.open_orders
cancel_it-closes i id s h m = elim (Bool-cases s.cancels_fail) [
  | inl fails ↦ let bad : answered none ≡ answered (some id) = rw (fails) at h in cc
  | inr works ↦ without_gone i s.open_orders (rw (works) at m)
]

abbrev memory : ExecutorService
memory = record {
  State = Memory;
  IsOpen = λ id s. Memᴰ id s.open_orders;
  submit = next;
  cancel = cancel_it;
  elapse = λ s. s;
  new_id = λ o s. name s.count;
  failed_ids = λ o s. [];
  submit_opens = next-opens;
  submit_answers = next-answers;
  cancel_opens = cancel_it-opens;
  cancel_closes = cancel_it-closes;
  elapse_opens = λ id s h. h;
}

abbrev level : ℕ → Level
level n = record { price = n; amount = 1 }

abbrev events : List Happening
events =
    event (watch_balance (some []))
    ∷ event (watch_order_book (level 9 ∷ level 10 ∷ []) (level 13 ∷ level 12 ∷ []))
    ∷ five_seconds []
    ∷ five_seconds (watch_orders ∷ [])
    ∷ time
    ∷ []

abbrev working : Memory
working = record { count = 0; open_orders = []; cancels_fail = false }

abbrev failing : Memory
failing = record { count = 0; open_orders = []; cancels_fail = true }

-- One order is open after two ticks, and both are where cancellations fail.
one_open :
    (run memory events (record { trader = new_trader; orders = working })).orders.open_orders
    ≡ codes "11" ∷ []
unfolding run
one_open = refl

both_open :
    (run memory events (record { trader = new_trader; orders = failing })).orders.open_orders
    ≡ codes "11" ∷ codes "1" ∷ []
unfolding run
both_open = refl

id_of_answer :
    (o : SubmitOrder) (a : Order) → some (order_of o (codes "7") none) ≡ some a → a.id ≡ codes "7"
id_of_answer o a h = ap (λ x. x.id) (sym (some-injective (order_of o (codes "7") none) a h))

not_cancelled : {A : Type 0} {a : Order} → none ≡ some a → A
not_cancelled h = cc

-- The executor itself, with an exchange that counts its orders, all of one id, and cancels none.
abbrev counted : OpenOrders (market_of true)
counted = record {
  IsOpen = λ id m. (id ≡ codes "7") × (0 < m);
  opened = λ o m. codes "7";
  fill = λ m. m;
  create_opens = λ o m id h. inl h.0;
  create_answers = λ o m a h. id_of_answer o a h;
  fetch_opens = λ i symbol id m h. h;
  cancel_opens = λ i symbol id m h. h;
  cancel_closes = λ i symbol m a h. not_cancelled h;
  fill_opens = λ id m h. h;
}

abbrev service : ExecutorService
service =
    executing (market_of true) counted redis_memory plain_retry tenant (codes "ftx")
      (codes "ETH/BTC") (λ o. record request { side = o.side })

-- A cancellation that fails is answered with 200, and a second order is placed.
two_placed :
    (run service events (record { trader = new_trader; orders = start true })).orders.at_market ≡ 2
unfolding run submit_handler answer_of create_order run_until cancel_order
two_placed = refl

run-Knows_example :
    Knows service
      (0 + lost_in service events (record { trader = new_trader; orders = start true }))
      (run service events (record { trader = new_trader; orders = start true }))
run-Knows_example = run-Knows service [] (start true) events (λ id h. absurd (omega (arith, h.1)))
