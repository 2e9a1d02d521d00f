-- ===== src/Replication/Workers.antt =====
-- The worker of the gatherer and the worker of the magicbox (worker.ts of packages/gatherer and of
-- packages/magicbox): what the one subscribes to is what the other writes.
pub mod Tests
use faculty_auxie_mm.Gatherer.Streamer.{Exchange, Streamer}
use faculty_auxie_mm.Gatherer.Worker.{
  DataPointEntry, WorkPlan, action_of, data_point_of, setup_worker,
}
use faculty_auxie_mm.Gatherer.Worker.Laws.{
  offers, streams_of, HasPlainName, written, contains-append,
}
use faculty_auxie_mm.Gatherer.Worker.Streams.{pair_streams, plan_streams, setup_worker-plan_streams}
use mathlib.Core.Path.{subst}
use faculty_auxie_mm.Keys.{observable_key, stream_prefix, snapshot_prefix}
use faculty_auxie_mm.MagicBox.Cache.{DataStreamService}
use faculty_auxie_mm.MagicBox.Worker.{
  MagicBoxSubscription, watched_key, tenant_id, subscribe_all, nothing_subscribed,
}
use faculty_auxie_mm.MagicBox.Worker.Laws.{
  watched_keys, with_key, contains-with_key, count-subscribe_all,
}
use faculty_auxie_mm.Prelude.Count.{count, contains}
use faculty_auxie_mm.Prelude.Text.{Text, codes, text_eq, text_Eq, text_eq_iff}
use faculty_auxie_mm.Prelude.{
  ◌≡◌, ◌∷◌, ◌++◌, ◌∙◌, [], none, some, true, false, List, Option, refl, if◌then◌else◌, arith, any,
  ap, All, Bool-cases, inl, inr, sym, is_some,
}

-- The id by which the gatherer names an exchange in the streams of a data point.
abbrev pub stream_exchange : Exchange → Text → Text
stream_exchange exchange data_point =
    if text_eq data_point (codes "watchBalance") then exchange.full_name else exchange.id

contains-pair_streams :
    (exchange : Exchange) (symbol action : Text) (entries : List DataPointEntry) (k : Text)
    → any (λ e. text_eq action (data_point_of e).action) entries ≡ true
    → contains (streams_of exchange symbol (action_of action)) k ≡ true
    → contains (pair_streams exchange symbol entries) k ≡ true
contains-pair_streams exchange symbol action [] k m h = absurd (ground (arith, m))
contains-pair_streams exchange symbol action (e ∷ entries) k m h =
    let joined =
      contains-append (streams_of exchange symbol (action_of (data_point_of e).action))
        (pair_streams exchange symbol entries) k in
    elim (Bool-cases (text_eq action (data_point_of e).action)) [
      | inl same ↦
          let here : contains (streams_of exchange symbol (action_of (data_point_of e).action)) k
              ≡ true =
            ap (λ a. contains (streams_of exchange symbol (action_of a)) k)
              (sym ((text_eq_iff action (data_point_of e).action).0 same))
            ∙ h in
          ground (arith, joined, here)
      | inr other ↦
          let there : contains (pair_streams exchange symbol entries) k ≡ true =
            contains-pair_streams exchange symbol action entries k (ground (arith, m, other)) h in
          ground (arith, joined, there)
    ]

contains-plan_streams :
    (exchange : Exchange) (entries : List DataPointEntry) (symbols : List Text) (symbol k : Text)
    → contains symbols symbol ≡ true
    → contains (pair_streams exchange symbol entries) k ≡ true
    → contains (plan_streams exchange entries symbols) k ≡ true
contains-plan_streams exchange entries [] symbol k m h = absurd (ground (arith, m))
contains-plan_streams exchange entries (s ∷ symbols) symbol k m h =
    let joined =
      contains-append (pair_streams exchange s entries) (plan_streams exchange entries symbols) k in
    elim (Bool-cases (text_eq symbol s)) [
      | inl same ↦
          let here : contains (pair_streams exchange s entries) k ≡ true =
            ap (λ p. contains (pair_streams exchange p entries) k)
              (sym ((text_eq_iff symbol s).0 same))
            ∙ h in
          ground (arith, joined, here)
      | inr other ↦
          let there : contains (plan_streams exchange entries symbols) k ≡ true =
            contains-plan_streams exchange entries symbols symbol k (ground (arith, m, other)) h in
          ground (arith, joined, there)
    ]

contains-first : (x y : Text) (xs : List Text) → x ≡ y → contains (x ∷ xs) y ≡ true
contains-first x y xs h = ground (arith, text_eq_iff y x, h)

module _ (tenant : Text) (r : MagicBoxSubscription) (exchange : Exchange) (key : Text)
    (t : tenant_id tenant r ≡ exchange.tenant) where
  -- What is shown of a record, for any data point in place of its own.
  abbrev IsWritten : Text → Type 0
  IsWritten data_point =
      watched_key tenant (record r { data_point = data_point }) ≡ some key
      → r.exchange_id ≡ stream_exchange exchange data_point
      → contains (streams_of exchange r.symbol (action_of data_point)) (stream_prefix ++ key) ≡ true

  literal-IsWritten :
      (data_point : Text) (symbol : Option Text) (rest : List Text) (named : Text)
      → some (observable_key (tenant_id tenant r) r.exchange_id data_point symbol) ≡ some key
      → r.exchange_id ≡ named
      → contains
          ((stream_prefix ++ observable_key exchange.tenant named data_point symbol) ∷ rest)
          (stream_prefix ++ key)
        ≡ true
  literal-IsWritten data_point symbol rest named w e =
      contains-first _ (stream_prefix ++ key) rest (
        let same : observable_key exchange.tenant named data_point symbol ≡ key = cc in
        ap (λ k. stream_prefix ++ k) same)

  unknown-IsWritten :
      (data_point : Text)
      → text_eq data_point (codes "watchOrderBook") ≡ false
      → text_eq data_point (codes "watchOrders") ≡ false
      → text_eq data_point (codes "watchOHLCV") ≡ false
      → text_eq data_point (codes "watchBalance") ≡ false
      → IsWritten data_point
  unfolding watched_key
  unknown-IsWritten data_point a b c d w e =
      let missing : is_some (watched_key tenant (record r { data_point = data_point })) ≡ false =
        rw (a, b, c, d) refl in
      absurd (ground (arith, ap is_some w, missing))

  all-IsWritten : (data_point : Text) → IsWritten data_point
  unfolding watched_key
  all-IsWritten data_point = elim (Bool-cases (text_eq data_point (codes "watchOrderBook"))) [
    | inl book ↦
        subst IsWritten (sym ((text_eq_iff data_point (codes "watchOrderBook")).0 book)) (λ w e.
          literal-IsWritten (codes "watchOrderBook") (some r.symbol)
            ((snapshot_prefix
                ++ observable_key exchange.tenant exchange.id (codes "watchOrderBook")
                    (some r.symbol))
              ∷ [])
            exchange.id w e)
    | inr not_book ↦ elim (Bool-cases (text_eq data_point (codes "watchOrders"))) [
      | inl orders ↦
          subst IsWritten (sym ((text_eq_iff data_point (codes "watchOrders")).0 orders))
            (λ w e. literal-IsWritten (codes "watchOrders") (some r.symbol) [] exchange.id w e)
      | inr not_orders ↦ elim (Bool-cases (text_eq data_point (codes "watchOHLCV"))) [
        | inl candles ↦
            subst IsWritten (sym ((text_eq_iff data_point (codes "watchOHLCV")).0 candles))
              (λ w e. literal-IsWritten (codes "watchOHLCV") (some r.symbol) [] exchange.id w e)
        | inr not_candles ↦ elim (Bool-cases (text_eq data_point (codes "watchBalance"))) [
          | inl balance ↦
              subst IsWritten (sym ((text_eq_iff data_point (codes "watchBalance")).0 balance))
                (λ w e. literal-IsWritten (codes "watchBalance") none [] exchange.full_name w e)
          | inr not_balance ↦
              unknown-IsWritten data_point not_book not_orders not_candles not_balance
        ]
      ]
    ]
  ]

contains-watched_keys :
    (tenant : Text) (before after : List MagicBoxSubscription) (r : MagicBoxSubscription)
    (key : Text)
    → watched_key tenant r ≡ some key
    → contains (watched_keys tenant (before ++ r ∷ after)) key ≡ true
contains-watched_keys tenant [] after r key h =
    let first = contains-with_key (watched_key tenant r) (watched_keys tenant after) key in
    let own : contains (with_key (watched_key tenant r) []) key ≡ true =
      rw h (contains-first key key [] refl) in
    ground (arith, first, own)
contains-watched_keys tenant (b ∷ before) after r key h = ground (
  arith,
  contains-with_key (watched_key tenant b) (watched_keys tenant (before ++ r ∷ after)) key,
  contains-watched_keys tenant before after r key h,
)

-- For each record of a magicbox's workplan that asks for a data point, one reader runs in a worker
-- that starts afresh, and the stream that it reads is written by the gatherer's worker, if that
-- worker's workplan has the record's symbol and data point, the exchange is the record's (by its
-- full name for a balance, by its id otherwise) and of its tenant, the exchange offers the
-- workplan's data points, and the name of its balance's stream holds no `fetch` that would be
-- replaced.
pub subscribe_all-setup_worker :
    {V : Type 0} (tenant : Text) (before after : List MagicBoxSubscription)
    (r : MagicBoxSubscription) (key : Text) (service : DataStreamService V) (exchange : Exchange)
    (plan : WorkPlan) (s : Streamer)
    → service.observables ≡ []
    → watched_key tenant r ≡ some key
    → tenant_id tenant r ≡ exchange.tenant
    → r.exchange_id ≡ stream_exchange exchange r.data_point
    → contains plan.asset_pairs r.symbol ≡ true
    → any (λ e. text_eq r.data_point (data_point_of e).action) plan.data_points ≡ true
    → HasPlainName exchange
    → All (λ e. offers exchange (action_of (data_point_of e).action) ≡ true) plan.data_points
    → (count key (subscribe_all tenant (before ++ r ∷ after) (nothing_subscribed service)).readers
        ≡ 1)
      × (contains (written (setup_worker exchange plan s).0.subscriptions) (stream_prefix ++ key)
          ≡ true)
subscribe_all-setup_worker tenant before after r key service exchange plan s fresh watched
      same_tenant named has_pair has_point plain offered =
    let pair =
      contains-pair_streams exchange r.symbol r.data_point plan.data_points (stream_prefix ++ key)
        has_point (all-IsWritten tenant r exchange key same_tenant r.data_point watched named) in
    let planned =
      contains-plan_streams exchange plan.data_points plan.asset_pairs r.symbol
        (stream_prefix ++ key) has_pair pair in
    let readers = count-subscribe_all tenant (before ++ r ∷ after) service key fresh in
    (
      rw (contains-watched_keys tenant before after r key watched) at readers,
      (setup_worker-plan_streams exchange plan s plain offered).1 (stream_prefix ++ key) ∙ planned,
    )
