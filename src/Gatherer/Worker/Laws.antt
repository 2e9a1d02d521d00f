-- ===== src/Gatherer/Worker/Laws.antt =====
-- Which streams a worker of the gatherer (packages/gatherer/src/worker.ts) writes.
use faculty_auxie_mm.Gatherer.Streamer.Methods.{
  Observed, single, merged, merge_orders, fetch_orders, symbol_param, fetch_open_orders,
  fetch_closed_orders,
}
use faculty_auxie_mm.Prelude.Count.{contains, count-append}
use faculty_auxie_mm.Prelude.Dict.{lookup}
use faculty_auxie_mm.Gatherer.Worker.{
  Action, Worker, Subscription, order_book, trades, my_trades, orders, ohlcv, balance, unknown,
  replace_first, Observed, on_subject, subscribed, on_observed, on_any,
}
use faculty_auxie_mm.Gatherer.Loop.{Param}
use faculty_auxie_mm.Gatherer.Streamer.{
  Exchange, Streamer, get_observable, is_offered, chosen_action, create_observable, register,
  found_or, key_of, subscribe,
}
use faculty_auxie_mm.Keys.{observable_key, stream_prefix, snapshot_prefix}
use faculty_auxie_mm.Prelude.Text.{Text, codes, replace_first, text_Eq}
use faculty_auxie_mm.Prelude.{
  ◌≡◌, ◌∷◌, ◌++◌, [], none, some, true, List, Option, Bool, ℕ, refl, or_default, is_some,
  append-nil, ◌||◌, ◌&&◌, ◌⊎◌, false, inl, inr, Bool-cases, ◌∙◌, arith, ap, sym, append_assoc,
}

-- Does the exchange have what a case of the switch needs? Orders need fetchOrders, or both of its
-- fallbacks.
abbrev pub offers : Exchange → Action → Bool
offers exchange order_book =
    is_offered (chosen_action (codes "watchOrderBook") exchange true) exchange
offers exchange trades = is_offered (chosen_action (codes "watchTrades") exchange true) exchange
offers exchange my_trades =
    is_offered (chosen_action (codes "watchMyTrades") exchange true) exchange
offers exchange orders =
    is_offered (chosen_action (codes "fetchOrders") exchange false) exchange
    || (is_offered (chosen_action (codes "fetchOpenOrders") exchange false) exchange
        && is_offered (chosen_action (codes "fetchClosedOrders") exchange false) exchange)
offers exchange ohlcv = is_offered (chosen_action (codes "watchOHLCV") exchange true) exchange
offers exchange balance = is_offered (codes "fetchBalance") exchange
offers exchange unknown = true

-- The streams of a data point as the magicbox names them.
abbrev pub streams_of : Exchange → Text → Action → List Text
streams_of exchange symbol order_book =
    let key = observable_key exchange.tenant exchange.id (codes "watchOrderBook") (some symbol) in
    (stream_prefix ++ key) ∷ (snapshot_prefix ++ key) ∷ []
streams_of exchange symbol trades =
    (stream_prefix
      ++ observable_key exchange.tenant exchange.id (codes "watchTrades") (some symbol))
    ∷ []
streams_of exchange symbol my_trades =
    (stream_prefix
      ++ observable_key exchange.tenant exchange.id (codes "watchMyTrades") (some symbol))
    ∷ []
streams_of exchange symbol orders =
    (stream_prefix
      ++ observable_key exchange.tenant exchange.id (codes "watchOrders") (some symbol))
    ∷ []
streams_of exchange symbol ohlcv =
    (stream_prefix ++ observable_key exchange.tenant exchange.id (codes "watchOHLCV") (some symbol))
    ∷ []
streams_of exchange symbol balance =
    (stream_prefix ++ observable_key exchange.tenant exchange.full_name (codes "watchBalance") none)
    ∷ []
streams_of exchange symbol unknown = []

-- No part of the balance stream's name holds `fetch`, which the code replaces.
abbrev pub HasPlainName : Exchange → Type 0
HasPlainName exchange =
    replace_first (codes "fetch") (codes "watch") (
      stream_prefix
      ++ observable_key exchange.tenant exchange.full_name (codes "watchBalance") none)
    ≡ stream_prefix ++ observable_key exchange.tenant exchange.full_name (codes "watchBalance") none

found_or_some :
    (created : Option ℕ × Streamer) (key : Text) (s : Streamer) (o : Option ℕ)
    → is_some created.0 ≡ true
    → is_some (found_or (register key created) s o).0 ≡ true
found_or_some created key s (some subject) h = refl
found_or_some (some subject, s') key s none h = refl
found_or_some (none, s') key s none h = h

module _ (action : Text) (exchange : Exchange) (fallback : Option Bool) (delay : Option ℕ)
    (symbol : Option Text) (params : List Param) where
  create_observable_offered :
      (key : Text) (s : Streamer)
      → is_offered (chosen_action action exchange (or_default fallback true)) exchange ≡ true
      → is_some (create_observable key action exchange fallback delay params s).0 ≡ true
  unfolding create_observable
  create_observable_offered key s h = rw h refl

  pub get_observable_offered :
      (s : Streamer)
      → is_offered (chosen_action action exchange (or_default fallback true)) exchange ≡ true
      → is_some (get_observable action exchange fallback delay symbol params s).0 ≡ true
  unfolding get_observable
  get_observable_offered s h =
      let key : Text = key_of action exchange symbol in
      found_or_some _ key s (lookup key s.observables) (create_observable_offered key s h)

abbrev pub written : List Subscription → List Text
written [] = []
written (sub ∷ subs) = sub.streams ++ written subs

written-append :
    (subs : List Subscription) (sub : Subscription)
    → written (subs ++ sub ∷ []) ≡ written subs ++ sub.streams
written-append [] sub = append-nil sub.streams
written-append (x ∷ subs) sub =
    ap (λ r. x.streams ++ r) (written-append subs sub)
    ∙ sym (append_assoc x.streams (written subs) sub.streams)

pub contains-append :
    (xs ys : List Text) (k : Text) → contains (xs ++ ys) k ≡ contains xs k || contains ys k
contains-append xs ys k = ground (arith, count-append k xs ys)

-- A step writes to some streams more, and the code goes on.
abbrev pub Adds : List Text → Worker → Worker × Bool → Type 0
Adds streams w r =
    (r.1 ≡ true)
    × ((k : Text)
        → contains (written r.0.subscriptions) k
          ≡ contains (written w.subscriptions) k || contains streams k)

pub contains-subscribed :
    (observed : Observed) (streams : List Text) (s : Streamer) (w : Worker) (k : Text)
    → contains (written (subscribed observed streams s w).subscriptions) k
      ≡ contains (written w.subscriptions) k || contains streams k
contains-subscribed observed streams s w k =
    ap (λ l. contains l k) (written-append w.subscriptions _)
    ∙ contains-append (written w.subscriptions) streams k

pub on_subject-Adds :
    (streams : List Text) (w : Worker) (r : Option ℕ × Streamer)
    → is_some r.0 ≡ true
    → Adds streams w (on_subject streams w r)
on_subject-Adds streams w (none, s) h = absurd (ground (arith, h))
on_subject-Adds streams w (some subject, s) h =
    (refl, contains-subscribed (single subject) streams (subscribe subject s) w)

-- A subject, or a merge of two.
abbrev pub is_whole : Observed → Bool
is_whole (single subject) = true
is_whole (merged a b) = is_some a && is_some b

is_whole-merge_orders :
    (r : Option ℕ × Streamer) (fetch_open fetch_closed : Streamer → Option ℕ × Streamer)
    → (is_some r.0 ≡ true)
      ⊎ (((s : Streamer) → is_some (fetch_open s).0 ≡ true)
          × ((s : Streamer) → is_some (fetch_closed s).0 ≡ true))
    → is_whole (merge_orders r fetch_open fetch_closed).0 ≡ true
is_whole-merge_orders (some subject, s) fetch_open fetch_closed h = refl
is_whole-merge_orders (none, s) fetch_open fetch_closed (inl h) = absurd (ground (arith, h))
is_whole-merge_orders (none, s) fetch_open fetch_closed (inr h) =
    ground (arith, h.0 s, h.1 (fetch_open s).1)

pub fetch_orders_offered :
    (exchange : Exchange) (symbol : Option Text) (delay : Option ℕ) (since limit params : Param)
    (s : Streamer)
    → offers exchange orders ≡ true
    → is_whole (fetch_orders exchange symbol delay since limit params s).0 ≡ true
unfolding fetch_orders fetch_open_orders fetch_closed_orders
fetch_orders_offered exchange symbol delay since limit params s h =
    let args = symbol_param symbol ∷ since ∷ limit ∷ params ∷ [] in
    is_whole-merge_orders
      (get_observable (codes "fetchOrders") exchange (some false) delay symbol args s)
      (fetch_open_orders exchange symbol delay since limit params)
      (fetch_closed_orders exchange symbol delay since limit params)
      (elim (Bool-cases
        (is_offered (chosen_action (codes "fetchOrders") exchange false) exchange)) [
          | inl all ↦ inl (
              get_observable_offered (codes "fetchOrders") exchange (some false) delay symbol args s
                all)
          | inr not_all ↦
              let both = rw not_all at h in
              inr (
                λ s'.
                    get_observable_offered (codes "fetchOpenOrders") exchange (some false) delay
                      symbol args s' (ground (arith, both)),
                λ s'.
                    get_observable_offered (codes "fetchClosedOrders") exchange (some false) delay
                      symbol args s' (ground (arith, both)),
              )
        ])

pub on_observed-Adds :
    (streams : List Text) (w : Worker) (r : Observed × Streamer)
    → is_whole r.0 ≡ true
    → Adds streams w (on_observed streams w r)
on_observed-Adds streams w (single subject, s) h =
    (refl, contains-subscribed (single subject) streams (subscribe subject s) w)
on_observed-Adds streams w (merged none b, s) h = absurd (ground (arith, h))
on_observed-Adds streams w (merged (some a) none, s) h = absurd (ground (arith, h))
on_observed-Adds streams w (merged (some a) (some b), s) h =
    (refl, contains-subscribed (merged (some a) (some b)) streams (subscribe b (subscribe a s)) w)

-- An optional subscription to streams that are written anyway
pub contains-on_any :
    (streams : List Text) (w : Worker) (r : Option ℕ × Streamer) (k : Text)
    → (contains (written w.subscriptions) k ≡ true
        → contains (written (on_any streams w r).subscriptions) k ≡ true)
      × (contains (written (on_any streams w r).subscriptions) k || contains streams k
          ≡ contains (written w.subscriptions) k || contains streams k)
contains-on_any streams w (none, s) k = (λ h. h, refl)
contains-on_any streams w (some subject, s) k =
    let added = contains-subscribed (single subject) streams (subscribe subject s) w k in
    (λ h. ground (arith, h, added), ground (arith, added))
