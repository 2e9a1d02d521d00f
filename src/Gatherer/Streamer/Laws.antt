-- ===== src/Gatherer/Streamer/Laws.antt =====
-- One subject for each key, and what the fallbacks do.
use mathlib.Core.Option.{some-injective}
use faculty_auxie_mm.Prelude.Count.{beq_refl}
use faculty_auxie_mm.Prelude.Dict.{lookup, lookup-insert}
use faculty_auxie_mm.Gatherer.Loop.{Param}
use faculty_auxie_mm.Gatherer.Streamer.Methods.{
  fetch_orders, merged, merge_orders, symbol_param, fetch_open_orders, fetch_closed_orders,
}
use faculty_auxie_mm.Gatherer.Streamer.{
  key_of, Exchange, Param, codes, Streamer, get_observable, lookup, register, found_or,
  create_observable, StartedLoop, chosen_action, is_offered,
}
use faculty_auxie_mm.Prelude.Text.{Text, codes, text_Eq}
use faculty_auxie_mm.Prelude.{
  ◌≡◌, ◌∙◌, none, some, refl, List, Option, Bool, ℕ, ap, ◌∷◌, false, true, [], sym, ◌⊎◌, inl, inr,
  Bool-cases, or_default, arith,
}

module _ (action : Text) (exchange : Exchange) (fallback : Option Bool) (delay : Option ℕ)
    (symbol : Option Text) (params : List Param) where
  abbrev call : Streamer → Option ℕ × Streamer
  call = get_observable action exchange fallback delay symbol params

  -- Asking again under a key that has a subject gives that subject and starts nothing.
  get_observable-known :
      (s : Streamer) (subject : ℕ)
      → lookup (key_of action exchange symbol) s.observables ≡ some subject
      → call s ≡ (some subject, s)
  unfolding get_observable
  get_observable-known s subject h =
      let key = key_of action exchange symbol in
      ap (found_or (register key (create_observable key action exchange fallback delay params s)) s)
        h

  lookup-register :
      (key : Text) (created : Option ℕ × Streamer) (subject : ℕ)
      → (register key created).0 ≡ some subject
      → lookup key (register key created).1.observables ≡ some subject
  lookup-register key (none, s) subject h = cc
  lookup-register key (some a, s) subject h =
      lookup-insert key key a s.observables ∙ rw (beq_refl key) h

  lookup-found_or :
      (key : Text) (created : Option ℕ × Streamer) (s : Streamer) (o : Option ℕ) (subject : ℕ)
      → lookup key s.observables ≡ o
      → (created.0 ≡ some subject → lookup key created.1.observables ≡ some subject)
      → (found_or created s o).0 ≡ some subject
      → lookup key (found_or created s o).1.observables ≡ some subject
  lookup-found_or key created s none subject e c h = c h
  lookup-found_or key created s (some a) subject e c h = e ∙ h

  lookup-get_observable :
      (s : Streamer) (subject : ℕ)
      → (call s).0 ≡ some subject
      → lookup (key_of action exchange symbol) (call s).1.observables ≡ some subject
  unfolding get_observable
  lookup-get_observable s subject h =
      let key = key_of action exchange symbol in
      let created = create_observable key action exchange fallback delay params s in
      lookup-found_or key (register key created) s (lookup key s.observables) subject refl
        (lookup-register key created subject) h

-- Once a call has given a subject, every later call whose key is the same gives that subject and
-- leaves the service as it is: no second loop is started, whatever its action and its arguments.
pub get_observable_shared :
    (a b : Text) (exchange : Exchange) (fa fb : Option Bool) (da db : Option ℕ)
    (sa sb : Option Text) (pa pb : List Param) (s : Streamer) (subject : ℕ)
    → key_of a exchange sa ≡ key_of b exchange sb
    → (get_observable a exchange fa da sa pa s).0 ≡ some subject
    → get_observable b exchange fb db sb pb (get_observable a exchange fa da sa pa s).1
      ≡ (some subject, (get_observable a exchange fa da sa pa s).1)
get_observable_shared a b exchange fa fb da db sa sb pa pb s subject same h =
    get_observable-known b exchange fb db sb pb (get_observable a exchange fa da sa pa s).1 subject
      (rw (← same) (lookup-get_observable a exchange fa da sa pa s subject h))

open_key-eq-closed_key :
    (exchange : Exchange) (symbol : Option Text)
    → key_of (codes "fetchOpenOrders") exchange symbol
      ≡ key_of (codes "fetchClosedOrders") exchange symbol
unfolding key_of
open_key-eq-closed_key exchange symbol = refl

merged_same :
    (r : Option ℕ × Streamer) (fetch_open fetch_closed : Streamer → Option ℕ × Streamer) (a : ℕ)
    (b : Option ℕ)
    → ((s : Streamer) → (fetch_open s).0 ≡ some a → (fetch_closed (fetch_open s).1).0 ≡ some a)
    → (merge_orders r fetch_open fetch_closed).0 ≡ merged (some a) b
    → b ≡ some a
merged_same (some subject, s) fetch_open fetch_closed a b same h = cc
merged_same (none, s) fetch_open fetch_closed a b same h =
    let first : (fetch_open s).0 ≡ some a = cc in
    let second : (fetch_closed (fetch_open s).1).0 ≡ b = cc in sym second ∙ same s first

module _ (key : Text) where
  found_or-none :
      (created : Option ℕ × Streamer) (s : Streamer) (o : Option ℕ)
      → (created.0 ≡ none → created.1 ≡ s)
      → (found_or (register key created) s o).0 ≡ none
      → (found_or (register key created) s o).1 ≡ s
  found_or-none (none, s') s none c h = c h
  found_or-none (some a, s') s none c h = cc
  found_or-none created s (some a) c h = refl

  loops-found_or :
      (created : Option ℕ × Streamer) (s : Streamer) (o : Option ℕ) (a : ℕ)
      (started : List StartedLoop)
      → (created.0 ≡ some a → created.1.loops ≡ started)
      → (found_or (register key created) s o).0 ≡ some a
      → ((found_or (register key created) s o).1.loops ≡ s.loops)
        ⊎ ((found_or (register key created) s o).1.loops ≡ started)
  loops-found_or (none, s') s none a started c h = cc
  loops-found_or (some x, s') s none a started c h = inr (c h)
  loops-found_or created s (some x) a started c h = inl refl

module _ (action : Text) (exchange : Exchange) (fallback : Option Bool) (delay : Option ℕ)
    (symbol : Option Text) (params : List Param) where
  -- The loop that a call starts for a subject.
  abbrev pub loop_of : ℕ → StartedLoop
  loop_of subject = record {
    subject = subject;
    action = chosen_action action exchange (or_default fallback true);
    delay = or_default delay 3000;
    params = params;
  }

  create_observable-none :
      (key : Text) (s : Streamer)
      → (create_observable key action exchange fallback delay params s).0 ≡ none
      → (create_observable key action exchange fallback delay params s).1 ≡ s
  unfolding create_observable
  create_observable-none key s h =
      elim (Bool-cases
        (is_offered (chosen_action action exchange (or_default fallback true)) exchange)) [
          | inl offered ↦ absurd (cc (rw offered at h))
          | inr missing ↦ rw missing refl
        ]

  loops-create_observable :
      (key : Text) (s : Streamer) (a : ℕ)
      → (create_observable key action exchange fallback delay params s).0 ≡ some a
      → (create_observable key action exchange fallback delay params s).1.loops
        ≡ loop_of a ∷ s.loops
  unfolding create_observable
  loops-create_observable key s a h =
      elim (Bool-cases
        (is_offered (chosen_action action exchange (or_default fallback true)) exchange)) [
          | inl offered ↦
              let same =
                some-injective (or_default (lookup key s.observables) s.next_subject) a
                  (rw offered at h) in
              rw offered (ap (λ n. loop_of n ∷ s.loops) same)
          | inr missing ↦ absurd (cc (rw missing at h))
        ]

  get_observable-none :
      (s : Streamer)
      → (get_observable action exchange fallback delay symbol params s).0 ≡ none
      → (get_observable action exchange fallback delay symbol params s).1 ≡ s
  unfolding get_observable
  get_observable-none s h =
      let key = key_of action exchange symbol in
      found_or-none key (create_observable key action exchange fallback delay params s) s
        (lookup key s.observables) (create_observable-none key s) h

  loops-get_observable :
      (s : Streamer) (a : ℕ)
      → (get_observable action exchange fallback delay symbol params s).0 ≡ some a
      → ((get_observable action exchange fallback delay symbol params s).1.loops ≡ s.loops)
        ⊎ ((get_observable action exchange fallback delay symbol params s).1.loops
            ≡ loop_of a ∷ s.loops)
  unfolding get_observable
  loops-get_observable s a h =
      let key = key_of action exchange symbol in
      loops-found_or key (create_observable key action exchange fallback delay params s) s
        (lookup key s.observables) a (loop_of a ∷ s.loops) (loops-create_observable key s a) h

-- What two fallbacks that share a subject leave.
merge_orders-service :
    (r : Option ℕ × Streamer) (fetch_open fetch_closed : Streamer → Option ℕ × Streamer)
    (s : Streamer) (a : ℕ) (b : Option ℕ)
    → (r.0 ≡ none → r.1 ≡ s)
    → ((s' : Streamer)
        → (fetch_open s').0 ≡ some a
        → fetch_closed (fetch_open s').1 ≡ (some a, (fetch_open s').1))
    → (merge_orders r fetch_open fetch_closed).0 ≡ merged (some a) b
    → ((fetch_open s).0 ≡ some a) × ((merge_orders r fetch_open fetch_closed).1 ≡ (fetch_open s).1)
merge_orders-service (some x, s') fetch_open fetch_closed s a b kept shared h = cc
merge_orders-service (none, s') fetch_open fetch_closed s a b kept shared h =
    let first : (fetch_open s').0 ≡ some a = cc in
    let same = kept refl in
    (
      ap (λ t. (fetch_open t).0) (sym same) ∙ first,
      ap (λ p. p.1) (shared s' first) ∙ ap (λ t. (fetch_open t).1) same,
    )

only_fetched :
    (action : Text) (exchange : Exchange)
    → chosen_action action exchange (or_default (some false) true) ≡ action
unfolding chosen_action
only_fetched action exchange = ground arith

-- Where fetchOrders falls back to open and closed orders, and open orders give a subject, closed
-- orders give that same subject, so that the merge has it twice, and no loop is started but, if the
-- subject is new, one that calls fetchOpenOrders.
pub fetch_orders_merged :
    (exchange : Exchange) (symbol : Option Text) (delay : Option ℕ) (since limit params : Param)
    (s : Streamer) (a : ℕ) (b : Option ℕ)
    → (fetch_orders exchange symbol delay since limit params s).0 ≡ merged (some a) b
    → let (observed, s') = fetch_orders exchange symbol delay since limit params s in
      let started : StartedLoop = record {
        subject = a;
        action = codes "fetchOpenOrders";
        delay = or_default delay 3000;
        params = symbol_param symbol ∷ since ∷ limit ∷ params ∷ [];
      } in
      (observed ≡ merged (some a) (some a))
      × ((s'.loops ≡ s.loops) ⊎ (s'.loops ≡ started ∷ s.loops))
unfolding fetch_orders
fetch_orders_merged exchange symbol delay since limit params s a b h =
    let open_action = codes "fetchOpenOrders" in
    let closed_action = codes "fetchClosedOrders" in
    let args = symbol_param symbol ∷ since ∷ limit ∷ params ∷ [] in
    let r = get_observable (codes "fetchOrders") exchange (some false) delay symbol args s in
    let fetch_open = fetch_open_orders exchange symbol delay since limit params in
    let fetch_closed = fetch_closed_orders exchange symbol delay since limit params in
    let shared : (s' : Streamer)
        → (fetch_open s').0 ≡ some a
        → fetch_closed (fetch_open s').1 ≡ (some a, (fetch_open s').1) =
      λ s' e.
        get_observable_shared open_action closed_action exchange (some false) (some false) delay
          delay symbol symbol args args s' a (open_key-eq-closed_key exchange symbol) e in
    let same = merged_same r fetch_open fetch_closed a b (λ s' e. ap (λ p. p.0) (shared s' e)) h in
    let left =
      merge_orders-service r fetch_open fetch_closed s a b
        (get_observable-none (codes "fetchOrders") exchange (some false) delay symbol args s) shared
        h in
    let loops =
      rw (only_fetched open_action exchange) at
        (loops-get_observable open_action exchange (some false) delay symbol args s a left.0) in
    (h ∙ ap (merged (some a)) same, rw (left.1) loops)
