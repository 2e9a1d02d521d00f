-- ===== src/Executor/Service/Laws.antt =====
-- Whom the executor (packages/executor/src/index.ts) serves after its settings have changed.
use faculty_auxie_mm.Exchanges.{Exchange, ExchangeClass, TenantExchanges, initialize_exchanges}
use faculty_auxie_mm.Executor.Service.{
  ExecutorConfiguration, Server, start_services, started_services, setup_exchanges, setup_services,
  invalidate, run_settings, filter,
}
use faculty_auxie_mm.Prelude.Count.{contains, count-append, count-filter}
use faculty_auxie_mm.Prelude.Dict.{Dict, insert, keys, lookup, lookup-insert}
use faculty_auxie_mm.Prelude.Text.{Text, text_Eq, text_eq_iff}
use faculty_auxie_mm.Prelude.{
  ◌≡◌, ◌∷◌, ◌++◌, ◌||◌, [], none, some, true, false, List, Option, Bool, refl, arith, if◌then◌else◌,
  is_some, Bool-cases, inl, inr, not, ◌&&◌, filter,
}

-- The tenants whose commands are listened to are those that have a service.
abbrev pub IsListening : Server → Type 0
IsListening s = (t : Text) → contains s.listening t ≡ is_some (lookup t s.services)

contains-keys :
    (t : Text) (d : Dict Text (Dict Text Exchange)) → contains (keys d) t ≡ is_some (lookup t d)
contains-keys t [] = ground arith
contains-keys t ((k, v) ∷ d) = ground (arith, contains-keys t d, text_eq_iff k t, text_eq_iff t k)

start_services-lookup :
    (tenants : List Text) (exchanges : Dict Text Exchange) (s : Server) (t : Text)
    → lookup t (start_services tenants exchanges s).services
      ≡ (if contains tenants t then some exchanges else lookup t s.services)
unfolding start_services
start_services-lookup [] exchanges s t = ground arith
start_services-lookup (tenant ∷ tenants) exchanges s t = ground (
  arith,
  start_services-lookup tenants exchanges
      (record {
        services = insert tenant exchanges s.services;
        listening = s.listening ++ tenant ∷ [];
      })
      t,
  lookup-insert tenant t exchanges s.services,
  text_eq_iff tenant t,
  text_eq_iff t tenant,
)

start_services-listening :
    (tenants : List Text) (exchanges : Dict Text Exchange) (s : Server) (t : Text)
    → contains (start_services tenants exchanges s).listening t
      ≡ contains tenants t || contains s.listening t
unfolding start_services
start_services-listening [] exchanges s t = ground arith
start_services-listening (tenant ∷ tenants) exchanges s t = ground (
  arith,
  start_services-listening tenants exchanges
      (record {
        services = insert tenant exchanges s.services;
        listening = s.listening ++ tenant ∷ [];
      })
      t,
  count-append t s.listening (tenant ∷ []),
)

started_services-IsListening :
    (tenants : List Text) (s : Server) (r : Dict Text Exchange × Bool)
    → IsListening s
    → IsListening (started_services tenants s r)
started_services-IsListening tenants s (exchanges, false) h t = h t
started_services-IsListening tenants s (exchanges, true) h t = ground (
  arith,
  h t,
  start_services-lookup tenants exchanges s t,
  start_services-listening tenants exchanges s t,
)

-- What is left of a server once its services are disconnected.
abbrev cleared : Server → Server
cleared s = record {
  services = [];
  listening = filter (λ tenant. not (contains (keys s.services) tenant)) s.listening;
}

cleared-IsListening : (s : Server) → IsListening s → IsListening (cleared s)
cleared-IsListening s h t = ground (
  arith,
  h t,
  contains-keys t s.services,
  count-filter (λ tenant. not (contains (keys s.services) tenant)) t s.listening,
)

module _ (classes : Text → Option ExchangeClass) (ftx : ExchangeClass)
    (decrypt : Text → Option Text) where
  setup_exchanges-IsListening :
      (o : Option TenantExchanges) (s : Server)
      → IsListening s
      → IsListening (setup_exchanges classes ftx decrypt o s)
  setup_exchanges-IsListening none s h = h
  setup_exchanges-IsListening (some exchanges) s h =
      started_services-IsListening (keys exchanges) s _ h

  invalidate-IsListening :
      (c : ExecutorConfiguration) (s : Server)
      → IsListening s
      → IsListening (invalidate classes ftx decrypt c s)
  unfolding invalidate setup_services
  invalidate-IsListening c s h = elim (Bool-cases c.started) [
    | inl started ↦
        rw started (setup_exchanges-IsListening c.exchanges (cleared s) (cleared-IsListening s h))
    | inr stopped ↦ rw stopped (cleared-IsListening s h)
  ]

  pub run_settings-IsListening :
      (cs : List ExecutorConfiguration) (s : Server)
      → IsListening s
      → IsListening (run_settings classes ftx decrypt cs s)
  unfolding run_settings
  run_settings-IsListening [] s h = h
  run_settings-IsListening (c ∷ cs) s h =
      run_settings-IsListening cs (invalidate classes ftx decrypt c s)
        (invalidate-IsListening c s h)

  pub run_settings-last :
      (cs : List ExecutorConfiguration) (c : ExecutorConfiguration) (s : Server)
      → run_settings classes ftx decrypt (cs ++ c ∷ []) s
        ≡ invalidate classes ftx decrypt c (run_settings classes ftx decrypt cs s)
  unfolding run_settings
  run_settings-last [] c s = refl
  run_settings-last (d ∷ cs) c s = run_settings-last cs c (invalidate classes ftx decrypt d s)

  -- The service of a tenant depends on the newest settings alone.
  pub lookup-invalidate :
      (c : ExecutorConfiguration) (exchanges : TenantExchanges) (s : Server) (t : Text)
      → c.exchanges ≡ some exchanges
      → (initialize_exchanges classes ftx decrypt exchanges []).1 ≡ true
      → lookup t (invalidate classes ftx decrypt c s).services ≡ (
          if c.started && contains (keys exchanges) t
          then some (initialize_exchanges classes ftx decrypt exchanges []).0
          else none)
  unfolding invalidate setup_services
  lookup-invalidate c exchanges s t e h = elim (Bool-cases c.started) [
    | inl started ↦
        rw (started, e, h)
          (start_services-lookup (keys exchanges)
            (initialize_exchanges classes ftx decrypt exchanges []).0 (cleared s) t)
    | inr stopped ↦ rw stopped refl
  ]
