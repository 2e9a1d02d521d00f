-- ===== src/Executor/Service.antt =====
-- The executor's set-up and its request handler for all tenants (packages/executor/src/index.ts). Each
-- set-up ends before the settings change again. A service is known by its tenant and the exchanges of
-- its ExchangeService. A handler that throws never answers, which express leaves as it is.
pub mod Laws
pub mod Requests
pub mod Tests
use faculty_auxie_mm.Exchanges.{
  Exchange, ExchangeClass, TenantExchanges, get_exchange, initialize_exchanges,
}
use faculty_auxie_mm.Executor.{Command, Market, Redis, Retry, World, submit_handler, create, cancel}
use faculty_auxie_mm.Executor
use faculty_auxie_mm.Prelude.Count.{contains}
use faculty_auxie_mm.Prelude.Dict.{Dict, insert, keys, lookup}
use faculty_auxie_mm.Prelude.Text.{Text, text_Eq}
use faculty_auxie_mm.Prelude.{
  ◌∷◌, ◌++◌, [], none, some, true, false, not, List, Option, Bool, filter, if◌then◌else◌,
}

-- The part of ExecutorConfiguration that the code reads
pub record ExecutorConfiguration : Type 0 where
  pub started : Bool
  pub exchanges : Option TenantExchanges

-- `tradingServicesMap`, and the tenants whose commands are listened to.
pub record Server : Type 0 where
  pub services : Dict Text (Dict Text Exchange)
  pub listening : List Text

abbrev pub new_server : Server
new_server = record { services = []; listening = [] }

-- The loop over `Object.keys(agentconfiguration.exchanges)`
unfoldable pub start_services : List Text → Dict Text Exchange → Server → Server
start_services [] exchanges s = s
start_services (tenant ∷ tenants) exchanges s = start_services tenants exchanges (record {
  services = insert tenant exchanges s.services;
  listening = s.listening ++ tenant ∷ [];
})

-- Where an exchange cannot be made, no service starts.
abbrev pub started_services : List Text → Server → Dict Text Exchange × Bool → Server
started_services tenants s (exchanges, false) = s
started_services tenants s (exchanges, true) = start_services tenants exchanges s

module _ (classes : Text → Option ExchangeClass) (ftx : ExchangeClass)
    (decrypt : Text → Option Text) where
  abbrev pub setup_exchanges : Option TenantExchanges → Server → Server
  setup_exchanges none s = s
  setup_exchanges (some exchanges) s =
      started_services (keys exchanges) s (initialize_exchanges classes ftx decrypt exchanges [])

  -- SetupWorker
  unfoldable pub setup_services : ExecutorConfiguration → Server → Server
  setup_services c s = if c.started then setup_exchanges c.exchanges s else s

  -- The callback of onInvalidate: every service is disconnected, and the map is cleared.
  unfoldable pub invalidate : ExecutorConfiguration → Server → Server
  invalidate c s = setup_services c (record {
    services = [];
    listening = filter (λ tenant. not (contains (keys s.services) tenant)) s.listening;
  })

  unfoldable pub run_settings : List ExecutorConfiguration → Server → Server
  run_settings [] s = s
  run_settings (c ∷ cs) s = run_settings cs (invalidate c s)

module _ (market : Market) (redis : Redis) (retry : Retry) (tenant exchange_id : Text) where
  abbrev pub Systems : Type 0
  Systems = World market redis retry tenant exchange_id

  abbrev pub answered_by : Systems × Executor.Answer → Systems × Option Executor.Answer
  answered_by (w, answer) = (w, some answer)

  -- createOrder and cancelOrder look the exchange up before anything else.
  abbrev pub with_exchange : Option Exchange → Command → Systems → Systems × Option Executor.Answer
  with_exchange none (create submit_order) w = (w, none)
  with_exchange none (cancel params) w = (w, none)
  with_exchange none Executor.other w =
      answered_by (submit_handler market redis retry tenant exchange_id true Executor.other w)
  with_exchange (some ex) command w =
      answered_by (submit_handler market redis retry tenant exchange_id true command w)

  abbrev pub with_service :
      Option (Dict Text Exchange) → Command → Systems → Systems × Option Executor.Answer
  with_service none command w =
      answered_by (submit_handler market redis retry tenant exchange_id false command w)
  with_service (some exchanges) command w =
      with_exchange (get_exchange exchange_id tenant exchanges) command w

  -- submitHandler of the service that there is for the tenant; `none` is a request without an answer.
  unfoldable pub handle_request : Server → Command → Systems → Systems × Option Executor.Answer
  handle_request s command w = with_service (lookup tenant s.services) command w
