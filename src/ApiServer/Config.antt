-- ===== src/ApiServer/Config.antt =====
-- The configurations that the services keep in redis (packages/utils/src/gatherer.config.ts,
-- executor.config.ts, dbsync.config.ts), and what a request handler ends with.
-- Redis is not part of the repository: its four keys of settings are a parameter, with what GET
-- and SET do. A SET that does not answer OK has written nothing. The settings of every service are
-- there: a service writes its own when it starts.
use faculty_auxie_mm.Prelude.Dict.{Dict}
use faculty_auxie_mm.Prelude.Text.{Text}
use faculty_auxie_mm.Prelude.{◌≡◌, true, false, refl, List, Option, Bool, ℕ}

pub record AgentConfiguration : Type 0 where
  pub id : Text
  pub status : Text
  pub name : Text

pub record WorkPlan : Type 0 where
  pub exchange_id : Text
  pub tenant : Text
  pub asset_pairs : List Text
  pub data_points : List Text
  pub delay_on_fetch : ℕ

pub record ExchangeCfg : Type 0 where
  pub api_key : Text
  pub api_secret : Option Text
  pub test : Bool
  pub password : Option Text

abbrev pub ExchangeKeys : Type 0
ExchangeKeys = Dict Text ExchangeCfg

abbrev pub TenantExchangeKeys : Type 0
TenantExchangeKeys = Dict Text ExchangeKeys

-- GathererConfiguration; ExecutorConfiguration has no workplans.
pub record Configuration : Type 0 where
  pub environment : Text
  pub agent : AgentConfiguration
  pub workplans : Option (List WorkPlan)
  pub exchanges : Option TenantExchangeKeys

pub record DbSyncWorkplan : Type 0 where
  pub tenant_id : Text
  pub assets : List Text

pub record DbSyncConfiguration : Type 0 where
  pub agent : AgentConfiguration
  pub workplans : List DbSyncWorkplan

pub record Settings : Type 1 where
  pub State : Type 0
  pub gatherer : State → Configuration
  pub executor : State → Configuration
  pub dbsync : State → DbSyncConfiguration
  -- SET, and whether it answered OK
  pub set_gatherer : Configuration → State → State × Bool
  pub set_executor : Configuration → State → State × Bool
  pub set_dbsync : DbSyncConfiguration → State → State × Bool
  pub gatherer_written :
      (c : Configuration) (s : State)
      → (set_gatherer c s).1 ≡ true
      → (gatherer (set_gatherer c s).0 ≡ c)
        × (executor (set_gatherer c s).0 ≡ executor s)
        × (dbsync (set_gatherer c s).0 ≡ dbsync s)
  pub executor_written :
      (c : Configuration) (s : State)
      → (set_executor c s).1 ≡ true
      → (executor (set_executor c s).0 ≡ c)
        × (gatherer (set_executor c s).0 ≡ gatherer s)
        × (dbsync (set_executor c s).0 ≡ dbsync s)
  pub dbsync_written :
      (c : DbSyncConfiguration) (s : State)
      → (set_dbsync c s).1 ≡ true
      → (dbsync (set_dbsync c s).0 ≡ c)
        × (gatherer (set_dbsync c s).0 ≡ gatherer s)
        × (executor (set_dbsync c s).0 ≡ executor s)
  pub gatherer_refused :
      (c : Configuration) (s : State) → (set_gatherer c s).1 ≡ false → (set_gatherer c s).0 ≡ s
  pub executor_refused :
      (c : Configuration) (s : State) → (set_executor c s).1 ≡ false → (set_executor c s).0 ≡ s
  pub dbsync_refused :
      (c : DbSyncConfiguration) (s : State) → (set_dbsync c s).1 ≡ false → (set_dbsync c s).0 ≡ s

-- `res.sendStatus(200)`, `next(new Error(...))`, or an exception that no handler catches.
pub data Response : Type 0 where
  sent already_exists not_found invalid_request could_not_save : Response
  tenant_not_found already_in_state invalid_state thrown : Response

pub never {ℓ} : {A : Type ℓ} → true ≡ false → A
never h = cc

-- Settings in memory that take every write.
pub record Memory : Type 0 where
  pub gatherer_value : Configuration
  pub executor_value : Configuration
  pub dbsync_value : DbSyncConfiguration

abbrev pub memory : Settings
memory = record {
  State = Memory;
  gatherer = λ s. s.gatherer_value;
  executor = λ s. s.executor_value;
  dbsync = λ s. s.dbsync_value;
  set_gatherer = λ c s. (record s { gatherer_value = c }, true);
  set_executor = λ c s. (record s { executor_value = c }, true);
  set_dbsync = λ c s. (record s { dbsync_value = c }, true);
  gatherer_written = λ c s h. (refl, refl, refl);
  executor_written = λ c s h. (refl, refl, refl);
  dbsync_written = λ c s h. (refl, refl, refl);
  gatherer_refused = λ c s h. never h;
  executor_refused = λ c s h. never h;
  dbsync_refused = λ c s h. never h;
}
