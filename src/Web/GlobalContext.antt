-- ===== src/Web/GlobalContext.antt =====
-- The settings that the web front end reads and writes (packages/web/src/contexts/GlobalContext.js)
-- through webdis, a front end of redis: as JSON, which an address carries. Here is what concerns the gatherer, the executor and dbsync;
-- the settings of the other services are read and written as they stand.
pub mod Laws
pub mod Tests
use faculty_auxie_mm.ApiServer.Config.{
  Configuration, DbSyncConfiguration, DbSyncWorkplan, ExchangeCfg, ExchangeKeys, TenantExchangeKeys,
  WorkPlan,
}
use faculty_auxie_mm.Web.Address.{Webdis, escape_command, escape_settings}
use faculty_auxie_mm.ApiServer.Datastreams.{add_assets}
use faculty_auxie_mm.Prelude.Text.{Text, codes, text_eq}
use faculty_auxie_mm.Prelude.{
  ◌≡◌, ◌∷◌, ◌++◌, ◌&&◌, [], none, some, true, false, List, Option, Bool, if◌then◌else◌, map,
  or_default,
}

pub record ExchangeRow : Type 0 where
  pub tenant : Text
  pub exchange : Text
  pub cfg : ExchangeCfg

pub record GlobalData : Type 0 where
  pub exchanges : List ExchangeRow
  pub data_streams : List WorkPlan
  pub gatherer : Option Configuration
  pub executor : Option Configuration
  pub dbsync : Option DbSyncConfiguration

-- The two loops of getServices. A tenant or an exchange without a name is passed over.
abbrev pub rows_of_tenant : Text → ExchangeKeys → List ExchangeRow
rows_of_tenant tenant [] = []
rows_of_tenant tenant ((exchange, cfg) ∷ rest) =
    let rows = rows_of_tenant tenant rest in
    if text_eq exchange []
    then rows
    else record { tenant = tenant; exchange = exchange; cfg = cfg } ∷ rows

abbrev pub rows_of_exchanges : TenantExchangeKeys → List ExchangeRow
rows_of_exchanges [] = []
rows_of_exchanges ((tenant, exchanges) ∷ rest) =
    let rows = rows_of_exchanges rest in
    if text_eq tenant [] then rows else rows_of_tenant tenant exchanges ++ rows

-- `'.' + workplan.assetPairs[0]`, in which a missing pair becomes a word
abbrev pub suffix_of : WorkPlan → Text → Text
suffix_of workplan data_point =
    if text_eq data_point (codes "watchBalance")
    then []
    else b'.' ∷ elim workplan.asset_pairs [ [] ↦ codes "undefined" | ◌∷◌ pair pairs ↦ pair ]

-- the stream of one data point
abbrev pub asset_of : WorkPlan → Text → Text
asset_of workplan data_point =
    codes "stream."
    ++ (workplan.tenant
        ++ b'.' ∷ (workplan.exchange_id ++ b'.' ∷ (data_point ++ suffix_of workplan data_point)))

-- The loop over the gatherer's workplans: the plan of the tenant is found or made, and gets the
-- assets at its end.
unfoldable pub dbsync_plans : List WorkPlan → List DbSyncWorkplan → List DbSyncWorkplan
dbsync_plans [] ds = ds
dbsync_plans (w ∷ ws) ds = dbsync_plans ws (add_assets w.tenant (map (asset_of w) w.data_points) ds)

-- The keys of redis: a SET that is taken stores its value, and one that is refused changes nothing.
pub record WebRedis : Type 1 where
  pub State : Type 0
  pub get : State → Text → Option Text
  pub set : Text → Text → State → State × Bool
  pub get-set :
      (k j v : Text) (s : State)
      → get (set k v s).0 j ≡ (if (set k v s).1 && text_eq k j then some v else get s j)

-- JSON.stringify and JSON.parse, which throws where a text is no JSON.
pub record Json : Type 0 where
  pub stringify_configuration : Configuration → Text
  pub stringify_dbsync : DbSyncConfiguration → Text
  pub parse_configuration : Text → Option Configuration
  pub parse_dbsync : Text → Option DbSyncConfiguration

abbrev pub gatherer_key : Text
gatherer_key = codes "config.settings.GATHERER"

abbrev pub executor_key : Text
executor_key = codes "config.settings.EXECUTOR"

abbrev pub dbsync_key : Text
dbsync_key = codes "config.settings.DBSYNC"

-- A key that there is not is null, and so is what is parsed then. The outer `none` is an exception.
abbrev pub or_null : {A : Type 0} → Option A → Option (Option A)
or_null none = none
or_null (some a) = some (some a)

abbrev pub parsed_or_null : {A : Type 0} → (Text → Option A) → Option Text → Option (Option A)
parsed_or_null parse none = some none
parsed_or_null parse (some t) = or_null (parse t)

abbrev pub exchanges_of : Option Configuration → List ExchangeRow
exchanges_of none = []
exchanges_of (some c) = rows_of_exchanges (or_default c.exchanges [])

abbrev pub data_streams_of : Option Configuration → List WorkPlan
data_streams_of none = []
data_streams_of (some c) = or_default c.workplans []

abbrev pub global_data :
    Option (Option Configuration)
    → Option (Option Configuration)
    → Option (Option DbSyncConfiguration)
    → Option GlobalData
global_data none executor dbsync = none
global_data (some gatherer) none dbsync = none
global_data (some gatherer) (some executor) none = none
global_data (some gatherer) (some executor) (some dbsync) = some (record {
  exchanges = exchanges_of gatherer;
  data_streams = data_streams_of gatherer;
  gatherer = gatherer;
  executor = executor;
  dbsync = dbsync;
})

module _ (webdis : Webdis) (json : Json) (redis : WebRedis) where
  -- getServices
  unfoldable pub get_services : redis.State → Option GlobalData
  get_services s =
      global_data (parsed_or_null json.parse_configuration (redis.get s gatherer_key))
        (parsed_or_null json.parse_configuration (redis.get s executor_key))
        (parsed_or_null json.parse_dbsync (redis.get s dbsync_key))

  -- A request that stores settings, and whether it is answered with OK
  abbrev pub store_configuration : Text → Configuration → redis.State → redis.State × Bool
  store_configuration key c s =
      redis.set key (webdis.received (escape_settings (json.stringify_configuration c))) s

  abbrev pub store_dbsync : DbSyncConfiguration → redis.State → redis.State × Bool
  store_dbsync c s =
      redis.set dbsync_key (webdis.received (escape_command (json.stringify_dbsync c))) s

  -- updateService for the gatherer, with the settings of the executor and of dbsync that were read
  -- before. It goes on whatever redis answers, and throws, here without an answer, where it is given
  -- no workplans.
  abbrev pub update_executor : Configuration → Option Configuration → redis.State → redis.State
  update_executor param none s = s
  update_executor param (some executor) s =
      (store_configuration executor_key (record executor { exchanges = param.exchanges }) s).0

  abbrev pub update_dbsync :
      Option (List WorkPlan) → Option DbSyncConfiguration → redis.State → Option redis.State
  update_dbsync workplans none s = some s
  update_dbsync none (some dbsync) s = none
  update_dbsync (some workplans) (some dbsync) s =
      some (store_dbsync (record dbsync { workplans = dbsync_plans workplans [] }) s).0

  abbrev pub finished : redis.State → Bool → Option redis.State → redis.State × Option Bool
  finished before ok none = (before, none)
  finished before ok (some s) = (s, some ok)

  unfoldable pub update_gatherer :
      Configuration
      → Option Configuration
      → Option DbSyncConfiguration
      → redis.State
      → redis.State × Option Bool
  unfolding dbsync_plans
  update_gatherer param executor dbsync s =
      let (written, ok) = store_configuration gatherer_key param s in
      let for_executor = update_executor param executor written in
      finished for_executor ok (update_dbsync param.workplans dbsync for_executor)
