-- ===== src/Web/GlobalContext/Tests.antt =====
-- A tenant with two plans and another with one.
use faculty_auxie_mm.Web.GlobalContext.Laws.{streams_of, update_gatherer-get_services}
use faculty_auxie_mm.Web.GlobalContext.{
  GlobalData, Json, WebRedis, dbsync_plans, get_services, rows_of_exchanges, update_gatherer,
}
use faculty_auxie_mm.Web.Address.{is_unsafe}
use faculty_auxie_mm.Web.Address.Tests.{decoding_webdis}
use faculty_auxie_mm.Prelude.Dict.{Dict, insert, lookup, lookup-insert}
use faculty_auxie_mm.ApiServer.Datastreams.Sync.{IsDistinct, assets_of}
use faculty_auxie_mm.ApiServer.Config.{
  AgentConfiguration, Configuration, DbSyncConfiguration, ExchangeCfg, WorkPlan,
}
use faculty_auxie_mm.Prelude.Text.{Text, codes, text_Eq}
use faculty_auxie_mm.Prelude.{
  ◌≡◌, ◌∷◌, ◌++◌, ◌==◌, [], none, some, true, false, refl, arith, List, Option, or_default,
  if◌then◌else◌,
}

abbrev plan : Text → Text → List Text → WorkPlan
plan tenant exchange data_points = record {
  exchange_id = exchange;
  tenant = tenant;
  asset_pairs = codes "BTC/USDT" ∷ codes "ETH/USDT" ∷ [];
  data_points = data_points;
  delay_on_fetch = 100;
}

abbrev plans : List WorkPlan
plans =
    plan (codes "A") (codes "binance") (codes "watchBalance" ∷ codes "watchOrders" ∷ [])
    ∷ plan (codes "B") (codes "binance") (codes "watchOrderBook" ∷ [])
    ∷ plan (codes "A") (codes "kraken") (codes "watchBalance" ∷ [])
    ∷ []

abbrev agent : AgentConfiguration
agent = record { id = codes "1"; status = codes "started"; name = codes "agent" }

abbrev keys : ExchangeCfg
keys = record { api_key = codes "k"; api_secret = none; test = false; password = none }

abbrev old : Configuration
old = record { environment = codes "dev"; agent = agent; workplans = none; exchanges = none }

abbrev given : Configuration
given = record {
  environment = codes "dev";
  agent = agent;
  workplans = some plans;
  exchanges = some ((codes "A", (codes "binance", keys) ∷ (codes "kraken", keys) ∷ []) ∷ []);
}

abbrev old_dbsync : DbSyncConfiguration
old_dbsync = record { agent = agent; workplans = [] }

-- Only the first pair of a plan is copied.
streams_of_A :
    streams_of (codes "A") plans
    ≡ codes "stream.A.binance.watchBalance"
      ∷ codes "stream.A.binance.watchOrders.BTC/USDT"
      ∷ codes "stream.A.kraken.watchBalance"
      ∷ []
unfolding streams_of
streams_of_A = refl

abbrev executor_given : Configuration
executor_given = record old { exchanges = given.exchanges }

abbrev dbsync_given : DbSyncConfiguration
dbsync_given = record old_dbsync { workplans = dbsync_plans plans [] }

abbrev dictionary : WebRedis
dictionary = record {
  State = Dict Text Text;
  get = λ s k. lookup k s;
  set = λ k v s. (insert k v s, true);
  get-set = λ k j v s. lookup-insert k j v s;
}

abbrev printed_configuration : Option (List WorkPlan) → Text
printed_configuration none = codes "E/1.5+" ++ 10 ∷ []
printed_configuration (some workplans) = codes "G/1.5+" ++ 10 ∷ []

abbrev parsed_configuration : Text → Option Configuration
parsed_configuration [] = none
parsed_configuration (c ∷ t) = if c == b'G' then some given else some executor_given

-- A notation for the three settings of the example
abbrev letters : Json
letters = record {
  stringify_configuration = λ c. printed_configuration c.workplans;
  stringify_dbsync = λ c. codes "D/1.5" ++ 10 ∷ [];
  parse_configuration = parsed_configuration;
  parse_dbsync = λ t. some dbsync_given;
}

update_gatherer-get_services_example :
    let updated =
      update_gatherer decoding_webdis letters dictionary given (some old) (some old_dbsync) [] in
    (updated.1 ≡ some true)
    × ((read : GlobalData) × (e : Configuration) × (d : DbSyncConfiguration) × (get_services
            decoding_webdis letters dictionary updated.0
          ≡ some read)
        × (read.gatherer ≡ some given)
        × (read.data_streams ≡ plans)
        × (read.exchanges ≡ rows_of_exchanges (or_default given.exchanges []))
        × (read.executor ≡ some e)
        × (e.exchanges ≡ given.exchanges)
        × (read.dbsync ≡ some d)
        × IsDistinct d.workplans
        × ((t : Text) → assets_of t d.workplans ≡ streams_of t plans))
update_gatherer-get_services_example =
    update_gatherer-get_services decoding_webdis letters dictionary (λ k v s. refl) given plans old
      old_dbsync [] refl (ground arith) (ground arith) (ground arith) (ground arith) refl refl refl

-- A backslash, here of an escaped quote, is among what does not arrive as it is printed.
backslash_unsafe : is_unsafe 92 ≡ true
backslash_unsafe = refl
