-- ===== src/ApiServer/Datastreams/Tests.antt =====
-- Examples of datastream requests.
use faculty_auxie_mm.ApiServer.Datastreams.Handlers.{
  add_datastream_sent, delete_datastream_sent, handle-IsUnique,
}
use faculty_auxie_mm.ApiServer.Datastreams.{
  add_datastream, delete_datastream, codes, sync_plans, plans_of, save_plans, sync_dbsync, handle,
  has_plan, add, is_plan,
}
use faculty_auxie_mm.ApiServer.Datastreams.Laws.{IsUnique}
use faculty_auxie_mm.ApiServer.Datastreams.Sync.{IsDistinct, assets_of, wanted, sync_plans_assets}
use faculty_auxie_mm.ApiServer.Config.{WorkPlan, Memory, AgentConfiguration, Configuration, memory}
use faculty_auxie_mm.Prelude.Text.{Text, codes}
use faculty_auxie_mm.Prelude.{filter, not, ◌≡◌, ◌∷◌, none, some, false, refl, [], List, Option}

abbrev plan : Text → Text → WorkPlan
plan tenant exchange = record {
  exchange_id = exchange;
  tenant = tenant;
  asset_pairs = codes "ETH/BTC" ∷ [];
  data_points = codes "watchOrderBook" ∷ codes "watchBalance" ∷ [];
  delay_on_fetch = 3000;
}

abbrev kucoin : WorkPlan
kucoin = plan (codes "A") (codes "kucoin")

abbrev binance : WorkPlan
binance = plan (codes "A") (codes "binance")

abbrev agent_of : Text → AgentConfiguration
agent_of id = record { id = id; status = codes "started"; name = id }

abbrev configured : Text → Option (List WorkPlan) → Configuration
configured id plans = record {
  environment = codes "dev";
  agent = agent_of id;
  workplans = plans;
  exchanges = none;
}

abbrev start : Memory
start = record {
  gatherer_value = configured (codes "GATHERER") (some (kucoin ∷ []));
  executor_value = configured (codes "EXECUTOR") none;
  dbsync_value = record { agent = agent_of (codes "DBSYNC"); workplans = [] };
}

sync_plans_assets_example :
    IsDistinct (sync_plans (kucoin ∷ binance ∷ []) [])
    × ((t : Text)
        → assets_of t (sync_plans (kucoin ∷ binance ∷ []) []) ≡ wanted t (kucoin ∷ binance ∷ []))
sync_plans_assets_example = sync_plans_assets (kucoin ∷ binance ∷ [])

handle-IsUnique_example : IsUnique (plans_of memory (handle memory (add binance) start).0)
handle-IsUnique_example = handle-IsUnique memory (add binance) start (refl, tt)

add_datastream_sent_example :
    (has_plan (codes "A") (codes "binance") (plans_of memory start) ≡ false)
    × (plans_of memory (add_datastream memory binance start).0 ≡ kucoin ∷ binance ∷ [])
    × ((memory.dbsync (add_datastream memory binance start).0).workplans
        ≡ sync_plans (kucoin ∷ binance ∷ []) [])
unfolding add_datastream save_plans sync_dbsync
add_datastream_sent_example = add_datastream_sent memory binance start refl

delete_datastream_sent_example :
    let after = (delete_datastream memory (codes "A") (codes "kucoin") start).0 in
    (has_plan (codes "A") (codes "kucoin") (plans_of memory after) ≡ false)
    × (plans_of memory after
        ≡ filter (λ p. not (is_plan (codes "A") (codes "kucoin") p)) (plans_of memory start))
    × ((memory.dbsync after).workplans ≡ sync_plans (plans_of memory after) [])
unfolding delete_datastream save_plans sync_dbsync
delete_datastream_sent_example =
    delete_datastream_sent memory (codes "A") (codes "kucoin") start (refl, tt) refl
