-- ===== src/ApiServer/Datastreams.antt =====
-- DatastreamRouter (packages/apiserver/src/routes/datastreamrouter.ts).
pub mod Sync
pub mod Laws
pub mod Handlers
pub mod Tests
use faculty_auxie_mm.ApiServer.Config.{
  WorkPlan, Settings, DbSyncWorkplan, Response, sent, could_not_save, thrown, invalid_request,
  already_exists, not_found,
}
use faculty_auxie_mm.Prelude.Text.{Text, text_eq, codes}
use faculty_auxie_mm.Prelude.{
  ◌∷◌, ◌++◌, if◌then◌else◌, ◌&&◌, none, some, true, false, [], List, Option, Bool, any, or_default,
}

-- `plan.tenant === tenant && plan.exchangeId === exchange`
abbrev pub is_plan : Text → Text → WorkPlan → Bool
is_plan tenant exchange plan = text_eq plan.tenant tenant && text_eq plan.exchange_id exchange

abbrev pub has_plan : Text → Text → List WorkPlan → Bool
has_plan tenant exchange plans = any (is_plan tenant exchange) plans

abbrev pub stream_key : Text → WorkPlan → Text → Text → Text
stream_key prefix plan data_point asset_pair =
    prefix ++ (plan.tenant ++ b'.' ∷ (plan.exchange_id ++ b'.' ∷ (data_point ++ b'.' ∷ asset_pair)))

abbrev pub includes : List Text → Text → Bool
includes points point = any (λ p. text_eq p point) points

-- what one asset pair adds to the assets
abbrev pub pair_assets : WorkPlan → Text → List Text
pair_assets plan asset_pair =
    (if includes plan.data_points (codes "watchOrderBook")
      then stream_key (codes "stream.") plan (codes "watchOrderBook") asset_pair
        ∷ stream_key (codes "stream.snapshot.") plan (codes "watchOrderBook") asset_pair
        ∷ []
      else [])
    ++ (if includes plan.data_points (codes "watchBalance")
        then (codes "stream."
            ++ (plan.tenant ++ b'.' ∷ (plan.exchange_id ++ codes ".watchBalance")))
          ∷ []
        else [])

abbrev pub assets_of_pairs : WorkPlan → List Text → List Text
assets_of_pairs plan [] = []
assets_of_pairs plan (p ∷ ps) = pair_assets plan p ++ assets_of_pairs plan ps

-- the tenant's datastream gets the assets; it is made where it is missing
unfoldable pub add_assets : Text → List Text → List DbSyncWorkplan → List DbSyncWorkplan
add_assets tenant assets [] = record { tenant_id = tenant; assets = assets } ∷ []
add_assets tenant assets (d ∷ ds) =
    let rest = add_assets tenant assets ds in
    if text_eq d.tenant_id tenant then record d { assets = d.assets ++ assets } ∷ ds else d ∷ rest

unfoldable pub sync_plans : List WorkPlan → List DbSyncWorkplan → List DbSyncWorkplan
sync_plans [] ds = ds
sync_plans (plan ∷ plans) ds =
    sync_plans plans (add_assets plan.tenant (assets_of_pairs plan plan.asset_pairs) ds)

-- the first plan of the loop that fits gets the new values
abbrev pub edit_first : WorkPlan → List WorkPlan → List WorkPlan
edit_first workplan [] = []
edit_first workplan (plan ∷ plans) =
    let rest = edit_first workplan plans in
    if is_plan workplan.tenant workplan.exchange_id plan
    then record plan {
      asset_pairs = workplan.asset_pairs;
      delay_on_fetch = workplan.delay_on_fetch;
      data_points = workplan.data_points;
    }
      ∷ plans
    else plan ∷ rest

-- `workplans.splice(workplans.indexOf(planToRemove), 1)` at the first plan that fits
abbrev pub remove_first : Text → Text → List WorkPlan → List WorkPlan
remove_first tenant exchange [] = []
remove_first tenant exchange (plan ∷ plans) =
    let rest = remove_first tenant exchange plans in
    if is_plan tenant exchange plan then plans else plan ∷ rest

module _ (settings : Settings) where
  -- DatastreamRouter.syncDbsync
  unfoldable pub sync_dbsync : List WorkPlan → settings.State → settings.State × Bool
  sync_dbsync plans s =
      settings.set_dbsync (record (settings.dbsync s) { workplans = sync_plans plans [] }) s

  -- the end of each handler: both configurations are written
  abbrev pub synced : settings.State × Bool → settings.State × Response
  synced (s, true) = (s, sent)
  synced (s, false) = (s, could_not_save)

  abbrev pub saved : List WorkPlan → settings.State × Bool → settings.State × Response
  saved plans (s, true) = synced (sync_dbsync plans s)
  saved plans (s, false) = (s, could_not_save)

  unfoldable pub save_plans : List WorkPlan → settings.State → settings.State × Response
  save_plans plans s =
      saved plans
        (settings.set_gatherer (record (settings.gatherer s) { workplans = some plans }) s)

  unfoldable pub add_datastream : WorkPlan → settings.State → settings.State × Response
  add_datastream workplan s =
      let plans = or_default (settings.gatherer s).workplans [] in
      if has_plan workplan.tenant workplan.exchange_id plans
      then (s, already_exists)
      else save_plans (plans ++ workplan ∷ []) s

  -- the loop over workplans that are undefined throws
  abbrev pub edit_plans :
      WorkPlan → Option (List WorkPlan) → settings.State → settings.State × Response
  edit_plans workplan none s = (s, thrown)
  edit_plans workplan (some plans) s =
      if has_plan workplan.tenant workplan.exchange_id plans
      then save_plans (edit_first workplan plans) s
      else (s, not_found)

  unfoldable pub edit_datastream :
      Text → Text → WorkPlan → settings.State → settings.State × Response
  edit_datastream tenant exchange workplan s =
      if text_eq tenant workplan.tenant && text_eq exchange workplan.exchange_id
      then edit_plans workplan (settings.gatherer s).workplans s
      else (s, invalid_request)

  abbrev pub delete_plan :
      Text → Text → Option (List WorkPlan) → settings.State → settings.State × Response
  delete_plan tenant exchange none s = (s, thrown)
  delete_plan tenant exchange (some plans) s =
      if has_plan tenant exchange plans
      then save_plans (remove_first tenant exchange plans) s
      else (s, not_found)

  unfoldable pub delete_datastream : Text → Text → settings.State → settings.State × Response
  delete_datastream tenant exchange s =
      delete_plan tenant exchange (settings.gatherer s).workplans s

-- The requests of the router that change something.
pub data Request : Type 0 where
  add : WorkPlan → Request
  edit : Text → Text → WorkPlan → Request
  delete : Text → Text → Request

module _ (settings : Settings) where
  unfoldable pub handle : Request → settings.State → settings.State × Response
  handle (add workplan) s = add_datastream settings workplan s
  handle (edit tenant exchange workplan) s = edit_datastream settings tenant exchange workplan s
  handle (delete tenant exchange) s = delete_datastream settings tenant exchange s

  -- listDatastreams, with no plans where there is no list yet
  abbrev pub plans_of : settings.State → List WorkPlan
  plans_of s = or_default (settings.gatherer s).workplans []
