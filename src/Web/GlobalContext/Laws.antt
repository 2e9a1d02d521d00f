-- ===== src/Web/GlobalContext/Laws.antt =====
-- What the web front end reads after it has written the gatherer's settings
-- (packages/web/src/contexts/GlobalContext.js).
use faculty_auxie_mm.Web.GlobalContext.{
  GlobalData, Json, WebRedis, get_services, update_gatherer, update_dbsync, finished, dbsync_plans,
  asset_of, rows_of_exchanges, store_configuration, store_dbsync, global_data, parsed_or_null,
  or_null, gatherer_key, executor_key, dbsync_key,
}
use faculty_auxie_mm.Web.Address.{Webdis, escape_command, escape_settings}
use faculty_auxie_mm.Web.Address.Laws.{IsSafe, HasNoPlus, with_breaks, received-escape}
use faculty_auxie_mm.ApiServer.Datastreams.{add_assets}
use faculty_auxie_mm.ApiServer.Datastreams.Sync.{
  IsDistinct, assets_of, assets_of-add_assets, add_assets-IsDistinct,
}
use faculty_auxie_mm.ApiServer.Config.{Configuration, DbSyncConfiguration, DbSyncWorkplan, WorkPlan}
use faculty_auxie_mm.Prelude.Text.{Text, text_eq}
use faculty_auxie_mm.Prelude.{
  ◌≡◌, ◌∷◌, ◌++◌, [], some, true, false, ap, List, map, if◌then◌else◌, or_default, refl, sym, ◌∙◌,
  append-nil, append_assoc, Bool-cases, inl, inr,
}

-- the streams of one tenant's plans, in their order
unfoldable pub streams_of : Text → List WorkPlan → List Text
streams_of tenant [] = []
streams_of tenant (plan ∷ plans) =
    let rest = streams_of tenant plans in
    if text_eq plan.tenant tenant then map (asset_of plan) plan.data_points ++ rest else rest

dbsync_plans-IsDistinct :
    (plans : List WorkPlan) (ds : List DbSyncWorkplan)
    → IsDistinct ds
    → IsDistinct (dbsync_plans plans ds)
unfolding dbsync_plans
dbsync_plans-IsDistinct [] ds h = h
dbsync_plans-IsDistinct (w ∷ ws) ds h =
    dbsync_plans-IsDistinct ws _
      (add_assets-IsDistinct w.tenant (map (asset_of w) w.data_points) ds h)

assets_of-dbsync_plans :
    (t : Text) (plans : List WorkPlan) (ds : List DbSyncWorkplan)
    → assets_of t (dbsync_plans plans ds) ≡ assets_of t ds ++ streams_of t plans
unfolding dbsync_plans streams_of
assets_of-dbsync_plans t [] ds = sym (append-nil (assets_of t ds))
assets_of-dbsync_plans t (w ∷ ws) ds =
    let assets = map (asset_of w) w.data_points in
    assets_of-dbsync_plans t ws (add_assets w.tenant assets ds)
    ∙ rw (assets_of-add_assets t w.tenant assets ds) (elim (Bool-cases (text_eq w.tenant t)) [
      | inl mine ↦ rw mine (append_assoc (assets_of t ds) assets (streams_of t ws))
      | inr other ↦ rw other
    ])

module _ (webdis : Webdis) (json : Json) (redis : WebRedis)
    (takes : (k v : Text) (s : redis.State) → (redis.set k v s).1 ≡ true) where
  got :
      (k j v : Text) (s : redis.State)
      → redis.get (redis.set k v s).0 j ≡ (if text_eq k j then some v else redis.get s j)
  got k j v s = redis.get-set k j v s ∙ rw (takes k v s) refl

  -- What is stored is what was to be stored, with each line break as two characters.
  abbrev stored_text : Configuration → Text
  stored_text c = with_breaks false (json.stringify_configuration c)

  abbrev stored_dbsync : DbSyncConfiguration → Text
  stored_dbsync c = with_breaks false (json.stringify_dbsync c)

  -- The settings after the three requests
  abbrev settings_after :
      Configuration → Configuration → DbSyncConfiguration → redis.State → redis.State
  settings_after param executor dbsync s =
      (store_dbsync webdis json redis dbsync
        (store_configuration webdis json redis executor_key executor
          (store_configuration webdis json redis gatherer_key param s).0).0).0

  get_services-settings_after :
      (param executor : Configuration) (dbsync : DbSyncConfiguration) (s : redis.State)
      → IsSafe (json.stringify_configuration param)
      → IsSafe (json.stringify_configuration executor)
      → IsSafe (json.stringify_dbsync dbsync)
      → HasNoPlus (json.stringify_dbsync dbsync)
      → json.parse_configuration (stored_text param) ≡ some param
      → json.parse_configuration (stored_text executor) ≡ some executor
      → json.parse_dbsync (stored_dbsync dbsync) ≡ some dbsync
      → get_services webdis json redis (settings_after param executor dbsync s)
        ≡ global_data (some (some param)) (some (some executor)) (some (some dbsync))
  unfolding get_services
  get_services-settings_after param executor dbsync s safe_p safe_e safe_d plain_d read_p read_e
        read_d =
      let p = webdis.received (escape_settings (json.stringify_configuration param)) in
      let e = webdis.received (escape_settings (json.stringify_configuration executor)) in
      let d = webdis.received (escape_command (json.stringify_dbsync dbsync)) in
      let s1 = (redis.set gatherer_key p s).0 in
      let s2 = (redis.set executor_key e s1).0 in
      let s3 = (redis.set dbsync_key d s2).0 in
      let is_p = (received-escape webdis (json.stringify_configuration param) safe_p).0 in
      let is_e = (received-escape webdis (json.stringify_configuration executor) safe_e).0 in
      let is_d = (received-escape webdis (json.stringify_dbsync dbsync) safe_d).1 plain_d in
      let at_p : redis.get s3 gatherer_key ≡ some p =
        got dbsync_key gatherer_key d s2
        ∙ got executor_key gatherer_key e s1
        ∙ got gatherer_key gatherer_key p s in
      let at_e : redis.get s3 executor_key ≡ some e =
        got dbsync_key executor_key d s2 ∙ got executor_key executor_key e s1 in
      let at_d : redis.get s3 dbsync_key ≡ some d = got dbsync_key dbsync_key d s2 in
      ap
        (λ o.
          global_data (parsed_or_null json.parse_configuration o)
            (parsed_or_null json.parse_configuration (redis.get s3 executor_key))
            (parsed_or_null json.parse_dbsync (redis.get s3 dbsync_key)))
        at_p
      ∙ ap
          (λ o.
            global_data (or_null (json.parse_configuration p))
              (parsed_or_null json.parse_configuration o)
              (parsed_or_null json.parse_dbsync (redis.get s3 dbsync_key)))
          at_e
      ∙ ap
          (λ o.
            global_data (or_null (json.parse_configuration p))
              (or_null (json.parse_configuration e)) (parsed_or_null json.parse_dbsync o))
          at_d
      ∙ ap
          (λ o.
            global_data (or_null o) (or_null (json.parse_configuration e))
              (or_null (json.parse_dbsync d)))
          (ap json.parse_configuration is_p ∙ read_p)
      ∙ ap (λ o. global_data (some (some param)) (or_null o) (or_null (json.parse_dbsync d)))
          (ap json.parse_configuration is_e ∙ read_e)
      ∙ ap (λ o. global_data (some (some param)) (some (some executor)) (or_null o))
          (ap json.parse_dbsync is_d ∙ read_d)

  -- If redis takes what is written, after an update of the gatherer the settings can be read: those
  -- of the gatherer are those given, with their exchanges as rows, the executor has the same exchanges,
  -- every tenant has at most one plan of dbsync, and its assets are the streams of the tenant's
  -- workplans, in their order. The JSON of all three settings has only line breaks and printable
  -- characters of ASCII but `%`, `#`, `?` and the backslash, that of dbsync no `+` either, and with two
  -- characters for each line break it is parsed to what was printed.
  pub update_gatherer-get_services :
      (param : Configuration) (workplans : List WorkPlan) (executor : Configuration)
      (dbsync : DbSyncConfiguration) (s : redis.State)
      → param.workplans ≡ some workplans
      → IsSafe (json.stringify_configuration param)
      → IsSafe (json.stringify_configuration (record executor { exchanges = param.exchanges }))
      → IsSafe (json.stringify_dbsync (record dbsync { workplans = dbsync_plans workplans [] }))
      → HasNoPlus (json.stringify_dbsync (record dbsync { workplans = dbsync_plans workplans [] }))
      → json.parse_configuration (with_breaks false (json.stringify_configuration param))
        ≡ some param
      → json.parse_configuration (
          with_breaks false
            (json.stringify_configuration (record executor { exchanges = param.exchanges })))
        ≡ some (record executor { exchanges = param.exchanges })
      → json.parse_dbsync (
          with_breaks false
            (json.stringify_dbsync (record dbsync { workplans = dbsync_plans workplans [] })))
        ≡ some (record dbsync { workplans = dbsync_plans workplans [] })
      → let updated = update_gatherer webdis json redis param (some executor) (some dbsync) s in
        (updated.1 ≡ some true)
        × ((read : GlobalData) × (e : Configuration) × (d : DbSyncConfiguration) × (get_services
                webdis json redis updated.0
              ≡ some read)
            × (read.gatherer ≡ some param)
            × (read.data_streams ≡ workplans)
            × (read.exchanges ≡ rows_of_exchanges (or_default param.exchanges []))
            × (read.executor ≡ some e)
            × (e.exchanges ≡ param.exchanges)
            × (read.dbsync ≡ some d)
            × IsDistinct d.workplans
            × ((t : Text) → assets_of t d.workplans ≡ streams_of t workplans))
  unfolding update_gatherer assets_of
  update_gatherer-get_services param workplans executor dbsync s given safe_p safe_e safe_d plain_d
        read_p read_e read_d =
      let e : Configuration = record executor { exchanges = param.exchanges } in
      let d : DbSyncConfiguration = record dbsync { workplans = dbsync_plans workplans [] } in
      let shown : GlobalData = record {
        exchanges = rows_of_exchanges (or_default param.exchanges []);
        data_streams = or_default param.workplans [];
        gatherer = some param;
        executor = some e;
        dbsync = some d;
      } in
      let read =
        get_services-settings_after param e d s safe_p safe_e safe_d plain_d read_p read_e read_d in
      let sent = webdis.received (escape_settings (json.stringify_configuration param)) in
      let stored = store_configuration webdis json redis gatherer_key param s in
      let s2 = (store_configuration webdis json redis executor_key e stored.0).0 in
      let written : update_gatherer webdis json redis param (some executor) (some dbsync) s
          ≡ (settings_after param e d s, some true) =
        ap
          (λ o.
            finished webdis json redis s2 stored.1
              (update_dbsync webdis json redis o (some dbsync) s2))
          given
        ∙ ap (λ b. (settings_after param e d s, some b)) (takes gatherer_key sent s) in
      (
        ap (λ r. r.1) written,
        (
          shown,
          e,
          d,
          ap (λ r. get_services webdis json redis r.0) written ∙ read,
          refl,
          ap (λ o. or_default o []) given,
          refl,
          refl,
          refl,
          refl,
          dbsync_plans-IsDistinct workplans [] tt,
          λ t. assets_of-dbsync_plans t workplans [],
        ),
      )
