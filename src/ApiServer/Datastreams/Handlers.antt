-- ===== src/ApiServer/Datastreams/Handlers.antt =====
-- What each request does to the stored configurations, by how it ends.
use faculty_auxie_mm.Prelude.Text.{Text, text_eq}
use faculty_auxie_mm.ApiServer.Datastreams.Laws.{
  IsUnique, append-IsUnique, edit_first-IsUnique, remove_first-IsUnique, removed,
  remove_first-filter,
}
use faculty_auxie_mm.ApiServer.Datastreams.{
  sync_dbsync, save_plans, handle, plans_of, add_datastream, synced, edit_datastream,
  delete_datastream, or_default, Request, sync_plans, add, has_plan, Option, Text, edit_plans,
  delete_plan, edit, edit_first, remove_first, text_eq, delete, is_plan,
}
use faculty_auxie_mm.ApiServer.Config.{Settings, WorkPlan, Configuration, Response, sent}
use faculty_auxie_mm.Prelude.{
  ◌≡◌, ◌∷◌, ◌++◌, some, true, false, refl, [], inl, inr, List, Bool, Bool-cases, ap, or_default,
  ◌∙◌, ◌&&◌, none, Option, sym, filter, not,
}

module _ (settings : Settings) where
  -- the stored plans after both writes, by whether each was taken
  synced_plans :
      (plans : List WorkPlan) (s : settings.State) (ok : Bool)
      → (sync_dbsync settings plans s).1 ≡ ok
      → plans_of settings (synced settings (sync_dbsync settings plans s)).0 ≡ plans_of settings s
  unfolding sync_dbsync
  synced_plans plans s true e =
      rw (e, synced)
        (ap (λ c. or_default c.workplans [])
          ((settings.dbsync_written (record (settings.dbsync s) { workplans = sync_plans plans [] })
            s e).1))
  synced_plans plans s false e =
      rw (e, synced)
        (ap (plans_of settings) (
          settings.dbsync_refused (record (settings.dbsync s) { workplans = sync_plans plans [] }) s
            e))

  abbrev with_plans : List WorkPlan → settings.State → Configuration
  with_plans plans s = record (settings.gatherer s) { workplans = some plans }

  -- After saving, the stored plans are the new ones or those before.
  save_plans_stored :
      (P : List WorkPlan → Type 0) (plans : List WorkPlan) (s : settings.State)
      → P plans
      → P (plans_of settings s)
      → P (plans_of settings (save_plans settings plans s).0)
  unfolding save_plans
  save_plans_stored P plans s new old =
      elim (Bool-cases (settings.set_gatherer (with_plans plans s) s).1) [
        | inl taken ↦
            let s' = (settings.set_gatherer (with_plans plans s) s).0 in
            let stored : plans_of settings s' ≡ plans =
              ap (λ c. or_default c.workplans [])
                (settings.gatherer_written (with_plans plans s) s taken).0 in
            rw taken
              (rw (synced_plans plans s' (sync_dbsync settings plans s').1 refl) (rw stored new))
        | inr refused ↦
            rw refused (rw (settings.gatherer_refused (with_plans plans s) s refused) old)
      ]

  edit_plans-IsUnique :
      (w : WorkPlan) (o : Option (List WorkPlan)) (s : settings.State)
      → (settings.gatherer s).workplans ≡ o
      → IsUnique (plans_of settings s)
      → IsUnique (plans_of settings (edit_plans settings w o s).0)
  edit_plans-IsUnique w none s e h = h
  edit_plans-IsUnique w (some plans) s e h =
      elim (Bool-cases (has_plan w.tenant w.exchange_id plans)) [
        | inl known ↦
            let stored : plans_of settings s ≡ plans = ap (λ o. or_default o []) e in
            rw known (
              save_plans_stored IsUnique (edit_first w plans) s
                (edit_first-IsUnique w plans (rw stored at h)) h)
        | inr fresh ↦ rw fresh h
      ]

  delete_plan-IsUnique :
      (t x : Text) (o : Option (List WorkPlan)) (s : settings.State)
      → (settings.gatherer s).workplans ≡ o
      → IsUnique (plans_of settings s)
      → IsUnique (plans_of settings (delete_plan settings t x o s).0)
  delete_plan-IsUnique t x none s e h = h
  delete_plan-IsUnique t x (some plans) s e h = elim (Bool-cases (has_plan t x plans)) [
    | inl known ↦
        let stored : plans_of settings s ≡ plans = ap (λ o. or_default o []) e in
        rw known (
          save_plans_stored IsUnique (remove_first t x plans) s
            (remove_first-IsUnique t x plans (rw stored at h)) h)
    | inr fresh ↦ rw fresh h
  ]

  -- Whatever the request, and whether the writes are taken or refused, no tenant and exchange has
  -- two plans in the stored configuration afterwards, if none had before.
  pub handle-IsUnique :
      (r : Request) (s : settings.State)
      → IsUnique (plans_of settings s)
      → IsUnique (plans_of settings (handle settings r s).0)
  unfolding handle add_datastream edit_datastream delete_datastream
  handle-IsUnique (add w) s h =
      let plans = plans_of settings s in
      elim (Bool-cases (has_plan w.tenant w.exchange_id plans)) [
        | inl known ↦ rw known h
        | inr fresh ↦
            rw fresh
              (save_plans_stored IsUnique (plans ++ w ∷ []) s (append-IsUnique plans w h fresh) h)
      ]
  handle-IsUnique (edit t e w) s h =
      elim (Bool-cases (text_eq t w.tenant && text_eq e w.exchange_id)) [
        | inl valid ↦ rw valid (edit_plans-IsUnique w (settings.gatherer s).workplans s refl h)
        | inr invalid ↦ rw invalid h
      ]
  handle-IsUnique (delete t e) s h =
      delete_plan-IsUnique t e (settings.gatherer s).workplans s refl h

  -- Where the stored plans and the database service's agree with one list.
  abbrev pub IsSynced : List WorkPlan → settings.State × Response → Type 0
  IsSynced plans (s, r) =
      r ≡ sent
      → (plans_of settings s ≡ plans) × ((settings.dbsync s).workplans ≡ sync_plans plans [])

  synced-IsSynced :
      (plans : List WorkPlan) (s : settings.State)
      → plans_of settings s ≡ plans
      → IsSynced plans (synced settings (sync_dbsync settings plans s))
  unfolding sync_dbsync
  synced-IsSynced plans s stored =
      let c = record (settings.dbsync s) { workplans = sync_plans plans [] } in
      elim (Bool-cases (settings.set_dbsync c s).1) [
        | inl taken ↦
            rw (taken, synced)
              λ _. (
                ap (λ c. or_default c.workplans []) ((settings.dbsync_written c s taken).1)
                    ∙ stored,
                ap (λ c. c.workplans) ((settings.dbsync_written c s taken).0),
              )
        | inr refused ↦ rw (refused, synced) (λ e. cc)
      ]

  save_plans-IsSynced :
      (plans : List WorkPlan) (s : settings.State) → IsSynced plans (save_plans settings plans s)
  unfolding save_plans
  save_plans-IsSynced plans s = elim (Bool-cases (settings.set_gatherer (with_plans plans s) s).1) [
    | inl taken ↦ rw taken (
        synced-IsSynced plans (settings.set_gatherer (with_plans plans s) s).0 (
          ap (λ c. or_default c.workplans [])
            (settings.gatherer_written (with_plans plans s) s taken).0))
    | inr refused ↦ rw refused (λ e. cc)
  ]

  -- A plan that is added and answered with success is stored behind the plans that were there, where
  -- none of them had its tenant and exchange, and the database service is configured from them all.
  pub add_datastream_sent :
      (w : WorkPlan) (s : settings.State)
      → (add_datastream settings w s).1 ≡ sent
      → (has_plan w.tenant w.exchange_id (plans_of settings s) ≡ false)
        × (plans_of settings (add_datastream settings w s).0 ≡ plans_of settings s ++ w ∷ [])
        × ((settings.dbsync (add_datastream settings w s).0).workplans
            ≡ sync_plans (plans_of settings s ++ w ∷ []) [])
  unfolding add_datastream
  add_datastream_sent w s h =
      let plans = plans_of settings s in
      elim (Bool-cases (has_plan w.tenant w.exchange_id plans)) [
        | inl known ↦ absurd (cc (rw known at h))
        | inr fresh ↦
            let both = save_plans-IsSynced (plans ++ w ∷ []) s (rw fresh at h) in
            rw fresh (refl, both.0, both.1)
      ]

  delete_plan_sent :
      (t x : Text) (o : Option (List WorkPlan)) (s : settings.State)
      → (settings.gatherer s).workplans ≡ o
      → IsUnique (plans_of settings s)
      → (delete_plan settings t x o s).1 ≡ sent
      → (has_plan t x (plans_of settings (delete_plan settings t x o s).0) ≡ false)
        × (plans_of settings (delete_plan settings t x o s).0
            ≡ filter (λ p. not (is_plan t x p)) (plans_of settings s))
        × ((settings.dbsync (delete_plan settings t x o s).0).workplans
            ≡ sync_plans (plans_of settings (delete_plan settings t x o s).0) [])
  delete_plan_sent t x none s e u h = absurd (cc h)
  delete_plan_sent t x (some plans) s e u h = elim (Bool-cases (has_plan t x plans)) [
    | inl known ↦
        let stored : plans_of settings s ≡ plans = ap (λ o. or_default o []) e in
        let left = remove_first t x plans in
        let both = save_plans-IsSynced left s (rw known at h) in
        rw known (
          ap (has_plan t x) both.0 ∙ removed t x plans (rw stored at u),
          both.0
              ∙ remove_first-filter t x plans (rw stored at u)
              ∙ ap (filter (λ p. not (is_plan t x p))) (sym stored),
          both.1 ∙ ap (λ ps. sync_plans ps []) (sym both.0),
        )
    | inr fresh ↦ absurd (cc (rw fresh at h))
  ]

  -- After a deletion that is answered with success the tenant and exchange have no plan, all
  -- other plans are stored as before and in their order, and the database service is configured from the plans that are left: where no pair had two plans.
  pub delete_datastream_sent :
      (t x : Text) (s : settings.State)
      → IsUnique (plans_of settings s)
      → (delete_datastream settings t x s).1 ≡ sent
      → (has_plan t x (plans_of settings (delete_datastream settings t x s).0) ≡ false)
        × (plans_of settings (delete_datastream settings t x s).0
            ≡ filter (λ p. not (is_plan t x p)) (plans_of settings s))
        × ((settings.dbsync (delete_datastream settings t x s).0).workplans
            ≡ sync_plans (plans_of settings (delete_datastream settings t x s).0) [])
  unfolding delete_datastream
  delete_datastream_sent t x s u h = delete_plan_sent t x (settings.gatherer s).workplans s refl u h
