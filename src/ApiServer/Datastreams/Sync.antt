-- ===== src/ApiServer/Datastreams/Sync.antt =====
-- What the database service is configured with follows from the gatherer's plans.
use faculty_auxie_mm.ApiServer.Config.{DbSyncWorkplan, WorkPlan}
use faculty_auxie_mm.ApiServer.Datastreams.{
  add_assets, sync_plans, DbSyncWorkplan, WorkPlan, text_eq, any, assets_of_pairs, includes,
}
use faculty_auxie_mm.Prelude.Text.{Text, codes, join_dots, text_eq, text_eq_iff}
use faculty_auxie_mm.Prelude.{
  ap, ◌≡◌, ◌∷◌, ◌++◌, if◌then◌else◌, ◌||◌, ◌∙◌, false, refl, [], inl, inr, List, Bool, arith, sym,
  Bool-cases, any, append-nil, append_assoc,
}

-- the assets of one tenant in a configuration
unfoldable pub assets_of : Text → List DbSyncWorkplan → List Text
assets_of tenant [] = []
assets_of tenant (d ∷ ds) = if text_eq d.tenant_id tenant then d.assets else assets_of tenant ds

-- The streams of a pair: the changes and the snapshots of its order book, and the exchange's balance.
abbrev pub pair_streams : WorkPlan → Text → List Text
pair_streams plan asset_pair =
    (if any (text_eq (codes "watchOrderBook")) plan.data_points
      then join_dots (
          codes "stream"
          ∷ plan.tenant
          ∷ plan.exchange_id
          ∷ codes "watchOrderBook"
          ∷ asset_pair
          ∷ [])
        ∷ join_dots (
            codes "stream"
            ∷ codes "snapshot"
            ∷ plan.tenant
            ∷ plan.exchange_id
            ∷ codes "watchOrderBook"
            ∷ asset_pair
            ∷ [])
        ∷ []
      else [])
    ++ (if any (text_eq (codes "watchBalance")) plan.data_points
        then join_dots (codes "stream" ∷ plan.tenant ∷ plan.exchange_id ∷ codes "watchBalance" ∷ [])
          ∷ []
        else [])

abbrev pub plan_streams : WorkPlan → List Text → List Text
plan_streams plan [] = []
plan_streams plan (p ∷ ps) = pair_streams plan p ++ plan_streams plan ps

any_sym : (point : Text) (points : List Text) → includes points point ≡ any (text_eq point) points
any_sym point [] = refl
any_sym point (p ∷ points) =
    ground (arith, text_eq_iff p point, text_eq_iff point p, any_sym point points)

assets_of_pairs-plan_streams :
    (plan : WorkPlan) (ps : List Text) → assets_of_pairs plan ps ≡ plan_streams plan ps
assets_of_pairs-plan_streams plan [] = refl
assets_of_pairs-plan_streams plan (p ∷ ps) =
    rw
      (
        any_sym (codes "watchOrderBook") plan.data_points,
        any_sym (codes "watchBalance") plan.data_points,
      )
      (ap (λ rest. pair_streams plan p ++ rest) (assets_of_pairs-plan_streams plan ps))

-- the streams of one tenant's plans, in their order
unfoldable pub wanted : Text → List WorkPlan → List Text
wanted tenant [] = []
wanted tenant (plan ∷ plans) =
    let rest = wanted tenant plans in
    if text_eq plan.tenant tenant then plan_streams plan plan.asset_pairs ++ rest else rest

pub assets_of-add_assets :
    (t tenant : Text) (assets : List Text) (ds : List DbSyncWorkplan)
    → assets_of t (add_assets tenant assets ds)
      ≡ (if text_eq tenant t then assets_of t ds ++ assets else assets_of t ds)
unfolding assets_of add_assets
assets_of-add_assets t tenant assets [] = refl
assets_of-add_assets t tenant assets (d ∷ ds) = ground (
  arith,
  assets_of-add_assets t tenant assets ds,
  text_eq_iff d.tenant_id tenant,
  text_eq_iff d.tenant_id t,
  text_eq_iff tenant t,
)

assets_of-sync_plans :
    (t : Text) (plans : List WorkPlan) (ds : List DbSyncWorkplan)
    → assets_of t (sync_plans plans ds) ≡ assets_of t ds ++ wanted t plans
unfolding sync_plans wanted
assets_of-sync_plans t [] ds = sym (append-nil (assets_of t ds))
assets_of-sync_plans t (plan ∷ plans) ds =
    let assets = plan_streams plan plan.asset_pairs in
    rw (assets_of_pairs-plan_streams plan plan.asset_pairs) (
      assets_of-sync_plans t plans (add_assets plan.tenant assets ds)
      ∙ rw (assets_of-add_assets t plan.tenant assets ds)
          (elim (Bool-cases (text_eq plan.tenant t)) [
            | inl mine ↦ rw mine (append_assoc (assets_of t ds) assets (wanted t plans))
            | inr other ↦ rw other
          ]))

abbrev pub has_tenant : Text → List DbSyncWorkplan → Bool
has_tenant tenant ds = any (λ d. text_eq d.tenant_id tenant) ds

-- No tenant has two datastreams.
abbrev pub IsDistinct : List DbSyncWorkplan → Type 0
IsDistinct [] = Unit
IsDistinct (d ∷ ds) = (has_tenant d.tenant_id ds ≡ false) × IsDistinct ds

has_tenant-add_assets :
    (t tenant : Text) (assets : List Text) (ds : List DbSyncWorkplan)
    → has_tenant t (add_assets tenant assets ds) ≡ (text_eq tenant t || has_tenant t ds)
unfolding add_assets
has_tenant-add_assets t tenant assets [] = ground arith
has_tenant-add_assets t tenant assets (d ∷ ds) = ground (
  arith,
  has_tenant-add_assets t tenant assets ds,
  text_eq_iff d.tenant_id tenant,
  text_eq_iff d.tenant_id t,
  text_eq_iff tenant t,
)

pub add_assets-IsDistinct :
    (tenant : Text) (assets : List Text) (ds : List DbSyncWorkplan)
    → IsDistinct ds
    → IsDistinct (add_assets tenant assets ds)
unfolding add_assets
add_assets-IsDistinct tenant assets [] h = (refl, tt)
add_assets-IsDistinct tenant assets (d ∷ ds) h = elim (Bool-cases (text_eq d.tenant_id tenant)) [
  | inl mine ↦ rw mine (h.0, h.1)
  | inr other ↦ rw other (
    ground (
      arith,
      has_tenant-add_assets d.tenant_id tenant assets ds,
      text_eq_iff d.tenant_id tenant,
      text_eq_iff tenant d.tenant_id,
    ),
    add_assets-IsDistinct tenant assets ds h.1,
  )
]

sync_plans-IsDistinct :
    (plans : List WorkPlan) (ds : List DbSyncWorkplan)
    → IsDistinct ds
    → IsDistinct (sync_plans plans ds)
unfolding sync_plans
sync_plans-IsDistinct [] ds h = h
sync_plans-IsDistinct (plan ∷ plans) ds h =
    let assets = assets_of_pairs plan plan.asset_pairs in
    sync_plans-IsDistinct plans (add_assets plan.tenant assets ds)
      (add_assets-IsDistinct plan.tenant assets ds h)

-- From any plans, every tenant has at most one datastream, and its assets are those of the tenant's
-- plans, in the order of the plans and of their pairs: for each pair the streams of the changes and of
-- the snapshots of its order book, and the stream of the exchange's balance, as the plan's data points
-- ask for them.
pub sync_plans_assets :
    (plans : List WorkPlan)
    → IsDistinct (sync_plans plans [])
      × ((t : Text) → assets_of t (sync_plans plans []) ≡ wanted t plans)
unfolding assets_of
sync_plans_assets plans = (sync_plans-IsDistinct plans [] tt, λ t. assets_of-sync_plans t plans [])
