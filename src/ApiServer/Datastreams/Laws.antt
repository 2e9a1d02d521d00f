-- ===== src/ApiServer/Datastreams/Laws.antt =====
-- The plans keep one entry for each tenant and exchange, and errors change nothing.
use faculty_auxie_mm.ApiServer.Datastreams.{has_plan, is_plan, edit_first, remove_first}
use faculty_auxie_mm.ApiServer.Config.{WorkPlan}
use faculty_auxie_mm.Prelude.Text.{Text, text_eq_iff}
use faculty_auxie_mm.Prelude.{
  ◌≡◌, ◌∷◌, ◌++◌, ◌||◌, ◌∙◌, false, refl, [], inl, inr, List, arith, Bool-cases, sym, ap, filter,
  not,
}

-- No tenant and exchange has two plans.
abbrev pub IsUnique : List WorkPlan → Type 0
IsUnique [] = Unit
IsUnique (p ∷ ps) = (has_plan p.tenant p.exchange_id ps ≡ false) × IsUnique ps

has_plan-append :
    (t e : Text) (ps : List WorkPlan) (w : WorkPlan)
    → has_plan t e (ps ++ w ∷ []) ≡ (has_plan t e ps || is_plan t e w)
has_plan-append t e [] w = ground arith
has_plan-append t e (p ∷ ps) w = ground (arith, has_plan-append t e ps w)

is_plan_comm :
    (p w : WorkPlan) → is_plan p.tenant p.exchange_id w ≡ is_plan w.tenant w.exchange_id p
is_plan_comm p w = ground (
  arith,
  text_eq_iff p.tenant w.tenant,
  text_eq_iff w.tenant p.tenant,
  text_eq_iff p.exchange_id w.exchange_id,
  text_eq_iff w.exchange_id p.exchange_id,
)

pub append-IsUnique :
    (ps : List WorkPlan) (w : WorkPlan)
    → IsUnique ps
    → has_plan w.tenant w.exchange_id ps ≡ false
    → IsUnique (ps ++ w ∷ [])
append-IsUnique [] w h n = (refl, tt)
append-IsUnique (p ∷ ps) w h n = (
  ground (arith, has_plan-append p.tenant p.exchange_id ps w, is_plan_comm p w),
  append-IsUnique ps w h.1 (ground arith),
)

has_plan-edit_first :
    (t e : Text) (w : WorkPlan) (ps : List WorkPlan)
    → has_plan t e (edit_first w ps) ≡ has_plan t e ps
has_plan-edit_first t e w [] = refl
has_plan-edit_first t e w (p ∷ ps) = ground (arith, has_plan-edit_first t e w ps)

pub edit_first-IsUnique :
    (w : WorkPlan) (ps : List WorkPlan) → IsUnique ps → IsUnique (edit_first w ps)
edit_first-IsUnique w [] h = tt
edit_first-IsUnique w (p ∷ ps) h = elim (Bool-cases (is_plan w.tenant w.exchange_id p)) [
  | inl here ↦ rw here (h.0, h.1)
  | inr there ↦
      rw there (has_plan-edit_first p.tenant p.exchange_id w ps ∙ h.0, edit_first-IsUnique w ps h.1)
]

has_plan-remove_first :
    (t e : Text) (u f : Text) (ps : List WorkPlan)
    → has_plan t e ps ≡ false
    → has_plan t e (remove_first u f ps) ≡ false
has_plan-remove_first t e u f [] h = refl
has_plan-remove_first t e u f (p ∷ ps) h = ground (arith, has_plan-remove_first t e u f ps)

pub remove_first-IsUnique :
    (t e : Text) (ps : List WorkPlan) → IsUnique ps → IsUnique (remove_first t e ps)
remove_first-IsUnique t e [] h = tt
remove_first-IsUnique t e (p ∷ ps) h = elim (Bool-cases (is_plan t e p)) [
  | inl here ↦ rw here h.1
  | inr there ↦
      rw there
        (has_plan-remove_first p.tenant p.exchange_id t e ps h.0, remove_first-IsUnique t e ps h.1)
]

kept_all :
    (t e : Text) (ps : List WorkPlan)
    → has_plan t e ps ≡ false
    → filter (λ p. not (is_plan t e p)) ps ≡ ps
kept_all t e [] h = refl
kept_all t e (p ∷ ps) h =
    let other : is_plan t e p ≡ false = ground (arith, h) in
    let rest : has_plan t e ps ≡ false = ground (arith, h) in
    rw other (ap (λ r. p ∷ r) (kept_all t e ps rest))

-- All other plans are kept.
pub remove_first-filter :
    (t e : Text) (ps : List WorkPlan)
    → IsUnique ps
    → remove_first t e ps ≡ filter (λ p. not (is_plan t e p)) ps
remove_first-filter t e [] h = refl
remove_first-filter t e (p ∷ ps) h = elim (Bool-cases (is_plan t e p)) [
  | inl here ↦
      let alone : has_plan t e ps ≡ false =
        rw
          (
            sym ((text_eq_iff p.tenant t).0 (ground arith)),
            sym ((text_eq_iff p.exchange_id e).0 (ground arith)),
          )
          h.0 in
      rw here (sym (kept_all t e ps alone))
  | inr there ↦ rw there (ap (λ r. p ∷ r) (remove_first-filter t e ps h.1))
]

-- The plan that was removed is gone.
pub removed :
    (t e : Text) (ps : List WorkPlan) → IsUnique ps → has_plan t e (remove_first t e ps) ≡ false
removed t e [] h = refl
removed t e (p ∷ ps) h = elim (Bool-cases (is_plan t e p)) [
  | inl here ↦ rw here (
      rw
        (
          sym ((text_eq_iff p.tenant t).0 (ground arith)),
          sym ((text_eq_iff p.exchange_id e).0 (ground arith)),
        )
        h.0)
  | inr there ↦ rw there (rw there (removed t e ps h.1))
]
