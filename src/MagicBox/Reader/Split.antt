-- ===== src/MagicBox/Reader/Split.antt =====
-- A log is all deltas, or has a last snapshot with deltas behind it.
use faculty_auxie_mm.MagicBox.Reader.Books.{Logged, is_snapshot, is_deltas}
use faculty_auxie_mm.Prelude.{
  ◌≡◌, ◌∷◌, ◌++◌, true, refl, [], inl, inr, List, Bool, filter, Bool-cases, ap,
}

pub data Split (log : List Logged) : Type 0 where
  all_deltas : filter is_snapshot log ≡ [] → filter is_deltas log ≡ log → Split log
  last_snapshot :
      (older : List Logged) (s : Logged) (newer : List Logged)
      → log ≡ older ++ s ∷ newer
      → is_snapshot s ≡ true
      → filter is_snapshot newer ≡ []
      → filter is_deltas newer ≡ newer
      → Split log

Split-prepend : (e : Logged) (es : List Logged) → Split es → Split (e ∷ es)
Split-prepend e es (all_deltas none_left same) = elim (Bool-cases (is_snapshot e)) [
  | inl is ↦ last_snapshot [] e es refl is none_left same
  | inr other ↦ all_deltas (rw (other, none_left) refl) (rw (other, same) refl)
]
Split-prepend e es (last_snapshot older s newer eq is none_left same) =
    last_snapshot (e ∷ older) s newer (ap (λ t. e ∷ t) eq) is none_left same

pub split : (log : List Logged) → Split log
split [] = all_deltas refl refl
split (e ∷ es) = Split-prepend e es (split es)

pub filter-append :
    (p : Logged → Bool) (xs ys : List Logged) → filter p (xs ++ ys) ≡ filter p xs ++ filter p ys
filter-append p [] ys = refl
filter-append p (x ∷ xs) ys = elim (Bool-cases (p x)) [
  | inl is ↦ rw (is, filter-append p xs ys) refl
  | inr other ↦ rw (other, filter-append p xs ys) refl
]

-- Of a log with a last snapshot, the snapshots end with it.
pub filter-last_snapshot :
    (older : List Logged) (s : Logged) (newer : List Logged)
    → is_snapshot s ≡ true
    → filter is_snapshot newer ≡ []
    → filter is_snapshot (older ++ s ∷ newer) ≡ filter is_snapshot older ++ s ∷ []
filter-last_snapshot older s newer is none_left =
    rw (filter-append is_snapshot older (s ∷ newer), is, none_left) refl
