-- ===== src/Web/ActiveOrderTable/Stable.antt =====
-- The sorted orders of packages/web/src/components/trade/ActiveOrderTable.js, and their pages.
use faculty_auxie_mm.Web.ActiveOrderTable.Equality.{row_Eq}
use faculty_auxie_mm.Web.Engine.{Sort, IsConsistent, IsOrderedBy}
use faculty_auxie_mm.Web.ActiveOrderTable.Sorting.{
  stable_sort-IsOrderedBy, filter-stable_sort, count-stable_sort, stable_sort-All,
}
use faculty_auxie_mm.Web.ActiveOrderTable.Cells.{
  Kind, IsOfKind, OfKind, is_behind, get_comparator-IsConsistent, get_comparator_le,
  get_comparator_ge,
}
use faculty_auxie_mm.Web.ActiveOrderTable.{
  Row, Direction, OrderTable, cell, less_than, get_comparator, sorted_orders, is_zero, stable_sort,
  desc, asc,
}
use faculty_auxie_mm.Prelude.Count.{count}
use faculty_auxie_mm.Prelude.Int.{ℤ, pos, ◌≤ℤ◌}
use faculty_auxie_mm.Prelude.Text.{Text, text_Eq}
use faculty_auxie_mm.Prelude.{
  ◌≡◌, ◌∷◌, ◌&&◌, [], List, Bool, arith, false, Option, not, refl, All, filter, ◌∙◌, sym,
}

module _ (number_of : Text → Option ℤ) where
  -- No row stands behind a later one.
  abbrev pub IsOrderedIn : Direction → Text → List Row → Type 0
  IsOrderedIn direction order_by [] = Unit
  IsOrderedIn direction order_by (x ∷ xs) =
      All (λ y. is_behind number_of direction order_by x y ≡ false) xs
      × IsOrderedIn direction order_by xs

  abbrev pub is_tied : Text → Row → Row → Bool
  is_tied order_by a b =
      not (less_than number_of (cell order_by a) (cell order_by b))
      && not (less_than number_of (cell order_by b) (cell order_by a))

  module _ (kind : Kind) (order_by : Text) (direction : Direction) where
    IsOrderedIn-of_IsOrderedBy :
        (rows : List Row)
        → All (OfKind number_of kind order_by) rows
        → IsOrderedBy (get_comparator number_of direction order_by) rows
        → IsOrderedIn direction order_by rows
    IsOrderedIn-of_IsOrderedBy [] h k = tt
    IsOrderedIn-of_IsOrderedBy (x ∷ rows) h k =
        (before x rows h.0 h.1 k.0, IsOrderedIn-of_IsOrderedBy rows h.1 k.1)
      where
        before :
            (x : Row) (ys : List Row)
            → OfKind number_of kind order_by x
            → All (OfKind number_of kind order_by) ys
            → All (λ y. get_comparator number_of direction order_by x y ≤ℤ pos 0) ys
            → All (λ y. is_behind number_of direction order_by x y ≡ false) ys
        before x [] kx ks l = tt
        before x (y ∷ ys) kx ks l = (
          (get_comparator_le number_of kind order_by direction x y kx ks.0).0 l.0,
          before x ys kx ks.1 l.1,
        )

  is_tied-eq :
      (kind : Kind) (order_by : Text) (direction : Direction) (a b : Row)
      → OfKind number_of kind order_by a
      → OfKind number_of kind order_by b
      → is_tied order_by a b ≡ is_zero (get_comparator number_of direction order_by a b)
  is_tied-eq kind order_by desc a b ka kb = ground (
    arith,
    get_comparator_le number_of kind order_by desc a b ka kb,
    get_comparator_ge number_of kind order_by desc a b ka kb,
  )
  is_tied-eq kind order_by asc a b ka kb = ground (
    arith,
    get_comparator_le number_of kind order_by asc a b ka kb,
    get_comparator_ge number_of kind order_by asc a b ka kb,
  )

  filter-is_tied :
      (kind : Kind) (order_by : Text) (direction : Direction) (a : Row) (rows : List Row)
      → OfKind number_of kind order_by a
      → All (OfKind number_of kind order_by) rows
      → filter (is_tied order_by a) rows
        ≡ filter (λ x. is_zero (get_comparator number_of direction order_by a x)) rows
  filter-is_tied kind order_by direction a [] ka h = refl
  filter-is_tied kind order_by direction a (x ∷ rows) ka h =
      rw
        (
          is_tied-eq kind order_by direction a x ka h.0,
          filter-is_tied kind order_by direction a rows ka h.1,
        )
        refl

  -- Where the cells of the column that the table is sorted by are all numbers or null, all texts or
  -- all missing, the sorted table is a permutation of the orders in which no row stands behind a
  -- later one, and rows that tie keep their order, whatever the engine's sort does with ties.
  pub sorted_orders-IsOrderedIn :
      (engine : Sort) (t : OrderTable) (kind : Kind)
      → All (OfKind number_of kind t.order_by) t.orders
      → let rows = sorted_orders number_of engine t in
        IsOrderedIn t.order t.order_by rows
        × ((a : Row) → count ⦃e = row_Eq⦄ a rows ≡ count ⦃e = row_Eq⦄ a t.orders)
        × ((a : Row)
            → IsOfKind kind (cell t.order_by a)
            → filter (is_tied t.order_by a) rows ≡ filter (is_tied t.order_by a) t.orders)
  unfolding sorted_orders
  sorted_orders-IsOrderedIn engine t kind h =
      let P : Row → Type 0 = OfKind number_of kind t.order_by in
      let comparator : Row → Row → ℤ = get_comparator number_of t.order t.order_by in
      let c : IsConsistent P comparator =
        get_comparator-IsConsistent number_of kind t.order_by t.order in
      let all : All P (stable_sort engine t.orders comparator) =
        stable_sort-All row_Eq engine P comparator t.orders c h in
      (
        IsOrderedIn-of_IsOrderedBy kind t.order_by t.order _ all
            (stable_sort-IsOrderedBy row_Eq engine P comparator t.orders c h),
        count-stable_sort row_Eq engine P comparator t.orders c h,
        λ a ka.
            filter-is_tied kind t.order_by t.order a _ ka all
            ∙ filter-stable_sort row_Eq engine P comparator t.orders c h a ka
            ∙ sym (filter-is_tied kind t.order_by t.order a t.orders ka h),
      )
