-- ===== src/Web/ActiveOrderTable/Sorting.antt =====
-- stableSort (packages/web/src/components/trade/ActiveOrderTable.js), with any engine and comparator.
use faculty_auxie_mm.Web.ActiveOrderTable.Indexed.{
  element-stabilized, All-stabilized, stabilized-IsStrictBy, with_index-IsConsistent,
  ties-IsSortedBy, elements-IsOrderedBy, index,
}
use faculty_auxie_mm.Web.Engine.{Sort, IsConsistent, IsOrderedBy}
use faculty_auxie_mm.Web.ActiveOrderTable.{stabilized, with_index, element, stable_sort, is_zero}
use faculty_auxie_mm.Prelude.Sorted.{sorted_unique, All_at, IsStrictBy-filter}
use faculty_auxie_mm.Prelude.Count.{Eq, count, count-filter, pair_Eq, All-of_count, contains}
use faculty_auxie_mm.Prelude.Int.{ℤ}
use faculty_auxie_mm.Prelude.{
  ◌≡◌, ◌∷◌, ◌∙◌, [], List, ℕ, Bool, arith, All, sym, ap, Bool-cases, inl, inr, filter, map, ◌==◌,
  ==_iff, filter-map,
}

elements-All :
    {A : Type 0} (P : A → Type 0) (ps : List (A × ℕ)) → All (λ p. P p.0) ps → All P (map element ps)
elements-All P [] k = tt
elements-All P (p ∷ ps) k = (k.0, elements-All P ps k.1)

module _ {A : Type 0} (e : Eq A) (engine : Sort) (P : A → Type 0) (comparator : A → A → ℤ)
    (xs : List A) (c : IsConsistent P comparator) (h : All P xs) where
  abbrev indexed_Eq : Eq (A × ℕ)
  indexed_Eq = pair_Eq e (record { beq = ◌==◌; beq_iff = ==_iff })

  abbrev sorted : List (A × ℕ)
  sorted = engine.sort (with_index comparator) (stabilized 0 xs)

  count-sorted :
      (p : A × ℕ) → count ⦃e = indexed_Eq⦄ p sorted ≡ count ⦃e = indexed_Eq⦄ p (stabilized 0 xs)
  count-sorted p = engine.count-sort ⦃e = indexed_Eq⦄ (with_index comparator) (stabilized 0 xs) p

  sorted-All : All (λ p. P p.0) sorted
  sorted-All =
      All-of_count ⦃e = indexed_Eq⦄ (λ p. P p.0) sorted
        (λ p m.
          All_at ⦃e = indexed_Eq⦄ (λ q. P q.0) p (stabilized 0 xs) (All-stabilized P 0 xs h)
            (omega (arith, m, count-sorted p)))

  sorted-IsOrderedBy : IsOrderedBy (with_index comparator) sorted
  sorted-IsOrderedBy =
      engine.sort-IsOrderedBy ⦃e = indexed_Eq⦄ (λ p. P p.0) (with_index comparator)
        (stabilized 0 xs) (with_index-IsConsistent P comparator c) (All-stabilized P 0 xs h)

  pub stable_sort-IsOrderedBy : IsOrderedBy comparator (stable_sort engine xs comparator)
  unfolding stable_sort
  stable_sort-IsOrderedBy = elements-IsOrderedBy P comparator sorted sorted-IsOrderedBy

  -- The items that tie with one of them keep their order.
  pub filter-stable_sort :
      (a : A)
      → P a
      → filter (λ x. is_zero (comparator a x)) (stable_sort engine xs comparator)
        ≡ filter (λ x. is_zero (comparator a x)) xs
  unfolding stable_sort
  filter-stable_sort a pa =
      let tie : A × ℕ → Bool = λ p. is_zero (comparator a p.0) in
      let same : filter tie sorted ≡ filter tie (stabilized 0 xs) =
        sorted_unique ⦃e = indexed_Eq⦄ index (filter tie sorted) (filter tie (stabilized 0 xs))
          (ties-IsSortedBy P comparator c a pa sorted sorted-All sorted-IsOrderedBy)
          (IsStrictBy-filter index tie (stabilized 0 xs) (stabilized-IsStrictBy 0 xs))
          (λ p. ground (
            arith,
            count-filter ⦃e = indexed_Eq⦄ tie p sorted,
            count-filter ⦃e = indexed_Eq⦄ tie p (stabilized 0 xs),
            count-sorted p,
          )) in
      filter-map (λ x. is_zero (comparator a x)) element sorted
      ∙ ap (map element) same
      ∙ sym (filter-map (λ x. is_zero (comparator a x)) element (stabilized 0 xs))
      ∙ ap (filter (λ x. is_zero (comparator a x))) (element-stabilized 0 xs)

  pub stable_sort-All : All P (stable_sort engine xs comparator)
  unfolding stable_sort
  stable_sort-All = elements-All P sorted sorted-All

  count-ties :
      (a : A)
      → P a
      → (ys : List A)
      → count ⦃e = e⦄ a (filter (λ x. is_zero (comparator a x)) ys) ≡ count ⦃e = e⦄ a ys
  count-ties a pa ys =
      ground (arith, count-filter ⦃e = e⦄ (λ x. is_zero (comparator a x)) a ys, c.flips a a pa pa)

  pub count-stable_sort :
      (a : A) → count ⦃e = e⦄ a (stable_sort engine xs comparator) ≡ count ⦃e = e⦄ a xs
  count-stable_sort a =
      let rows : List A = stable_sort engine xs comparator in
      let same : P a → count ⦃e = e⦄ a rows ≡ count ⦃e = e⦄ a xs = λ pa.
        sym (count-ties a pa rows)
        ∙ ap (count ⦃e = e⦄ a) (filter-stable_sort a pa)
        ∙ count-ties a pa xs in
      elim (Bool-cases (contains ⦃e = e⦄ rows a)) [
        | inl m ↦ same (All_at ⦃e = e⦄ P a rows stable_sort-All (ground (arith, m)))
        | inr none_here ↦ elim (Bool-cases (contains ⦃e = e⦄ xs a)) [
          | inl m ↦ same (All_at ⦃e = e⦄ P a xs h (ground (arith, m)))
          | inr none_there ↦ ground (arith, none_here, none_there)
        ]
      ]
