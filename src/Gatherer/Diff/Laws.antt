-- ===== src/Gatherer/Diff/Laws.antt =====
-- What the two lists of a diff hold.
use faculty_auxie_mm.Prelude.{
  ◌+◌, ◌≡◌, ap, not, List, [], ◌∷◌, foldl, arith, ltb, if◌then◌else◌, Bool-cases, inl, inr,
}
use faculty_auxie_mm.Prelude.Count.{Eq, count, contains, count-filter}
use faculty_auxie_mm.Book.Lodash.{Lodash}
use faculty_auxie_mm.Gatherer.Diff.{mark, get_array_diff}

module _ {A : Type 0} ⦃e : Eq A⦄ where
  contains-mark :
      (agg : List A) (item a : A)
      → contains (mark agg item) a
        ≡ (if e.beq a item then contains (item ∷ agg) a else contains agg a)
  contains-mark agg item a = elim (Bool-cases (e.beq a item)) [
    | inl same ↦
        let q : count a agg ≡ count item agg = ap (λ x. count x agg) ((e.beq_iff a item).0 same) in
        ground arith
    | inr other ↦ ground arith
  ]

  contains-foldl-mark :
      (xs agg : List A) (a : A) → contains (foldl mark agg xs) a ≡ ltb 0 (count a agg + count a xs)
  contains-foldl-mark [] agg a = ground arith
  contains-foldl-mark (x ∷ xs) agg a =
      ground (arith, contains-foldl-mark xs (mark agg x) a, contains-mark agg x a)

  -- Added is what the new array has and the old one lacks, and removed the other way round.
  pub count-get_array_diff :
      (l : Lodash A) (xs ys : List A) (a : A)
      → (count a (get_array_diff l xs ys).add ≡ (if contains xs a then 0 else count a ys))
        × (count a (get_array_diff l xs ys).remove ≡ (if contains ys a then 0 else count a xs))
  unfolding get_array_diff
  count-get_array_diff l xs ys a = (
    rw (l.reduce-eq-foldl xs mark []) (
        ground (
          arith,
          count-filter (λ x. not (contains (foldl mark [] xs) x)) a ys,
          contains-foldl-mark xs [] a,
        )),
    rw (l.reduce-eq-foldl ys mark []) (
        ground (
          arith,
          count-filter (λ x. not (contains (foldl mark [] ys) x)) a xs,
          contains-foldl-mark ys [] a,
        )),
  )
