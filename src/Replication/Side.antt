-- ===== src/Replication/Side.antt =====
-- One side of a book: applying the diff of two sides to the first gives the second.
use faculty_auxie_mm.Prelude.{
  ◌+◌, ◌≡◌, refl, sym, List, [], ◌∷◌, ◌++◌, arith, any, All, if◌then◌else◌, Bool-cases, inl, inr,
  length,
}
use faculty_auxie_mm.Prelude.Count.{count, contains, count-append}
use faculty_auxie_mm.Prelude.Int.{ℤ, ◌≤ℤ◌, ◌<ℤ◌}
use faculty_auxie_mm.Prelude.Sorted.{IsSortedBy, IsStrictBy, sorted_unique, count_le_one}
use faculty_auxie_mm.Book.{Level, level_Eq}
use faculty_auxie_mm.Book.Lodash.{Lodash}
use faculty_auxie_mm.Gatherer.Diff.{ArrayDiff, get_array_diff}
use faculty_auxie_mm.Gatherer.Diff.Laws.{count-get_array_diff}
use faculty_auxie_mm.MagicBox.OrderBooks.{apply_side}

module _ (l : Lodash Level) where
  is_equal-eq-beq : (a b : Level) → l.is_equal a b ≡ level_Eq.beq a b
  is_equal-eq-beq a b = elim (Bool-cases (l.is_equal a b)) [
    | inl same ↦ rw same (sym ((level_Eq.beq_iff a b).1 ((l.is_equal_iff a b).0 same)))
    | inr other ↦ elim (Bool-cases (level_Eq.beq a b)) [
      | inl b_same ↦ cc ((l.is_equal_iff a b).1 ((level_Eq.beq_iff a b).0 b_same))
      | inr b_other ↦ cc
    ]
  ]

  any-is_equal : (a : Level) (xs : List Level) → any (l.is_equal a) xs ≡ contains xs a
  any-is_equal a [] = ground arith
  any-is_equal a (x ∷ xs) = ground (arith, any-is_equal a xs, is_equal-eq-beq a x)

  count-apply_side :
      (key : Level → ℤ) (xs : List Level) (d : ArrayDiff Level) (a : Level)
      → count a (apply_side l key xs d)
        ≡ (if contains d.remove a then 0 else count a xs) + count a d.add
  unfolding apply_side
  count-apply_side key xs d a = rw (
    l.count-sort_by,
    count-append a (l.pull_all_with xs d.remove l.is_equal) d.add,
    l.count-pull_all_with,
    any-is_equal a d.remove,
  )

  IsSortedBy-of_strict : (key : Level → ℤ) (xs : List Level) → IsStrictBy key xs → IsSortedBy key xs
  IsSortedBy-of_strict key [] h = tt
  IsSortedBy-of_strict key (x ∷ xs) h = (All-weaken xs h.0, IsSortedBy-of_strict key xs h.1)
    where
      All-weaken : (ys : List Level) → All (λ y. key x <ℤ key y) ys → All (λ y. key x ≤ℤ key y) ys
      All-weaken [] k = tt
      All-weaken (y ∷ ys) k = (omega arith, All-weaken ys k.1)

  apply_side-IsSortedBy :
      (key : Level → ℤ) (xs : List Level) (d : ArrayDiff Level)
      → IsSortedBy key (apply_side l key xs d)
  unfolding apply_side
  apply_side-IsSortedBy key xs d =
      l.sort_by-IsSortedBy (l.pull_all_with xs d.remove l.is_equal ++ d.add) key

  count-apply_side-diff :
      (key : Level → ℤ) (old new : List Level) (a : Level)
      → IsStrictBy key old
      → IsStrictBy key new
      → count a (apply_side l key old (get_array_diff l old new)) ≡ count a new
  count-apply_side-diff key old new a ho hn = ground (
    arith,
    count-apply_side key old (get_array_diff l old new) a,
    count-get_array_diff l old new a,
    count_le_one key a old ho,
    count_le_one key a new hn,
  )

  -- Two strictly sorted sides: the diff from the first to the second rebuilds the second.
  pub apply_side-get_array_diff :
      (key : Level → ℤ) (old new : List Level)
      → IsStrictBy key old
      → IsStrictBy key new
      → apply_side l key old (get_array_diff l old new) ≡ new
  apply_side-get_array_diff key old new ho hn =
      sorted_unique key (apply_side l key old (get_array_diff l old new)) new
        (apply_side-IsSortedBy key old (get_array_diff l old new)) hn
        (λ a. count-apply_side-diff key old new a ho hn)

  count_of_empty : (a : Level) (xs : List Level) → length xs ≡ 0 → count a xs ≡ 0
  count_of_empty a [] h = refl
  count_of_empty a (x ∷ xs) h = absurd (omega arith)

  -- Where the diff is empty the sides are equal.
  pub eq_of_no_changes :
      (key : Level → ℤ) (old new : List Level)
      → IsStrictBy key old
      → IsStrictBy key new
      → length (get_array_diff l old new).add ≡ 0
      → length (get_array_diff l old new).remove ≡ 0
      → old ≡ new
  eq_of_no_changes key old new ho hn ea er =
      sorted_unique key old new (IsSortedBy-of_strict key old ho) hn λ a. ground (
        arith,
        count-get_array_diff l old new a,
        count_of_empty a (get_array_diff l old new).add ea,
        count_of_empty a (get_array_diff l old new).remove er,
        count_le_one key a old ho,
        count_le_one key a new hn,
      )
