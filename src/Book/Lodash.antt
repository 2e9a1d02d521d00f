-- ===== src/Book/Lodash.antt =====
-- The three functions of lodash that the order book code calls, with their documented behaviour.
use faculty_auxie_mm.Prelude.{
  ◌≡◌, ◌↔◌, refl, Bool, true, List, [], ◌∷◌, foldl, arith, any, if◌then◌else◌, filter, not,
  Bool-cases, inl, inr, All,
}
use faculty_auxie_mm.Prelude.Count.{Eq, count, count-filter}
use faculty_auxie_mm.Prelude.Int.{ℤ, ◌≤ℤ◌, leb_ℤ}
use faculty_auxie_mm.Prelude.Sorted.{IsSortedBy}

pub record Lodash (A : Type 0) ⦃e : Eq A⦄ : Type 0 where
  pub is_equal : A → A → Bool
  pub pull_all_with : List A → List A → (A → A → Bool) → List A
  pub sort_by : List A → (A → ℤ) → List A
  pub reduce : List A → (List A → A → List A) → List A → List A
  -- a deep comparison decides equality
  pub is_equal_iff : (a b : A) → (is_equal a b ≡ true) ↔ (a ≡ b)
  -- the accumulator goes through the items from the first to the last
  pub reduce-eq-foldl :
      (xs : List A) (f : List A → A → List A) (start : List A)
      → reduce xs f start ≡ foldl f start xs
  -- what the comparator matches to one of the values is removed, and nothing else
  pub count-pull_all_with :
      (xs values : List A) (cmp : A → A → Bool) (a : A)
      → count a (pull_all_with xs values cmp) ≡ (if any (cmp a) values then 0 else count a xs)
  -- the items are rearranged in ascending order of their keys
  pub count-sort_by : (xs : List A) (key : A → ℤ) (a : A) → count a (sort_by xs key) ≡ count a xs
  pub sort_by-IsSortedBy : (xs : List A) (key : A → ℤ) → IsSortedBy key (sort_by xs key)

-- An implementation that meets them.
module _ {A : Type 0} ⦃e : Eq A⦄ where
  abbrev pub insert_by : (A → ℤ) → A → List A → List A
  insert_by key x [] = x ∷ []
  insert_by key x (y ∷ ys) =
      let rest = insert_by key x ys in if leb_ℤ (key x) (key y) then x ∷ y ∷ ys else y ∷ rest

  abbrev pub insertion_sort : List A → (A → ℤ) → List A
  insertion_sort [] key = []
  insertion_sort (x ∷ xs) key = insert_by key x (insertion_sort xs key)

  abbrev pub remove_matching : List A → List A → (A → A → Bool) → List A
  remove_matching xs values cmp = filter (λ a. not (any (cmp a) values)) xs

  pub count-remove_matching :
      (xs values : List A) (cmp : A → A → Bool) (a : A)
      → count a (remove_matching xs values cmp) ≡ (if any (cmp a) values then 0 else count a xs)
  count-remove_matching xs values cmp a =
      ground (arith, count-filter (λ x. not (any (cmp x) values)) a xs)

  count-insert_by :
      (key : A → ℤ) (x : A) (ys : List A) (a : A) → count a (insert_by key x ys) ≡ count a (x ∷ ys)
  count-insert_by key x [] a = refl
  count-insert_by key x (y ∷ ys) a = ground (arith, count-insert_by key x ys a)

  pub count-insertion_sort :
      (xs : List A) (key : A → ℤ) (a : A) → count a (insertion_sort xs key) ≡ count a xs
  count-insertion_sort [] key a = refl
  count-insertion_sort (x ∷ xs) key a =
      ground (arith, count-insertion_sort xs key a, count-insert_by key x (insertion_sort xs key) a)

  All-le_trans :
      (key : A → ℤ) (x y : A) (ys : List A)
      → key x ≤ℤ key y
      → All (λ z. key y ≤ℤ key z) ys
      → All (λ z. key x ≤ℤ key z) ys
  All-le_trans key x y [] h k = tt
  All-le_trans key x y (z ∷ zs) h k = (omega arith, All-le_trans key x y zs h k.1)

  All-insert_by :
      (key : A → ℤ) (x y : A) (ys : List A)
      → key y ≤ℤ key x
      → All (λ z. key y ≤ℤ key z) ys
      → All (λ z. key y ≤ℤ key z) (insert_by key x ys)
  All-insert_by key x y [] h k = (h, tt)
  All-insert_by key x y (z ∷ zs) h k = elim (Bool-cases (leb_ℤ (key x) (key z))) [
    | inl below ↦ rw below (h, k)
    | inr above ↦ rw above (k.0, All-insert_by key x y zs h k.1)
  ]

  insert_by-IsSortedBy :
      (key : A → ℤ) (x : A) (ys : List A) → IsSortedBy key ys → IsSortedBy key (insert_by key x ys)
  insert_by-IsSortedBy key x [] h = (tt, tt)
  insert_by-IsSortedBy key x (y ∷ ys) h = elim (Bool-cases (leb_ℤ (key x) (key y))) [
    | inl below ↦ rw below ((ground arith, All-le_trans key x y ys (ground arith) h.0), h)
    | inr above ↦
        rw above (All-insert_by key x y ys (ground arith) h.0, insert_by-IsSortedBy key x ys h.1)
  ]

  pub insertion_sort-IsSortedBy :
      (xs : List A) (key : A → ℤ) → IsSortedBy key (insertion_sort xs key)
  insertion_sort-IsSortedBy [] key = tt
  insertion_sort-IsSortedBy (x ∷ xs) key =
      insert_by-IsSortedBy key x (insertion_sort xs key) (insertion_sort-IsSortedBy xs key)

  abbrev pub plain_lodash : Lodash A
  plain_lodash = record {
    is_equal = e.beq;
    pull_all_with = remove_matching;
    sort_by = insertion_sort;
    reduce = λ xs f start. foldl f start xs;
    is_equal_iff = e.beq_iff;
    reduce-eq-foldl = λ xs f start. refl;
    count-pull_all_with = count-remove_matching;
    count-sort_by = count-insertion_sort;
    sort_by-IsSortedBy = insertion_sort-IsSortedBy;
  }
