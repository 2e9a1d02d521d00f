-- ===== src/Web/Engine.antt =====
-- The sort of JavaScript's arrays, as ActiveOrderTable.js and HistoryTable.js of packages/web/src/
-- components/trade use it.
use faculty_auxie_mm.Prelude.Count.{Eq, count}
use faculty_auxie_mm.Prelude.Int.{ℤ, pos, ◌≤ℤ◌, leb_ℤ}
use faculty_auxie_mm.Prelude.{
  ◌≡◌, ◌∷◌, ◌↔◌, [], List, arith, All, if◌then◌else◌, refl, Bool-cases, inl, inr, length, ◌+◌,
}

module _ {A : Type 0} where
  -- A consistent comparator, on the items of which a predicate holds.
  pub record IsConsistent (P : A → Type 0) (comparator : A → A → ℤ) : Type 0 where
    pub flips : (a b : A) → P a → P b → (comparator a b ≤ℤ pos 0) ↔ (pos 0 ≤ℤ comparator b a)
    pub trans :
        (a b c : A)
        → P a
        → P b
        → P c
        → comparator a b ≤ℤ pos 0
        → comparator b c ≤ℤ pos 0
        → comparator a c ≤ℤ pos 0

  abbrev pub IsOrderedBy : (A → A → ℤ) → List A → Type 0
  IsOrderedBy comparator [] = Unit
  IsOrderedBy comparator (x ∷ xs) =
      All (λ y. comparator x y ≤ℤ pos 0) xs × IsOrderedBy comparator xs

-- Array.prototype.sort
pub record Sort : Type 1 where
  pub sort : {A : Type 0} → (A → A → ℤ) → List A → List A
  pub count-sort :
      {A : Type 0} ⦃e : Eq A⦄ (comparator : A → A → ℤ) (xs : List A) (a : A)
      → count a (sort comparator xs) ≡ count a xs
  pub length-sort :
      {A : Type 0} (comparator : A → A → ℤ) (xs : List A) → length (sort comparator xs) ≡ length xs
  pub sort-IsOrderedBy :
      {A : Type 0} ⦃e : Eq A⦄ (P : A → Type 0) (comparator : A → A → ℤ) (xs : List A)
      → IsConsistent P comparator
      → All P xs
      → IsOrderedBy comparator (sort comparator xs)

module _ {A : Type 0} where
  abbrev insert_ordered : (A → A → ℤ) → A → List A → List A
  insert_ordered comparator x [] = x ∷ []
  insert_ordered comparator x (y ∷ ys) =
      let rest = insert_ordered comparator x ys in
      if leb_ℤ (comparator x y) (pos 0) then x ∷ y ∷ ys else y ∷ rest

  abbrev pub sort_by_insertion : (A → A → ℤ) → List A → List A
  sort_by_insertion comparator [] = []
  sort_by_insertion comparator (x ∷ xs) =
      insert_ordered comparator x (sort_by_insertion comparator xs)

  All-insert_ordered :
      (P : A → Type 0) (comparator : A → A → ℤ) (x : A) (ys : List A)
      → P x
      → All P ys
      → All P (insert_ordered comparator x ys)
  All-insert_ordered P comparator x [] h k = (h, tt)
  All-insert_ordered P comparator x (y ∷ ys) h k =
      elim (Bool-cases (leb_ℤ (comparator x y) (pos 0))) [
        | inl below ↦ rw below (h, k)
        | inr above ↦ rw above (k.0, All-insert_ordered P comparator x ys h k.1)
      ]

  All-sort_by_insertion :
      (P : A → Type 0) (comparator : A → A → ℤ) (xs : List A)
      → All P xs
      → All P (sort_by_insertion comparator xs)
  All-sort_by_insertion P comparator [] h = tt
  All-sort_by_insertion P comparator (x ∷ xs) h =
      All-insert_ordered P comparator x (sort_by_insertion comparator xs) h.0
        (All-sort_by_insertion P comparator xs h.1)

  All-below :
      (P : A → Type 0) (comparator : A → A → ℤ) (x y : A) (ys : List A)
      → IsConsistent P comparator
      → P x
      → P y
      → All P ys
      → comparator x y ≤ℤ pos 0
      → All (λ z. comparator y z ≤ℤ pos 0) ys
      → All (λ z. comparator x z ≤ℤ pos 0) ys
  All-below P comparator x y [] c px py p h k = tt
  All-below P comparator x y (z ∷ zs) c px py p h k =
      (c.trans x y z px py p.0 h k.0, All-below P comparator x y zs c px py p.1 h k.1)

  insert_ordered-IsOrderedBy :
      (P : A → Type 0) (comparator : A → A → ℤ) (x : A) (ys : List A)
      → IsConsistent P comparator
      → P x
      → All P ys
      → IsOrderedBy comparator ys
      → IsOrderedBy comparator (insert_ordered comparator x ys)
  insert_ordered-IsOrderedBy P comparator x [] c px p h = (tt, tt)
  insert_ordered-IsOrderedBy P comparator x (y ∷ ys) c px p h =
      elim (Bool-cases (leb_ℤ (comparator x y) (pos 0))) [
        | inl below ↦
            let le : comparator x y ≤ℤ pos 0 = ground (arith, below) in
            rw below ((le, All-below P comparator x y ys c px p.0 p.1 le h.0), h)
        | inr above ↦
            let le : comparator y x ≤ℤ pos 0 = (c.flips y x p.0 px).1 (ground (arith, above)) in
            rw above (
              All-insert_ordered (λ z. comparator y z ≤ℤ pos 0) comparator x ys le h.0,
              insert_ordered-IsOrderedBy P comparator x ys c px p.1 h.1,
            )
      ]

  pub sort_by_insertion-IsOrderedBy :
      (P : A → Type 0) (comparator : A → A → ℤ) (xs : List A)
      → IsConsistent P comparator
      → All P xs
      → IsOrderedBy comparator (sort_by_insertion comparator xs)
  sort_by_insertion-IsOrderedBy P comparator [] c p = tt
  sort_by_insertion-IsOrderedBy P comparator (x ∷ xs) c p =
      insert_ordered-IsOrderedBy P comparator x (sort_by_insertion comparator xs) c p.0
        (All-sort_by_insertion P comparator xs p.1)
        (sort_by_insertion-IsOrderedBy P comparator xs c p.1)

  count-insert_ordered :
      ⦃e : Eq A⦄ (comparator : A → A → ℤ) (x : A) (ys : List A) (a : A)
      → count a (insert_ordered comparator x ys) ≡ count a (x ∷ ys)
  count-insert_ordered comparator x [] a = refl
  count-insert_ordered comparator x (y ∷ ys) a =
      ground (arith, count-insert_ordered comparator x ys a)

  pub count-sort_by_insertion :
      ⦃e : Eq A⦄ (comparator : A → A → ℤ) (xs : List A) (a : A)
      → count a (sort_by_insertion comparator xs) ≡ count a xs
  count-sort_by_insertion comparator [] a = refl
  count-sort_by_insertion comparator (x ∷ xs) a = ground (
    arith,
    count-insert_ordered comparator x (sort_by_insertion comparator xs) a,
    count-sort_by_insertion comparator xs a,
  )

length-insert_ordered :
    {A : Type 0} (comparator : A → A → ℤ) (x : A) (ys : List A)
    → length (insert_ordered comparator x ys) ≡ length ys + 1
length-insert_ordered comparator x [] = refl
length-insert_ordered comparator x (y ∷ ys) = ground (arith, length-insert_ordered comparator x ys)

pub length-sort_by_insertion :
    {A : Type 0} (comparator : A → A → ℤ) (xs : List A)
    → length (sort_by_insertion comparator xs) ≡ length xs
length-sort_by_insertion comparator [] = refl
length-sort_by_insertion comparator (x ∷ xs) = ground (
  arith,
  length-insert_ordered comparator x (sort_by_insertion comparator xs),
  length-sort_by_insertion comparator xs,
)

-- An engine that sorts by insertion.
abbrev pub insertion_engine : Sort
insertion_engine = record {
  sort = sort_by_insertion;
  count-sort = count-sort_by_insertion;
  length-sort = length-sort_by_insertion;
  sort-IsOrderedBy = λ P comparator xs c p. sort_by_insertion-IsOrderedBy P comparator xs c p;
}
