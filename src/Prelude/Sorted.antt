-- ===== src/Prelude/Sorted.antt =====
-- Lists sorted by an integer key, and the uniqueness of a sorted arrangement.
use Prim.Native.Nat.{◌≤◌, ◌<◌}
use mathlib.Core.Path.{◌≡◌, refl, ap, sym, subst}
use mathlib.Core.Logic.{inl, inr}
use mathlib.Core.Bool.{true, Bool}
use mathlib.Core.List.{List, [], ◌∷◌}
use native.Mathlib.Omega.{arith}
use faculty_auxie_mm.Prelude.Tests.{Bool-cases}
use faculty_auxie_mm.Prelude.Lists.{All, filter, All-filter}
use faculty_auxie_mm.Prelude.Count.{Eq, count, beq_refl}
use faculty_auxie_mm.Prelude.Int.{ℤ, ◌≤ℤ◌, ◌<ℤ◌}

module _ {ℓ} {A : Type ℓ} (key : A → ℤ) where
  abbrev pub IsSortedBy : List A → Type 0
  IsSortedBy [] = Unit
  IsSortedBy (x ∷ xs) = All (λ y. key x ≤ℤ key y) xs × IsSortedBy xs

  -- Sorted with no two keys the same.
  abbrev pub IsStrictBy : List A → Type 0
  IsStrictBy [] = Unit
  IsStrictBy (x ∷ xs) = All (λ y. key x <ℤ key y) xs × IsStrictBy xs

module _ {ℓ} {A : Type ℓ} ⦃e : Eq A⦄ where
  pub All_at {κ} : (P : A → Type κ) (a : A) (xs : List A) → All P xs → 0 < count a xs → P a
  All_at P a [] h m = absurd (omega arith)
  All_at P a (x ∷ xs) h m = elim (Bool-cases (e.beq a x)) [
    | inl same ↦ subst P (sym ((e.beq_iff a x).0 same)) h.0
    | inr other ↦ All_at P a xs h.1 (ground arith)
  ]

  pub count_le_one : (key : A → ℤ) (a : A) (xs : List A) → IsStrictBy key xs → count a xs ≤ 1
  count_le_one key a [] h = omega arith
  count_le_one key a (x ∷ xs) h = elim (Bool-cases (e.beq a x)) [
    | inl same ↦
        let q : key a ≡ key x = ap key ((e.beq_iff a x).0 same) in
        let absent : ¬ (0 < count a xs) =
          λ m. let l : key x <ℤ key a = All_at (λ y. key x <ℤ key y) a xs h.0 m in ground arith in
        ground arith
    | inr other ↦ ground (arith, count_le_one key a xs h.1)
  ]

  head_eq :
      (key : A → ℤ) (x y : A) (xs ys : List A)
      → IsSortedBy key (x ∷ xs)
      → IsStrictBy key (y ∷ ys)
      → count x (x ∷ xs) ≡ count x (y ∷ ys)
      → count y (x ∷ xs) ≡ count y (y ∷ ys)
      → x ≡ y
  head_eq key x y xs ys hx hy ex ey = elim (Bool-cases (e.beq x y)) [
    | inl same ↦ (e.beq_iff x y).0 same
    | inr other ↦
        let rx : e.beq x x ≡ true = beq_refl x in
        let ry : e.beq y y ≡ true = beq_refl y in
        let below : key y <ℤ key x = All_at (λ z. key y <ℤ key z) x ys hy.0 (ground arith) in
        elim (Bool-cases (e.beq y x)) [
          | inl back ↦ sym ((e.beq_iff y x).0 back)
          | inr apart ↦
              let above : key x ≤ℤ key y = All_at (λ z. key x ≤ℤ key z) y xs hx.0 (ground arith) in
              absurd (omega arith)
        ]
  ]

  -- A sorted list with the items of a strictly sorted one is that list.
  pub sorted_unique :
      (key : A → ℤ) (xs ys : List A)
      → IsSortedBy key xs
      → IsStrictBy key ys
      → ((a : A) → count a xs ≡ count a ys)
      → xs ≡ ys
  sorted_unique key [] [] hx hy same = refl
  sorted_unique key [] (y ∷ ys) hx hy same =
      let r : e.beq y y ≡ true = beq_refl y in absurd (ground (arith, same y))
  sorted_unique key (x ∷ xs) [] hx hy same =
      let r : e.beq x x ≡ true = beq_refl x in absurd (ground (arith, same x))
  sorted_unique key (x ∷ xs) (y ∷ ys) hx hy same =
      let q : x ≡ y = head_eq key x y xs ys hx hy (same x) (same y) in
      let rest : xs ≡ ys =
        sorted_unique key xs ys hx.1 hy.1
          (λ a. let b : e.beq a x ≡ e.beq a y = ap (e.beq a) q in ground (arith, same a)) in
      cc

module _ {ℓ} {A : Type ℓ} where
  pub IsStrictBy-filter :
      (key : A → ℤ) (p : A → Bool) (xs : List A) → IsStrictBy key xs → IsStrictBy key (filter p xs)
  IsStrictBy-filter key p [] h = tt
  IsStrictBy-filter key p (x ∷ xs) h = elim (Bool-cases (p x)) [
    | inl kept ↦ rw kept (All-filter (λ y. key x <ℤ key y) p xs h.0, IsStrictBy-filter key p xs h.1)
    | inr dropped ↦ rw dropped (IsStrictBy-filter key p xs h.1)
  ]
