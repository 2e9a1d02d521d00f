-- ===== src/Prelude/Count.antt =====
-- How often an item occurs, for any type with a Boolean equality: lists as multisets.
use Prim.Native.Nat.{ℕ, ◌+◌, ◌<◌}
use mathlib.Core.Path.{◌≡◌, refl, ap}
use mathlib.Core.Logic.{◌↔◌, inl, inr}
use mathlib.Core.Bool.{Bool, true, ◌&&◌, false}
use mathlib.Core.List.{List, [], ◌∷◌, ◌++◌}
use native.Mathlib.Omega.{arith}
use faculty_auxie_mm.Prelude.Tests.{if◌then◌else◌, ltb, Bool-cases}
use faculty_auxie_mm.Prelude.Lists.{filter, All}

-- An equality test that decides equality.
pub record Eq {ℓ} (A : Type ℓ) : Type ℓ where
  pub beq : A → A → Bool
  pub beq_iff : (a b : A) → (beq a b ≡ true) ↔ (a ≡ b)

abbrev pub pair_eq {ℓ κ} :
    {A : Type ℓ} {B : Type κ} → (A → A → Bool) → (B → B → Bool) → A × B → A × B → Bool
pair_eq eq_a eq_b (x, y) (v, w) = eq_a x v && eq_b y w

pub pair_eq_iff {ℓ κ} :
    {A : Type ℓ} {B : Type κ} (a : Eq A) (b : Eq B) (p q : A × B)
    → (pair_eq a.beq b.beq p q ≡ true) ↔ (p ≡ q)
pair_eq_iff a b (x, y) (v, w) = ground (arith, a.beq_iff x v, b.beq_iff y w)

abbrev pub pair_Eq {ℓ κ} : {A : Type ℓ} {B : Type κ} → Eq A → Eq B → Eq (A × B)
pair_Eq a b = record { beq = pair_eq a.beq b.beq; beq_iff = pair_eq_iff a b }

abbrev pub list_eq {ℓ} : {A : Type ℓ} → (A → A → Bool) → List A → List A → Bool
list_eq eq [] [] = true
list_eq eq [] (y ∷ ys) = false
list_eq eq (x ∷ xs) [] = false
list_eq eq (x ∷ xs) (y ∷ ys) = eq x y && list_eq eq xs ys

pub list_eq_iff {ℓ} :
    {A : Type ℓ} (e : Eq A) (xs ys : List A) → (list_eq e.beq xs ys ≡ true) ↔ (xs ≡ ys)
list_eq_iff e [] [] = ground arith
list_eq_iff e [] (y ∷ ys) = ground arith
list_eq_iff e (x ∷ xs) [] = ground arith
list_eq_iff e (x ∷ xs) (y ∷ ys) = ground (arith, e.beq_iff x y, list_eq_iff e xs ys)

abbrev pub list_Eq {ℓ} : {A : Type ℓ} → Eq A → Eq (List A)
list_Eq e = record { beq = list_eq e.beq; beq_iff = list_eq_iff e }

module _ {ℓ} {A : Type ℓ} ⦃e : Eq A⦄ where
  abbrev pub count : A → List A → ℕ
  count a [] = 0
  count a (x ∷ xs) = (if e.beq a x then 1 else 0) + count a xs

  abbrev pub contains : List A → A → Bool
  contains xs a = ltb 0 (count a xs)

  pub count-append : (a : A) (xs ys : List A) → count a (xs ++ ys) ≡ count a xs + count a ys
  count-append a [] ys = omega arith
  count-append a (x ∷ xs) ys = ground (arith, count-append a xs ys)

  pub beq_refl : (a : A) → e.beq a a ≡ true
  beq_refl a = (e.beq_iff a a).1 refl

  -- What holds of all items that occur holds of the list.
  pub All-of_count {κ} :
      (P : A → Type κ) (xs : List A) → ((a : A) → 0 < count a xs → P a) → All P xs
  All-of_count P [] h = tt
  All-of_count P (x ∷ xs) h =
      (h x (ground (arith, beq_refl x)), All-of_count P xs (λ a m. h a (ground arith)))

  pub count-filter :
      (p : A → Bool) (a : A) (xs : List A) → count a (filter p xs) ≡ (if p a then count a xs else 0)
  count-filter p a [] = ground arith
  count-filter p a (x ∷ xs) = elim (Bool-cases (e.beq a x)) [
    | inl same ↦
        let q : p a ≡ p x = ap p ((e.beq_iff a x).0 same) in ground (arith, count-filter p a xs)
    | inr other ↦ ground (arith, count-filter p a xs)
  ]
