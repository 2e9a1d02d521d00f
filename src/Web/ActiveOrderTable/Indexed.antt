-- ===== src/Web/ActiveOrderTable/Indexed.antt =====
-- What stableSort (packages/web/src/components/trade/ActiveOrderTable.js) sorts: items with their
-- indices.
use faculty_auxie_mm.Web.Engine.{IsConsistent, IsOrderedBy}
use faculty_auxie_mm.Web.ActiveOrderTable.{stabilized, with_index, element, is_zero}
use faculty_auxie_mm.Prelude.Sorted.{IsSortedBy, IsStrictBy}
use faculty_auxie_mm.Prelude.Int.{ℤ, pos, sub_ℕ, ◌≤ℤ◌}
use faculty_auxie_mm.Prelude.{
  ◌≡◌, ◌∷◌, ◌↔◌, ◌≤◌, ◌+◌, [], List, ℕ, Bool, arith, All, All-map, refl, ap, Bool-cases, inl, inr,
  filter, map, true,
}

module _ {A : Type 0} where
  abbrev pub index : A × ℕ → ℤ
  index p = pos p.1

  pub element-stabilized : (i : ℕ) (xs : List A) → map element (stabilized i xs) ≡ xs
  element-stabilized i [] = refl
  element-stabilized i (x ∷ xs) = ap (λ r. x ∷ r) (element-stabilized (i + 1) xs)

  pub All-stabilized :
      (P : A → Type 0) (i : ℕ) (xs : List A) → All P xs → All (λ p. P p.0) (stabilized i xs)
  All-stabilized P i [] h = tt
  All-stabilized P i (x ∷ xs) h = (h.0, All-stabilized P (i + 1) xs h.1)

  stabilized-from : (i j : ℕ) (xs : List A) → i ≤ j → All (λ p. i ≤ p.1) (stabilized j xs)
  stabilized-from i j [] h = tt
  stabilized-from i j (x ∷ xs) h = (h, stabilized-from i (j + 1) xs (omega (arith, h)))

  pub stabilized-IsStrictBy : (i : ℕ) (xs : List A) → IsStrictBy index (stabilized i xs)
  stabilized-IsStrictBy i [] = tt
  stabilized-IsStrictBy i (x ∷ xs) = (
    All-map (λ p h. omega (arith, h)) (stabilized (i + 1) xs)
        (stabilized-from (i + 1) (i + 1) xs (omega arith)),
    stabilized-IsStrictBy (i + 1) xs,
  )

sub_le : (i j : ℕ) → (sub_ℕ i j ≤ℤ pos 0) ↔ (i ≤ j)
sub_le i j = ground arith

sub_ge : (i j : ℕ) → (pos 0 ≤ℤ sub_ℕ i j) ↔ (j ≤ i)
sub_ge i j = ground arith

module _ {A : Type 0} (P : A → Type 0) (comparator : A → A → ℤ) where
  with_index-flips :
      IsConsistent P comparator
      → (a b : A × ℕ) → P a.0
      → P b.0
      → (with_index comparator a b ≤ℤ pos 0) ↔ (pos 0 ≤ℤ with_index comparator b a)
  with_index-flips c (x, i) (y, j) px py =
      ground (arith, c.flips x y px py, c.flips y x py px, sub_le i j, sub_ge j i)

  with_index_le :
      (x y : A) (i j : ℕ)
      → (with_index comparator (x, i) (y, j) ≤ℤ pos 0)
        ↔ ((comparator x y ≤ℤ pos 0) × (pos 0 ≤ℤ comparator x y → i ≤ j))
  with_index_le x y i j = ground (arith, sub_le i j)

  with_index-trans :
      IsConsistent P comparator
      → (a b d : A × ℕ) → P a.0
      → P b.0
      → P d.0
      → with_index comparator a b ≤ℤ pos 0
      → with_index comparator b d ≤ℤ pos 0
      → with_index comparator a d ≤ℤ pos 0
  with_index-trans c (x, i) (y, j) (z, k) px py pz h h' =
      let (xy, tie_xy) = (with_index_le x y i j).0 h in
      let (yz, tie_yz) = (with_index_le y z j k).0 h' in
      (with_index_le x z i k).1 (
        c.trans x y z px py pz xy yz,
        λ xz.
            let zx = (c.flips z x pz px).1 xz in
            let ij : i ≤ j = tie_xy ((c.flips y x py px).0 (c.trans y z x py pz px yz zx)) in
            let jk : j ≤ k = tie_yz ((c.flips z y pz py).0 (c.trans z x y pz px py zx xy)) in
            omega (arith, ij, jk),
      )

  pub with_index-IsConsistent :
      IsConsistent P comparator → IsConsistent (λ p. P p.0) (with_index comparator)
  with_index-IsConsistent c = record { flips = with_index-flips c; trans = with_index-trans c }

  -- Two items that tie with a third tie with each other.
  ties_trans :
      IsConsistent P comparator
      → (a x y : A) → P a
      → P x
      → P y
      → is_zero (comparator a x) ≡ true
      → is_zero (comparator a y) ≡ true
      → pos 0 ≤ℤ comparator x y
  ties_trans c a x y pa px py hx hy =
      (c.flips y x py px).0
        (c.trans y a x py pa px ((c.flips y a py pa).1 (ground (arith, hy))) (ground (arith, hx)))

  module _ (c : IsConsistent P comparator) (a : A) (pa : P a) where
    abbrev pub is_tie : A × ℕ → Bool
    is_tie p = is_zero (comparator a p.0)

    All-ties :
        (p : A × ℕ) (ps : List (A × ℕ))
        → P p.0
        → is_tie p ≡ true
        → All (λ q. P q.0) ps
        → All (λ q. with_index comparator p q ≤ℤ pos 0) ps
        → All (λ q. index p ≤ℤ index q) (filter is_tie ps)
    All-ties p [] px hp h k = tt
    All-ties (x, i) ((y, j) ∷ ps) px hp h k = elim (Bool-cases (is_tie (y, j))) [
      | inl kept ↦
          let le : i ≤ j =
            ((with_index_le x y i j).0 k.0).1 (ties_trans c a x y pa px h.0 hp kept) in
          rw kept (omega (arith, le), All-ties (x, i) ps px hp h.1 k.1)
      | inr dropped ↦ rw dropped (All-ties (x, i) ps px hp h.1 k.1)
    ]

    pub ties-IsSortedBy :
        (ps : List (A × ℕ))
        → All (λ q. P q.0) ps
        → IsOrderedBy (with_index comparator) ps
        → IsSortedBy index (filter is_tie ps)
    ties-IsSortedBy [] h k = tt
    ties-IsSortedBy (p ∷ ps) h k = elim (Bool-cases (is_tie p)) [
      | inl kept ↦ rw kept (All-ties p ps h.0 kept h.1 k.0, ties-IsSortedBy ps h.1 k.1)
      | inr dropped ↦ rw dropped (ties-IsSortedBy ps h.1 k.1)
    ]

  pub elements-IsOrderedBy :
      (ps : List (A × ℕ))
      → IsOrderedBy (with_index comparator) ps
      → IsOrderedBy comparator (map element ps)
  elements-IsOrderedBy [] h = tt
  elements-IsOrderedBy ((x, i) ∷ ps) h = (below ps h.0, elements-IsOrderedBy ps h.1)
    where
      below :
          (qs : List (A × ℕ))
          → All (λ q. with_index comparator (x, i) q ≤ℤ pos 0) qs
          → All (λ y. comparator x y ≤ℤ pos 0) (map element qs)
      below [] k = tt
      below ((y, j) ∷ qs) k = (((with_index_le x y i j).0 k.0).0, below qs k.1)
