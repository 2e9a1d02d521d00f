-- ===== src/MagicBox/Reader/Laws.antt =====
-- Lists in the order of an id, and what stands behind an id in them.
use faculty_auxie_mm.Prelude.{
  ◌≡◌, ◌∷◌, ◌++◌, ◌≤◌, ◌<◌, ◌&&◌, false, refl, [], List, Bool, ℕ, arith, filter, ltb, lt→ltb,
}

module _ {A : Type 0} (id_of : A → ℕ) where
  -- Every item has an id above the one before it.
  abbrev pub IsIncreasing : ℕ → List A → Type 0
  IsIncreasing id [] = Unit
  IsIncreasing id (e ∷ es) = (id < id_of e) × IsIncreasing (id_of e) es

  abbrev pub last_id : ℕ → List A → ℕ
  last_id id [] = id
  last_id id (e ∷ es) = last_id (id_of e) es

  -- the items behind an id that a test selects
  abbrev pub behind : (A → Bool) → ℕ → List A → List A
  behind p id = filter (λ e. ltb id (id_of e) && p e)

  pub last_id-append :
      (id : ℕ) (xs ys : List A) → last_id id (xs ++ ys) ≡ last_id (last_id id xs) ys
  last_id-append id [] ys = refl
  last_id-append id (x ∷ xs) ys = last_id-append (id_of x) xs ys

  first_le_last : (id : ℕ) (xs ys : List A) → IsIncreasing id (xs ++ ys) → id ≤ last_id id xs
  first_le_last id [] ys h = omega arith
  first_le_last id (x ∷ xs) ys h = omega (arith, h.0, first_le_last (id_of x) xs ys h.1)

  all_behind :
      (p : A → Bool) (i j : ℕ) (xs : List A)
      → i ≤ j
      → IsIncreasing j xs
      → behind p i xs ≡ filter p xs
  all_behind p i j [] le h = refl
  all_behind p i j (x ∷ xs) le h =
      let above : i < id_of x = omega (arith, le, h.0) in
      let rest = all_behind p i (id_of x) xs (omega (arith, above)) h.1 in
      rw (lt→ltb i (id_of x) above, rest) refl

  -- Of an increasing list, what is behind the last id of its first part is its second part.
  pub behind-append :
      (p : A → Bool) (id : ℕ) (seen unseen : List A)
      → IsIncreasing id (seen ++ unseen)
      → behind p (last_id id seen) (seen ++ unseen) ≡ filter p unseen
  behind-append p id [] unseen h = all_behind p id id unseen (omega arith) h
  behind-append p id (x ∷ xs) unseen h =
      let le = first_le_last (id_of x) xs unseen h.1 in
      let rest = behind-append p (id_of x) xs unseen h.1 in
      let dropped : ltb (last_id (id_of x) xs) (id_of x) ≡ false = ground (arith, le) in
      rw (dropped, rest) refl

  all_above :
      (i j : ℕ) (xs : List A) → i ≤ j → IsIncreasing j xs → filter (λ e. ltb i (id_of e)) xs ≡ xs
  all_above i j [] le h = refl
  all_above i j (x ∷ xs) le h =
      let above : i < id_of x = omega (arith, le, h.0) in
      let rest = all_above i (id_of x) xs (omega (arith, above)) h.1 in
      rw (lt→ltb i (id_of x) above, rest) refl

  -- The same of all items.
  pub behind_last :
      (id : ℕ) (seen unseen : List A)
      → IsIncreasing id (seen ++ unseen)
      → filter (λ e. ltb (last_id id seen) (id_of e)) (seen ++ unseen) ≡ unseen
  behind_last id [] unseen h = all_above id id unseen (omega arith) h
  behind_last id (x ∷ xs) unseen h =
      let le = first_le_last (id_of x) xs unseen h.1 in
      let rest = behind_last (id_of x) xs unseen h.1 in
      let dropped : ltb (last_id (id_of x) xs) (id_of x) ≡ false = ground (arith, le) in
      rw (dropped, rest) refl

  pub IsIncreasing-prefix :
      (id : ℕ) (xs ys : List A) → IsIncreasing id (xs ++ ys) → IsIncreasing id xs
  IsIncreasing-prefix id [] ys h = tt
  IsIncreasing-prefix id (x ∷ xs) ys h = (h.0, IsIncreasing-prefix (id_of x) xs ys h.1)
