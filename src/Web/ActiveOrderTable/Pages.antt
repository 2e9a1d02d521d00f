-- ===== src/Web/ActiveOrderTable/Pages.antt =====
-- The pages of the table of packages/web/src/components/trade/ActiveOrderTable.js.
use faculty_auxie_mm.Web.Engine.{Sort}
use faculty_auxie_mm.Web.ActiveOrderTable.{
  Row, OrderTable, sorted_orders, shown_orders, drop, handle_change_page, empty_rows, stabilized,
  element, stable_sort,
}
use faculty_auxie_mm.Prelude.Int.{ℤ}
use faculty_auxie_mm.Prelude.Text.{Text}
use faculty_auxie_mm.Prelude.{
  ◌≡◌, ◌∷◌, ◌≤◌, ◌<◌, ◌*◌, ◌+◌, ◌++◌, ◌-◌, [], List, ℕ, arith, Option, refl, length, take, zero,
  suc, ap, ◌∙◌, sym, map, length-take,
}

module _ {A : Type 0} where
  take-drop : (n : ℕ) (xs : List A) → take n xs ++ drop n xs ≡ xs
  take-drop zero xs = refl
  take-drop (suc n) [] = refl
  take-drop (suc n) (x ∷ xs) = ap (λ r. x ∷ r) (take-drop n xs)

  drop-empty : (n : ℕ) → drop {A = A} n [] ≡ []
  drop-empty zero = refl
  drop-empty (suc n) = refl

  drop-drop : (m n : ℕ) (xs : List A) → drop m (drop n xs) ≡ drop (n + m) xs
  drop-drop m zero xs = ap (λ k. drop k xs) (omega arith)
  drop-drop m (suc n) [] = drop-empty m ∙ sym (drop-empty (suc n + m))
  drop-drop m (suc n) (x ∷ xs) =
      drop-drop m n xs ∙ ap (λ k. drop k (x ∷ xs)) {x = suc (n + m)} (omega arith)

  drop-all : (n : ℕ) (xs : List A) → length xs ≤ n → drop n xs ≡ []
  drop-all zero [] h = refl
  drop-all zero (x ∷ xs) h = absurd (omega (arith, h))
  drop-all (suc n) [] h = refl
  drop-all (suc n) (x ∷ xs) h = drop-all n xs (omega (arith, h))

  length-drop : (n : ℕ) (xs : List A) → length (drop n xs) ≡ length xs - n
  length-drop zero xs = omega arith
  length-drop (suc n) [] = omega arith
  length-drop (suc n) (x ∷ xs) = omega (arith, length-drop n xs)

  length-stabilized : (i : ℕ) (xs : List A) → length (stabilized i xs) ≡ length xs
  length-stabilized i [] = refl
  length-stabilized i (x ∷ xs) = ap suc (length-stabilized (i + 1) xs)

length-map : {A B : Type 0} (f : A → B) (xs : List A) → length (map f xs) ≡ length xs
length-map f [] = refl
length-map f (x ∷ xs) = ap suc (length-map f xs)

module _ (number_of : Text → Option ℤ) (engine : Sort) where
  -- What a number of pages from one on show, one behind the other.
  abbrev pub pages : ℕ → ℕ → OrderTable → List Row
  pages from zero t = []
  pages from (suc n) t =
      shown_orders number_of engine (handle_change_page from t) ++ pages (from + 1) n t

  length-sorted_orders :
      (t : OrderTable) → length (sorted_orders number_of engine t) ≡ length t.orders
  unfolding sorted_orders stable_sort
  length-sorted_orders t =
      length-map element _ ∙ engine.length-sort _ _ ∙ length-stabilized 0 t.orders

  pages-from :
      (t : OrderTable) (from n : ℕ)
      → length t.orders ≤ (from + n) * t.rows_per_page
      → pages from n t ≡ drop (from * t.rows_per_page) (sorted_orders number_of engine t)
  unfolding shown_orders handle_change_page sorted_orders
  pages-from t from zero h =
      sym (drop-all _ (sorted_orders number_of engine t) (omega (arith, h, length-sorted_orders t)))
  pages-from t from (suc n) h =
      let rows : List Row = sorted_orders number_of engine t in
      let r : ℕ = t.rows_per_page in
      let next : (from + 1) * r ≡ from * r + r = omega arith in
      ap (λ rest. take r (drop (from * r) rows) ++ rest)
        (pages-from t (from + 1) n (omega (arith, h))
          ∙ ap (λ k. drop k rows) next
          ∙ sym (drop-drop r (from * r) rows))
      ∙ take-drop r (drop (from * r) rows)

  -- The pages show the sorted orders, one behind the other, as soon as they have room for all. On a
  -- page behind the first that some order is on or next to, the empty rows make up for those that are
  -- missing.
  pub pages-sorted_orders :
      (t : OrderTable) (n : ℕ)
      → length t.orders ≤ n * t.rows_per_page
      → (pages 0 n t ≡ sorted_orders number_of engine t)
        × (0 < t.page
            → t.page * t.rows_per_page ≤ length t.orders
            → length (shown_orders number_of engine t) + empty_rows t ≡ t.rows_per_page)
  unfolding shown_orders empty_rows
  pages-sorted_orders t n h =
      let rows : List Row = sorted_orders number_of engine t in
      let before : ℕ = t.page * t.rows_per_page in
      let through : (1 + t.page) * t.rows_per_page ≡ before + t.rows_per_page = omega arith in
      (
        pages-from t 0 n (omega (arith, h)) ∙ ap (λ k. drop k rows) {y = 0} (omega arith),
        λ behind near. ground (
          arith,
          through,
          length-take t.rows_per_page (drop before rows),
          length-drop before rows,
          length-sorted_orders t,
        ),
      )
