-- ===== src/MagicBox/Adapter/Laws.antt =====
-- What a plugin is told about the times of the data that it reads.
use faculty_auxie_mm.MagicBox.Reader.Books.{newest_book}
use faculty_auxie_mm.Prelude.Text.{Text, codes}
use faculty_auxie_mm.Book.{OrderBook}
use faculty_auxie_mm.MagicBox.Cache.{DataStreamService, slot_of}
use faculty_auxie_mm.Keys.{build_key, observable_key}
use faculty_auxie_mm.MagicBox.Adapter.{
  are_within, maximum, minimum, ltb, head?, get_order_book, sliced, get_order_books, build_key,
  Text, public_tenant, codes,
}
use faculty_auxie_mm.Prelude.{
  ◌≡◌, ◌∷◌, ◌+◌, ◌≤◌, ◌<◌, ◌↔◌, true, [], inl, inr, List, ℕ, arith, All, length, Bool-cases, ltb,
  if◌then◌else◌, some, refl, Bool, head?, All-map,
}

-- The largest and the smallest of a list stand in it.
pub maximum-All : (P : ℕ → Type 0) (x : ℕ) (xs : List ℕ) → All P (x ∷ xs) → P (maximum x xs)
maximum-All P x [] h = h.0
maximum-All P x (y ∷ ys) h = elim (Bool-cases (ltb x (maximum y ys))) [
  | inl is ↦ rw is (maximum-All P y ys h.1)
  | inr other ↦ rw other h.0
]

pub minimum-All : (P : ℕ → Type 0) (x : ℕ) (xs : List ℕ) → All P (x ∷ xs) → P (minimum x xs)
minimum-All P x [] h = h.0
minimum-All P x (y ∷ ys) h = elim (Bool-cases (ltb (minimum y ys) x)) [
  | inl is ↦ rw is (minimum-All P y ys h.1)
  | inr other ↦ rw other h.0
]

pub maximum_bounds : (x : ℕ) (xs : List ℕ) → All (λ y. y ≤ maximum x xs) (x ∷ xs)
maximum_bounds x [] = (omega arith, tt)
maximum_bounds x (y ∷ ys) =
    let m = maximum y ys in
    let above : (x ≤ maximum x (y ∷ ys)) × (m ≤ maximum x (y ∷ ys)) = ground arith in
    (above.0, All-map (λ z h. omega (arith, h, above.1)) (y ∷ ys) (maximum_bounds y ys))

pub minimum_bounds : (x : ℕ) (xs : List ℕ) → All (λ y. minimum x xs ≤ y) (x ∷ xs)
minimum_bounds x [] = (omega arith, tt)
minimum_bounds x (y ∷ ys) =
    let m = minimum y ys in
    let below : (minimum x (y ∷ ys) ≤ x) × (minimum x (y ∷ ys) ≤ m) = ground arith in
    (below.0, All-map (λ z h. omega (arith, h, below.1)) (y ∷ ys) (minimum_bounds y ys))

-- Each two times differ by no more than a threshold.
abbrev pub IsClose : ℕ → List ℕ → Type 0
IsClose d ts = All (λ a. All (λ b. a ≤ b + d) ts) ts

IsClose-ends : (d t : ℕ) (ts : List ℕ) → IsClose d (t ∷ ts) ↔ (maximum t ts ≤ minimum t ts + d)
IsClose-ends d t ts = (
  λ h.
      maximum-All (λ a. a ≤ minimum t ts + d) t ts
        (All-map (λ a k. minimum-All (λ b. a ≤ b + d) t ts k) (t ∷ ts) h),
  λ le.
      All-map
        (λ a above.
          All-map (λ b below. omega (arith, above, below, le)) (t ∷ ts) (minimum_bounds t ts))
        (t ∷ ts) (maximum_bounds t ts),
)

-- The times of a list are found to be within a threshold exactly where there is one and each two
-- differ by no more than the threshold.
pub are_within_iff :
    (ts : List ℕ) (d : ℕ) → (are_within ts d ≡ true) ↔ ((0 < length ts) × IsClose d ts)
unfolding are_within
are_within_iff [] d = (λ h. cc, λ h. absurd (omega (arith, h.0)))
are_within_iff (t ∷ ts) d =
    let ends = IsClose-ends d t ts in
    (λ h. (omega arith, ends.1 (ground (arith, h))), λ h. let le = ends.0 h.1 in ground (arith, le))

head?-sliced : {A : Type 0} (xs : List A) → head? (sliced (some 1) xs) ≡ head? xs
head?-sliced [] = refl
head?-sliced (x ∷ xs) = refl

-- For every exchange and symbol, a plugin's getOrderBook gives the newest book that is cached under
-- the key of the reader of that order book: the reader of its own tenant or of the public one.
pub get_order_book-newest :
    (s : DataStreamService OrderBook) (tenant exchange_id symbol : Text) (is_public : Bool)
    → get_order_book s.cache tenant exchange_id symbol is_public
      ≡ newest_book
          (observable_key
            (if is_public then public_tenant else tenant)
            exchange_id
            (codes "watchOrderBook")
            (some symbol))
          s
unfolding get_order_book get_order_books build_key observable_key
get_order_book-newest s tenant exchange_id symbol is_public =
    let reader_tenant = if is_public then public_tenant else tenant in
    head?-sliced
      (slot_of s (observable_key reader_tenant exchange_id (codes "watchOrderBook") (some symbol)))
