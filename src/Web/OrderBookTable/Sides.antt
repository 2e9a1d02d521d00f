-- ===== src/Web/OrderBookTable/Sides.antt =====
-- One side of the table of an order book (packages/web/src/components/trade/OrderBookTable.js).
use faculty_auxie_mm.Prelude.Int.{ℤ, ◌<ℤ◌}
use mathlib.Core.List.{reverse, reverse_aux, reverse-reverse}
use faculty_auxie_mm.Web.OrderBookTable.{
  is_exist, remove_levels, add_levels, change_side, sort_down,
}
use faculty_auxie_mm.Gatherer.Diff.{get_array_diff}
use faculty_auxie_mm.Gatherer.Diff.Laws.{count-get_array_diff}
use faculty_auxie_mm.Book.Lodash.{
  Lodash, insertion_sort, count-insertion_sort, insertion_sort-IsSortedBy,
}
use faculty_auxie_mm.Book.{Level, level_Eq, ask_key, bid_key, neg_ℕ}
use faculty_auxie_mm.Prelude.Sorted.{IsStrictBy, sorted_unique, count_le_one}
use faculty_auxie_mm.Prelude.Count.{count, contains, count-append, count-filter}
use faculty_auxie_mm.Prelude.{
  ◌≡◌, ◌∷◌, ◌+◌, ◌<◌, [], List, ℕ, arith, All, not, if◌then◌else◌, All-map, ◌∙◌, ap, sym, zero, suc,
}

-- The same levels, each as often, in any order.
abbrev pub IsSame : List Level → List Level → Type 0
IsSame xs ys = (a : Level) → count a xs ≡ count a ys

is_exist-eq : (rs : List Level) (a : Level) → is_exist rs a ≡ not (contains rs a)
unfolding is_exist
is_exist-eq [] a = ground arith
is_exist-eq (r ∷ rs) a = ground (arith, is_exist-eq rs a)

count-remove_levels :
    (rs side : List Level) (a : Level)
    → count a (remove_levels rs side) ≡ (if contains rs a then 0 else count a side)
count-remove_levels [] side a = ground arith
count-remove_levels (r ∷ rs) side a =
    ground (arith, count-filter (is_exist (r ∷ rs)) a side, is_exist-eq (r ∷ rs) a)

count-add_levels :
    (ls side : List Level) (a : Level) → count a (add_levels ls side) ≡ count a side + count a ls
count-add_levels [] side a = omega arith
count-add_levels (l ∷ ls) side a = count-append a side (l ∷ ls)

-- The changes that the gatherer writes turn the levels of the old side into those of the new one.
pub change_side-IsSame :
    (l : Lodash Level) (key : Level → ℤ) (old new side : List Level)
    → IsStrictBy key old
    → IsStrictBy key new
    → IsSame side old
    → IsSame (change_side (get_array_diff l old new) side) new
unfolding change_side
change_side-IsSame l key old new side ho hn same a =
    let d = get_array_diff l old new in
    ground (
      arith,
      same a,
      count-add_levels d.add (remove_levels d.remove side) a,
      count-remove_levels d.remove side a,
      count-get_array_diff l old new a,
      count_le_one key a old ho,
      count_le_one key a new hn,
    )

neg_below : (m n : ℕ) → neg_ℕ m <ℤ neg_ℕ n → n < m
neg_below zero zero h = absurd (omega (arith, h))
neg_below zero (suc n) h = absurd (omega (arith, h))
neg_below (suc m) zero h = omega arith
neg_below (suc m) (suc n) h = omega (arith, h)

bid_below : (x z : Level) → bid_key x <ℤ bid_key z → z.price < x.price
bid_below x z h = neg_below x.price z.price h

count-reverse_aux :
    (a : Level) (xs acc : List Level) → count a (reverse_aux xs acc) ≡ count a xs + count a acc
count-reverse_aux a [] acc = omega arith
count-reverse_aux a (x ∷ xs) acc = ground (arith, count-reverse_aux a xs (x ∷ acc))

count-reverse : (a : Level) (xs : List Level) → count a (reverse xs) ≡ count a xs
count-reverse a xs = omega (arith, count-reverse_aux a xs [])

reverse_aux-IsStrictBy :
    (xs acc : List Level)
    → IsStrictBy bid_key xs
    → IsStrictBy ask_key acc
    → All (λ y. All (λ x. x.price < y.price) xs) acc
    → IsStrictBy ask_key (reverse_aux xs acc)
reverse_aux-IsStrictBy [] acc hx ha below = ha
reverse_aux-IsStrictBy (x ∷ xs) acc hx ha below =
    reverse_aux-IsStrictBy xs (x ∷ acc) hx.1 (All-map (λ y h. omega (arith, h.0)) acc below, ha)
      (All-map (λ z h. bid_below x z h) xs hx.0, All-map (λ y h. h.1) acc below)

-- Bids that fall in price are asks that rise, read from their end.
pub sort_down-bids :
    (bids side : List Level) → IsStrictBy bid_key bids → IsSame side bids → sort_down side ≡ bids
sort_down-bids bids side h same =
    let sorted =
      sorted_unique ask_key (insertion_sort side ask_key) (reverse bids)
        (insertion_sort-IsSortedBy side ask_key) (reverse_aux-IsStrictBy bids [] h tt tt)
        (λ a. count-insertion_sort side ask_key a ∙ same a ∙ sym (count-reverse a bids)) in
    ap reverse sorted ∙ reverse-reverse bids

pub sort_down-asks :
    (asks side : List Level)
    → IsStrictBy ask_key asks
    → IsSame side asks
    → sort_down side ≡ reverse asks
sort_down-asks asks side h same = ap reverse (
    sorted_unique ask_key (insertion_sort side ask_key) asks
      (insertion_sort-IsSortedBy side ask_key) h
      (λ a. count-insertion_sort side ask_key a ∙ same a))
