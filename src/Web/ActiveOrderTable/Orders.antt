-- ===== src/Web/ActiveOrderTable/Orders.antt =====
-- updateOrders (packages/web/src/components/trade/ActiveOrderTable.js).
use faculty_auxie_mm.Web.ActiveOrderTable.Equality.{cell_Eq}
use faculty_auxie_mm.Web.ActiveOrderTable.{
  Cell, Row, OrderTable, Fetched, cell, unique_ids, read_orders, update_orders, stored, text,
  read_order, no_answer, expired, undefined, with_order,
}
use faculty_auxie_mm.Prelude.Count.{count, contains}
use faculty_auxie_mm.Prelude.Dict.{lookup-insert}
use faculty_auxie_mm.Prelude.Text.{Text, text_eq, text_Eq, codes, text_eq_iff}
use faculty_auxie_mm.Prelude.{
  ◌≡◌, ◌∷◌, [], List, Option, Bool, arith, true, false, none, some, refl, ap, ◌∙◌, any, All, map,
  Bool-cases, inl, inr, if◌then◌else◌, or_default, sym,
}

any-contains : (id : Text) (seen : List Text) → any (text_eq id) seen ≡ contains seen id
any-contains id [] = ground arith
any-contains id (s ∷ seen) = ground (arith, any-contains id seen)

count-unique_ids :
    (seen ids : List Text) (a : Text)
    → count a (unique_ids seen ids)
      ≡ (if contains seen a then 0 else if contains ids a then 1 else 0)
unfolding unique_ids
count-unique_ids seen [] a = ground arith
count-unique_ids seen (id ∷ ids) a = elim (Bool-cases (any (text_eq id) seen)) [
  | inl old ↦
      rw (old, unique_ids)
        (ground (arith, any-contains id seen, count-unique_ids seen ids a, text_eq_iff a id))
  | inr new ↦
      rw (new, unique_ids)
        (ground (arith, any-contains id seen, count-unique_ids (id ∷ seen) ids a, text_eq_iff a id))
]

abbrev pub is_answered : Fetched → Bool
is_answered no_answer = false
is_answered expired = true
is_answered (stored row) = true

abbrev pub order_id : Row → Cell
order_id row = cell (codes "orderId") row

count-map-text :
    (a : Text) (ids : List Text) → count ⦃e = cell_Eq⦄ (text a) (map text ids) ≡ count a ids
count-map-text a [] = refl
count-map-text a (id ∷ ids) = ground (arith, count-map-text a ids)

with_order-none : (row : Option Row) → with_order row none ≡ none
with_order-none none = refl
with_order-none (some row) = refl

module _ (hget : Text → Fetched) where
  order_id-read_order :
      (id : Text) (f : Fetched)
      → is_answered f ≡ true
      → (row : Row) × (read_order id f ≡ some row) × (order_id row ≡ text id)
  order_id-read_order id no_answer h = absurd (ground (arith, h))
  order_id-read_order id expired h = (_, refl, refl)
  order_id-read_order id (stored row) h = (
    _,
    refl,
    ap (λ o. or_default o undefined)
        (lookup-insert (codes "orderId") (codes "orderId") (text id) row),
  )

  read_orders_answered :
      (ids : List Text)
      → All (λ id. is_answered (hget id) ≡ true) ids
      → (rows : List Row) × (read_orders hget ids ≡ some rows) × (map order_id rows ≡ map text ids)
  unfolding read_orders
  read_orders_answered [] h = ([], refl, refl)
  read_orders_answered (id ∷ ids) h =
      let (row, read, same) = order_id-read_order id (hget id) h.0 in
      let (rows, rest, sames) = read_orders_answered ids h.1 in
      (row ∷ rows, rw (read, rest) refl, rw (same, sames) refl)

  read_orders_failed :
      (ids : List Text) (id : Text)
      → contains ids id ≡ true
      → hget id ≡ no_answer
      → read_orders hget ids ≡ none
  unfolding read_orders
  read_orders_failed [] id m h = absurd (ground (arith, m))
  read_orders_failed (i ∷ ids) id m h = elim (Bool-cases (text_eq id i)) [
    | inl same ↦
        let failed : hget i ≡ no_answer = ap hget (sym ((text_eq_iff id i).0 same)) ∙ h in
        rw failed refl
    | inr other ↦
        rw (read_orders_failed ids id (ground (arith, m, other)) h)
          (with_order-none (read_order i (hget i)))
  ]

  -- Where redis answers for each id that the database names, the table then has one order for each
  -- of these ids and none for another id; where it does not answer for one of them, the table stays
  -- as it was.
  pub update_orders-order_id :
      (ids : List Text) (t : OrderTable)
      → let t' = update_orders true (some ids) true hget t in
        (All (λ id. is_answered (hget id) ≡ true) (unique_ids [] ids)
          → (a : Text)
          → count ⦃e = cell_Eq⦄ (text a) (map order_id t'.orders)
            ≡ (if contains ids a then 1 else 0))
        × ((id : Text) → contains ids id ≡ true → hget id ≡ no_answer → t' ≡ t)
  unfolding update_orders
  update_orders-order_id ids t = (
    λ answered a.
        let (rows, read, same) = read_orders_answered (unique_ids [] ids) answered in
        rw (read, same) (count-map-text a (unique_ids [] ids) ∙ count-unique_ids [] ids a),
    λ id m h.
        let listed : contains (unique_ids [] ids) id ≡ true =
          ground (arith, m, count-unique_ids [] ids id) in
        rw (read_orders_failed (unique_ids [] ids) id listed h) refl,
  )
