-- ===== src/Gatherer/Orders.antt =====
-- handleOrders of packages/gatherer/src/worker.ts: every order is stored, and written to the stream
-- where one of four fields differs from what was stored. Expiry of the hashes and trimming of the
-- stream, which redis does later, are left out.
use faculty_auxie_mm.Prelude.Text.{Text}
use faculty_auxie_mm.Orders.Store.{OrderStore, order_key}
use faculty_auxie_mm.Orders.{Order, status_eq, number_eq}
use faculty_auxie_mm.Prelude.{
  Option, Bool, ℕ, not, ◌||◌, List, ◌∷◌, some, if◌then◌else◌, ◌++◌, [], none,
}

abbrev pub changed_status : Option Order → Order → Bool
changed_status none order = not (status_eq none order.status)
changed_status (some prev) order = not (status_eq prev.status order.status)

-- `prevOrder[field] !== order[field]` at a field that holds a number; no order before is `{}`.
abbrev pub changed_number : (Order → Option ℕ) → Option Order → Order → Bool
changed_number field none order = not (number_eq none (field order))
changed_number field (some prev) order = not (number_eq (field prev) (field order))

-- `compareFields.filter(...).length` is not 0
unfoldable pub state_changed : Option Order → Order → Bool
state_changed prev order =
    changed_status prev order
    || changed_number (λ o. o.filled) prev order
    || changed_number (λ o. o.amount) prev order
    || changed_number (λ o. o.remaining) prev order

module _ (store : OrderStore) where
  -- One round of the loop behind its HGET, with what that brought: the store after its HSET, and what it
  -- writes to the stream.
  unfoldable pub store_order : Text → store.State → Option Order × Order → store.State × List Order
  store_order tenant s (prev_state, order) = (
    store.hset s (order_key tenant order.id) order,
    if state_changed prev_state order then order ∷ [] else [],
  )

  -- The rounds of all calls for a tenant, which may overlap, in the order of their HSETs.
  unfoldable pub store_orders :
      Text → store.State → List (Option Order × Order) → store.State × List Order
  unfolding store_order
  store_orders tenant s [] = (s, [])
  store_orders tenant s (round ∷ rounds) =
      let (s', written) = store_order tenant s round in
      let (s'', rest) = store_orders tenant s' rounds in (s'', written ++ rest)

  -- One round that no other comes between.
  unfoldable pub handle_order : Text → store.State → Order → store.State × List Order
  unfolding store_order
  handle_order tenant s order =
      store_order tenant s (store.hget s (order_key tenant order.id), order)

  -- A call that no other overlaps.
  unfoldable pub handle_orders : Text → store.State → List Order → store.State × List Order
  unfolding handle_order
  handle_orders tenant s [] = (s, [])
  handle_orders tenant s (order ∷ orders) =
      let (s', written) = handle_order tenant s order in
      let (s'', rest) = handle_orders tenant s' orders in (s'', written ++ rest)
