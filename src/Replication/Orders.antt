-- ===== src/Replication/Orders.antt =====
-- Orders from the exchange to a plugin: handleOrders (packages/gatherer/src/worker.ts) stores them
-- and writes the changed ones; handleOrdersMessage (packages/magicbox) caches what was written.
use faculty_auxie_mm.MagicBox.Orders.Laws.{
  cache_size-handle_orders, newest-handle_orders, find_order-upsert,
}
use faculty_auxie_mm.MagicBox.Orders.{handle_orders_message, find_order, newest}
use faculty_auxie_mm.MagicBox.Cache.{DataStreamService, slot_of}
use faculty_auxie_mm.Prelude.Text.{Text, text_eq, text_eq_iff}
use faculty_auxie_mm.Orders.{Status, Order, status_eq_iff, number_eq_iff}
use faculty_auxie_mm.Orders.Store.{OrderStore, order_key, text_eq-order_key}
use faculty_auxie_mm.Gatherer.Orders.{state_changed, handle_orders, store_order, store_orders}
use faculty_auxie_mm.Prelude.{
  ◌≡◌, ◌∷◌, ◌<◌, none, some, false, [], List, Option, ℕ, arith, if◌then◌else◌, Bool-cases, ◌++◌,
  ◌∙◌, refl, inl, inr, ap, sym,
}

-- What the two sides compare of an order; an order that is missing counts as one with no fields.
abbrev pub Progress : Type 0
Progress = Option Status × Option ℕ × Option ℕ × Option ℕ

abbrev pub progress : Option Order → Progress
progress none = (none, none, none, none)
progress (some o) = (o.status, o.filled, o.amount, o.remaining)

progress_of_unchanged :
    (prev : Option Order) (o : Order)
    → state_changed prev o ≡ false
    → progress prev ≡ progress (some o)
unfolding state_changed
progress_of_unchanged none o h = ground (
  arith,
  status_eq_iff none o.status,
  number_eq_iff none o.filled,
  number_eq_iff none o.amount,
  number_eq_iff none o.remaining,
)
progress_of_unchanged (some p) o h = ground (
  arith,
  status_eq_iff p.status o.status,
  number_eq_iff p.filled o.filled,
  number_eq_iff p.amount o.amount,
  number_eq_iff p.remaining o.remaining,
)

module _ (key : Text) (now ts : ℕ) where
  -- The magicbox handles the messages in the order of writing.
  pub receive : DataStreamService (List Order) → List Order → DataStreamService (List Order)
  receive box [] = box
  receive box (m ∷ ms) = receive (handle_orders_message now key ts m box).service ms

  abbrev pub cached : DataStreamService (List Order) → Text → Option Order
  cached box id = find_order id (newest (slot_of box key))

  cached-handle_orders :
      (box : DataStreamService (List Order)) (o : Order) (id : Text)
      → 0 < box.cache_size
      → cached (handle_orders_message now key ts o box).service id
        ≡ (if text_eq o.id id then some o else cached box id)
  cached-handle_orders box o id h =
      ap (find_order id) (newest-handle_orders now key ts o box h)
      ∙ find_order-upsert id o (newest (slot_of box key))

  receive-append :
      (box : DataStreamService (List Order)) (ms ns : List Order)
      → receive box (ms ++ ns) ≡ receive (receive box ms) ns
  unfolding receive
  receive-append box [] ns = refl
  receive-append box (m ∷ ms) ns =
      receive-append (handle_orders_message now key ts m box).service ms ns

module _ (store : OrderStore) (tenant key : Text) (now ts : ℕ) (IsOurs : Text → Type 0) where
  -- For every id of the stream's symbol the cached order and the stored one have made the same progress.
  abbrev pub Agree : store.State → DataStreamService (List Order) → Type 0
  Agree s box =
      (0 < box.cache_size)
      × ((id : Text)
          → IsOurs id
          → progress (cached key now ts box id) ≡ progress (store.hget s (order_key tenant id)))

  stored-hset :
      (s : store.State) (o : Order) (id : Text)
      → store.hget (store.hset s (order_key tenant o.id) o) (order_key tenant id)
        ≡ (if text_eq o.id id then some o else store.hget s (order_key tenant id))
  stored-hset s o id =
      store.hget-hset s (order_key tenant o.id) (order_key tenant id) o
      ∙ ap (λ b. if b then some o else store.hget s (order_key tenant id))
          (text_eq-order_key tenant o.id id)

  written-Agree :
      (s : store.State) (box : DataStreamService (List Order)) (o : Order)
      → Agree s box
      → Agree
          (store.hset s (order_key tenant o.id) o)
          (handle_orders_message now key ts o box).service
  written-Agree s box o h = (
    omega (arith, cache_size-handle_orders now key ts o box),
    λ id ours.
        rw (cached-handle_orders key now ts box o id h.0, stored-hset s o id)
          (elim (Bool-cases (text_eq o.id id)) [
            | inl same ↦ rw same
            | inr other ↦ rw other (h.1 id ours)
          ]),
  )

  skipped-Agree :
      (s : store.State) (box : DataStreamService (List Order)) (o : Order)
      → Agree s box
      → progress (store.hget s (order_key tenant o.id)) ≡ progress (some o)
      → Agree (store.hset s (order_key tenant o.id) o) box
  skipped-Agree s box o h same = (
    h.0,
    λ id ours. rw (stored-hset s o id) (elim (Bool-cases (text_eq o.id id)) [
      | inl same_id ↦ rw same_id (
          h.1 id ours
          ∙ ap (λ j. progress (store.hget s (order_key tenant j)))
              (sym ((text_eq_iff o.id id).0 same_id))
          ∙ same)
      | inr other ↦ rw other (h.1 id ours)
    ]),
  )

  store_order-Agree :
      (s : store.State) (box : DataStreamService (List Order)) (o : Order)
      → Agree s box
      → let (s', written) = store_order store tenant s (store.hget s (order_key tenant o.id), o) in
        Agree s' (receive key now ts box written)
  unfolding store_order receive
  store_order-Agree s box o h =
      let prev = store.hget s (order_key tenant o.id) in
      elim (Bool-cases (state_changed prev o)) [
        | inl changed ↦ rw changed (written-Agree s box o h)
        | inr quiet ↦ rw quiet (skipped-Agree s box o h (progress_of_unchanged prev o quiet))
      ]

  -- Each round's HGET brought what its HSET overwrites: no other round stored the same id between them.
  unfoldable pub AreFresh : store.State → List (Option Order × Order) → Type 0
  AreFresh s [] = Unit
  AreFresh s ((prev, o) ∷ rounds) =
      (prev ≡ store.hget s (order_key tenant o.id))
      × AreFresh (store_order store tenant s (prev, o)).0 rounds

  -- Whatever orders the exchange reports to the two subscribers and however their rounds overlap, once
  -- the magicbox has handled what the gatherer wrote, for every id of the stream's symbol the cached
  -- order has the status and the filled, amount and remaining numbers of the stored one: from a cache
  -- and a store that agree on these ids, a cache with room for at least one version, and as long as no
  -- order is stored by one round between another round's reading and storing of the same id.
  pub store_orders-Agree :
      (rounds : List (Option Order × Order)) (s : store.State)
      (box : DataStreamService (List Order))
      → Agree s box
      → AreFresh s rounds
      → let (s', written) = store_orders store tenant s rounds in
        Agree s' (receive key now ts box written)
  unfolding store_orders receive AreFresh
  store_orders-Agree [] s box h fresh = h
  store_orders-Agree ((prev, o) ∷ rounds) s box h fresh =
      let (s', written) = store_order store tenant s (prev, o) in
      let rest = (store_orders store tenant s' rounds).1 in
      rw (receive-append key now ts box written rest) (
        store_orders-Agree rounds s' (receive key now ts box written)
          (rw (fresh.0) (store_order-Agree s box o h)) fresh.1)

  -- The rounds of one call that no other overlaps.
  abbrev rounds_of : store.State → List Order → List (Option Order × Order)
  rounds_of s [] = []
  rounds_of s (o ∷ orders) =
      let round : Option Order × Order = (store.hget s (order_key tenant o.id), o) in
      round ∷ rounds_of (store_order store tenant s round).0 orders

  rounds_of-AreFresh : (orders : List Order) (s : store.State) → AreFresh s (rounds_of s orders)
  unfolding AreFresh
  rounds_of-AreFresh [] s = tt
  rounds_of-AreFresh (o ∷ orders) s =
      let s' = (store_order store tenant s (store.hget s (order_key tenant o.id), o)).0 in
      (refl, rounds_of-AreFresh orders s')

  store_orders-rounds_of :
      (orders : List Order) (s : store.State)
      → handle_orders store tenant s orders ≡ store_orders store tenant s (rounds_of s orders)
  unfolding handle_orders store_orders
  store_orders-rounds_of [] s = refl
  store_orders-rounds_of (o ∷ orders) s =
      let (s', written) = store_order store tenant s (store.hget s (order_key tenant o.id), o) in
      ap (λ r. (r.0, written ++ r.1)) (store_orders-rounds_of orders s')

  handle_orders-Agree :
      (orders : List Order) (s : store.State) (box : DataStreamService (List Order))
      → Agree s box
      → let (s', written) = handle_orders store tenant s orders in
        Agree s' (receive key now ts box written)
  handle_orders-Agree orders s box h =
      rw (store_orders-rounds_of orders s)
        (store_orders-Agree (rounds_of s orders) s box h (rounds_of-AreFresh orders s))
