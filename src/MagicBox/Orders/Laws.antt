-- ===== src/MagicBox/Orders/Laws.antt =====
-- The cached list of orders behaves as a map from ids to orders.
use faculty_auxie_mm.MagicBox.Cache.Laws.{cache_size-push, slot_of-push_self}
use faculty_auxie_mm.MagicBox.Cache.{DataStreamService, slot_of}
use faculty_auxie_mm.Prelude.{
  List, ℕ, ◌≡◌, some, set, ◌∷◌, if◌then◌else◌, zero, suc, [], arith, Option-cases, ◌<◌, ◌∙◌, false,
  refl, inl, inr, take, ap,
}
use faculty_auxie_mm.Orders.{Order}
use faculty_auxie_mm.Prelude.Text.{Text, text_eq, text_eq_iff}
use faculty_auxie_mm.MagicBox.Orders.{
  find_index, find_order, Order, List, ℕ, upsert, some, set, text_eq, handle_orders_message, newest,
  DataStreamService,
}

find_index-set :
    (id : Text) (d : Order) (orders : List Order) (i : ℕ)
    → find_index d.id orders ≡ some i
    → find_order id (set orders i d) ≡ (if text_eq d.id id then some d else find_order id orders)
unfolding find_index find_order
find_index-set id d [] i h = cc
find_index-set id d (o ∷ orders) zero h =
    ground (arith, text_eq_iff o.id d.id, text_eq_iff o.id id, text_eq_iff d.id id)
find_index-set id d (o ∷ orders) (suc i) h = ground (
  arith,
  find_index-set id d orders i,
  text_eq_iff o.id d.id,
  text_eq_iff o.id id,
  text_eq_iff d.id id,
)

-- After an upsert the order's id finds the order, and every other id what it found before.
pub find_order-upsert :
    (id : Text) (d : Order) (orders : List Order)
    → find_order id (upsert d orders) ≡ (if text_eq d.id id then some d else find_order id orders)
unfolding upsert find_order
find_order-upsert id d orders = elim (Option-cases (find_index d.id orders)) [
  | inl fresh ↦ rw (fresh, upsert) refl
  | inr (i, known) ↦ rw (known, upsert) (find_index-set id d orders i known)
]

newest-take :
    (n : ℕ) (orders : List Order) (slot : List (List Order))
    → 0 < n
    → newest (take n (orders ∷ slot)) ≡ orders
newest-take zero orders slot h = absurd (omega arith)
newest-take (suc n) orders slot h = refl

module _ (now : ℕ) (key : Text) (ts : ℕ) (d : Order) where
  -- The newest version after a message is the version before with the message's order put in.
  pub newest-handle_orders :
      (s : DataStreamService (List Order))
      → 0 < s.cache_size
      → newest (slot_of (handle_orders_message now key ts d s).service key)
        ≡ upsert d (newest (slot_of s key))
  unfolding handle_orders_message
  newest-handle_orders s h =
      let orders = upsert d (newest (slot_of s key)) in
      ap newest (slot_of-push_self now key orders (some ts) false (some d) s)
      ∙ newest-take s.cache_size orders (slot_of s key) h

  pub cache_size-handle_orders :
      (s : DataStreamService (List Order))
      → (handle_orders_message now key ts d s).service.cache_size ≡ s.cache_size
  unfolding handle_orders_message
  cache_size-handle_orders s =
      cache_size-push now key (upsert d (newest (slot_of s key))) (some ts) false (some d) s
