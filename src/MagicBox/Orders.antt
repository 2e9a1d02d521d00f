-- ===== src/MagicBox/Orders.antt =====
-- DataStreamService.handleOrdersMessage (packages/magicbox/src/services/datastream-service.ts):
-- every version of the cache is the list of all orders, and subscribers get the one that came.
pub mod Laws
use faculty_auxie_mm.MagicBox.Cache.{DataStreamService, Pushed, push_to_observable, slot_of}
use faculty_auxie_mm.Prelude.{
  List, ℕ, Option, some, or_default, none, set, head?, ◌∷◌, [], if◌then◌else◌, false, suc,
}
use faculty_auxie_mm.Orders.{Order}
use faculty_auxie_mm.Prelude.Text.{Text, text_eq}

-- `orders.findIndex(o => o.id === data.id)`, none for -1
unfoldable pub find_index : Text → List Order → Option ℕ
find_index id [] = none
find_index id (o ∷ orders) =
    let rest = find_index id orders in
    if text_eq o.id id then some 0 else elim rest [ none ↦ none | some i ↦ some (suc i) ]

-- In place where the order is known, and in front where it is new.
unfoldable pub upsert : Order → List Order → List Order
unfolding find_index
upsert d orders = elim (find_index d.id orders) [ some idx ↦ set orders idx d | none ↦ d ∷ orders ]

abbrev pub newest : List (List Order) → List Order
newest slot = or_default (head? slot) []

unfoldable pub handle_orders_message :
    ℕ → Text → ℕ → Order → DataStreamService (List Order) → Pushed (List Order) Order
handle_orders_message now key msg_timestamp d s =
    push_to_observable now key (upsert d (newest (slot_of s key))) (some msg_timestamp) false
      (some d) s

-- the order that has an id, by which the theorems say what a list of orders holds
unfoldable pub find_order : Text → List Order → Option Order
find_order id [] = none
find_order id (o ∷ orders) = if text_eq o.id id then some o else find_order id orders
