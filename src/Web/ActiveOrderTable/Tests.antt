-- ===== src/Web/ActiveOrderTable/Tests.antt =====
-- Three orders, two of them at the same price.
use faculty_auxie_mm.Web.Engine.{insertion_engine}
use faculty_auxie_mm.Web.ActiveOrderTable.Equality.{row_Eq, cell_Eq}
use faculty_auxie_mm.Web.ActiveOrderTable.Cells.{IsOfKind, numbers, is_number}
use faculty_auxie_mm.Web.ActiveOrderTable.Stable.{sorted_orders-IsOrderedIn, IsOrderedIn, is_tied}
use faculty_auxie_mm.Web.ActiveOrderTable.Orders.{update_orders-order_id, is_answered, order_id}
use faculty_auxie_mm.Web.ActiveOrderTable.{
  Row, OrderTable, Fetched, cell, sorted_orders, shown_orders, handle_request_sort, first_table,
  update_orders, unique_ids, number, text, stored, expired, no_answer,
}
use faculty_auxie_mm.Prelude.Count.{count, contains}
use faculty_auxie_mm.Prelude.Int.{ℤ}
use faculty_auxie_mm.Prelude.Text.{Text, codes, text_eq, text_Eq}
use faculty_auxie_mm.Prelude.{
  ◌≡◌, ◌∷◌, [], List, Option, ℕ, true, none, some, refl, All, map, filter, if◌then◌else◌,
}

abbrev no_numbers : Text → Option ℤ
no_numbers t = none

abbrev row_of : ℕ → Text → Row
row_of price side = (codes "price", number price) ∷ (codes "side", text side) ∷ []

abbrev three : List Row
three = row_of 7 (codes "buy") ∷ row_of 9 (codes "sell") ∷ row_of 7 (codes "sell") ∷ []

-- Sorted by price from the highest, two rows a page, on the second page.
abbrev by_price : OrderTable
by_price = record first_table {
  order_by = codes "price";
  rows_per_page = 2;
  page = 1;
  orders = three;
}

sorted_by_price :
    sorted_orders no_numbers insertion_engine by_price
    ≡ row_of 9 (codes "sell") ∷ row_of 7 (codes "buy") ∷ row_of 7 (codes "sell") ∷ []
unfolding sorted_orders
sorted_by_price = refl

shown_by_price : shown_orders no_numbers insertion_engine by_price ≡ row_of 7 (codes "sell") ∷ []
unfolding shown_orders
shown_by_price = refl

-- A click on the column turns the direction.
sorted_by_price_up :
    sorted_orders no_numbers insertion_engine (handle_request_sort (codes "price") by_price)
    ≡ row_of 7 (codes "buy") ∷ row_of 7 (codes "sell") ∷ row_of 9 (codes "sell") ∷ []
unfolding sorted_orders handle_request_sort
sorted_by_price_up = refl

-- No order has a field `source`, by which a column sorts.
sorted_by_source :
    sorted_orders no_numbers insertion_engine (handle_request_sort (codes "source") by_price)
    ≡ three
unfolding sorted_orders handle_request_sort
sorted_by_source = refl

sorted_orders-IsOrderedIn_example :
    let rows = sorted_orders no_numbers insertion_engine by_price in
    IsOrderedIn no_numbers by_price.order by_price.order_by rows
    × ((a : Row) → count ⦃e = row_Eq⦄ a rows ≡ count ⦃e = row_Eq⦄ a three)
    × ((a : Row)
        → IsOfKind numbers (cell by_price.order_by a)
        → filter (is_tied no_numbers by_price.order_by a) rows
          ≡ filter (is_tied no_numbers by_price.order_by a) three)
sorted_orders-IsOrderedIn_example =
    sorted_orders-IsOrderedIn no_numbers insertion_engine by_price numbers
      (is_number, (is_number, (is_number, tt)))

-- The order of the second id has expired.
abbrev hget : Text → Fetched
hget id =
    if text_eq id (codes "1")
    then stored (row_of 7 (codes "buy"))
    else if text_eq id (codes "2")
    then expired
    else no_answer

abbrev named : List Text
named = codes "1" ∷ codes "2" ∷ codes "1" ∷ []

update_orders-order_id_example :
    let t' = update_orders true (some named) true hget first_table in
    (All (λ id. is_answered (hget id) ≡ true) (unique_ids [] named)
      → (a : Text)
      → count ⦃e = cell_Eq⦄ (text a) (map order_id t'.orders) ≡ (if contains named a then 1 else 0))
    × ((id : Text) → contains named id ≡ true → hget id ≡ no_answer → t' ≡ first_table)
update_orders-order_id_example = update_orders-order_id hget named first_table

named_answered : All (λ id. is_answered (hget id) ≡ true) (unique_ids [] named)
unfolding unique_ids
named_answered = (refl, (refl, tt))
