-- ===== src/Web/ActiveOrderTable.antt =====
-- The table of a tenant's orders at one exchange (packages/web/src/components/trade/
-- ActiveOrderTable.js). The sort of JavaScript's arrays is a parameter with what ECMAScript promises
-- of it: with a consistent comparator it orders the items. That it keeps the order of ties is not
-- relied on, as in the source. What a text is as a number is a parameter, too.
pub mod Equality
pub mod Cells
pub mod Indexed
pub mod Sorting
pub mod Stable
pub mod Pages
pub mod Orders
pub mod Tests
use faculty_auxie_mm.Web.Engine.{Sort}
use faculty_auxie_mm.Prelude.Dict.{Dict, lookup, insert}
use faculty_auxie_mm.Prelude.Int.{ℤ, pos, negsuc, sub_ℕ, pos_part, neg_part}
use faculty_auxie_mm.Prelude.Text.{Text, codes, text_eq, text_Eq}
use faculty_auxie_mm.Prelude.{
  ◌∷◌, [], none, some, true, false, List, Option, Bool, ℕ, if◌then◌else◌, ◌==◌, ◌+◌, ◌*◌, ◌-◌, ◌&&◌,
  ltb, zero, suc, or_default, take, map, any, length,
}

-- A field of an order that the table reads, as JSON has it.
pub data Cell : Type 0 where
  undefined null : Cell
  number : ℕ → Cell
  text : Text → Cell

abbrev pub Row : Type 0
Row = Dict Text Cell

-- `row[orderBy]`
abbrev pub cell : Text → Row → Cell
cell order_by row = or_default (lookup order_by row) undefined

pub data Direction : Type 0 where
  asc desc : Direction

-- `s < t` for two texts
abbrev pub text_ltb : Text → Text → Bool
text_ltb [] [] = false
text_ltb [] (d ∷ t) = true
text_ltb (c ∷ s) [] = false
text_ltb (c ∷ s) (d ∷ t) =
    let rest = text_ltb s t in if ltb c d then true else if c == d then rest else false

abbrev pub ltb_ℤ : ℤ → ℤ → Bool
ltb_ℤ a b = ltb (pos_part a + neg_part b) (pos_part b + neg_part a)

abbrev pub ltb_option : Option ℤ → Option ℤ → Bool
ltb_option none b = false
ltb_option (some x) none = false
ltb_option (some x) (some y) = ltb_ℤ x y

abbrev pub negate : ℤ → ℤ
negate (pos zero) = pos zero
negate (pos (suc n)) = negsuc n
negate (negsuc n) = pos (suc n)

-- `order === 0`
abbrev pub is_zero : ℤ → Bool
is_zero z = pos_part z == neg_part z

module _ (number_of : Text → Option ℤ) where
  -- What a cell is where numbers are compared; `none` is NaN.
  abbrev pub numeric : Cell → Option ℤ
  numeric undefined = none
  numeric null = some (pos 0)
  numeric (number n) = some (pos n)
  numeric (text t) = number_of t

  -- `a < b`
  unfoldable pub less_than : Cell → Cell → Bool
  less_than (text s) (text t) = text_ltb s t
  less_than (text s) undefined = false
  less_than (text s) null = ltb_option (number_of s) (some (pos 0))
  less_than (text s) (number n) = ltb_option (number_of s) (some (pos n))
  less_than undefined b = false
  less_than null b = ltb_option (some (pos 0)) (numeric b)
  less_than (number n) b = ltb_option (some (pos n)) (numeric b)

  unfoldable pub descending_comparator : Row → Row → Text → ℤ
  unfolding less_than
  descending_comparator a b order_by =
      if less_than (cell order_by b) (cell order_by a)
      then negsuc 0
      else if less_than (cell order_by a) (cell order_by b)
      then pos 1
      else pos 0

  unfoldable pub get_comparator : Direction → Text → Row → Row → ℤ
  unfolding descending_comparator
  get_comparator desc order_by a b = descending_comparator a b order_by
  get_comparator asc order_by a b = negate (descending_comparator a b order_by)

module _ {A : Type 0} where
  -- `array.map((el, index) => [el, index])`, from an index on
  abbrev pub stabilized : ℕ → List A → List (A × ℕ)
  stabilized i [] = []
  stabilized i (x ∷ xs) = (x, i) ∷ stabilized (i + 1) xs

  -- The comparator that stableSort sorts by
  abbrev pub with_index : (A → A → ℤ) → A × ℕ → A × ℕ → ℤ
  with_index comparator (x, i) (y, j) =
      let order = comparator x y in if is_zero order then sub_ℕ i j else order

  abbrev pub element : A × ℕ → A
  element (x, i) = x

  unfoldable pub stable_sort : Sort → List A → (A → A → ℤ) → List A
  stable_sort engine array comparator =
      map element (engine.sort (with_index comparator) (stabilized 0 array))

pub record OrderTable : Type 0 where
  pub order : Direction
  pub order_by : Text
  pub page : ℕ
  pub rows_per_page : ℕ
  pub orders : List Row

-- the initial values of the states
abbrev pub first_table : OrderTable
first_table = record {
  order = desc;
  order_by = codes "datetime";
  page = 0;
  rows_per_page = 25;
  orders = [];
}

-- `slice(from, to)` with its end as a length
abbrev pub drop {ℓ} : {A : Type ℓ} → ℕ → List A → List A
drop zero xs = xs
drop (suc n) [] = []
drop (suc n) (x ∷ xs) = drop n xs

module _ (number_of : Text → Option ℤ) (engine : Sort) where
  unfoldable pub sorted_orders : OrderTable → List Row
  unfolding get_comparator stable_sort
  sorted_orders t = stable_sort engine t.orders (get_comparator number_of t.order t.order_by)

  -- the rows that the table shows
  unfoldable pub shown_orders : OrderTable → List Row
  unfolding sorted_orders
  shown_orders t = take t.rows_per_page (drop (t.page * t.rows_per_page) (sorted_orders t))

-- `Math.max(0, (1 + page) * rowsPerPage - orders.length)` behind the first page
unfoldable pub empty_rows : OrderTable → ℕ
empty_rows t = if ltb 0 t.page then (1 + t.page) * t.rows_per_page - length t.orders else 0

abbrev pub direction_eq : Direction → Direction → Bool
direction_eq asc asc = true
direction_eq asc desc = false
direction_eq desc asc = false
direction_eq desc desc = true

unfoldable pub handle_request_sort : Text → OrderTable → OrderTable
handle_request_sort property t = record t {
  order = if text_eq t.order_by property && direction_eq t.order asc then desc else asc;
  order_by = property;
}

unfoldable pub handle_change_page : ℕ → OrderTable → OrderTable
handle_change_page new_page t = record t { page = new_page }

unfoldable pub handle_change_rows_per_page : ℕ → OrderTable → OrderTable
handle_change_rows_per_page value t = record t { rows_per_page = value; page = 0 }

-- `Array.from(new Set(ids))`: each id where it is first
unfoldable pub unique_ids : List Text → List Text → List Text
unique_ids seen [] = []
unique_ids seen (id ∷ ids) = elim (any (text_eq id) seen) [
  | true ↦ unique_ids seen ids
  | false ↦ id ∷ unique_ids (id ∷ seen) ids
]

-- What the request for an order's hash brings: no answer, a hash without the field, or the order.
pub data Fetched : Type 0 where
  no_answer expired : Fetched
  stored : Row → Fetched

-- `{ ...JSON.parse(result?.hget), orderId }`: no answer is no JSON, which throws.
abbrev pub read_order : Text → Fetched → Option Row
read_order id no_answer = none
read_order id expired = some ((codes "orderId", text id) ∷ [])
read_order id (stored row) = some (insert (codes "orderId") (text id) row)

abbrev pub with_order : Option Row → Option (List Row) → Option (List Row)
with_order none rest = none
with_order (some row) none = none
with_order (some row) (some rows) = some (row ∷ rows)

unfoldable pub read_orders : (Text → Fetched) → List Text → Option (List Row)
read_orders hget [] = some []
read_orders hget (id ∷ ids) = with_order (read_order id (hget id)) (read_orders hget ids)

-- updateOrders: the ids that the database answers, and the hashes of redis. After an error the table
-- is as it was.
unfoldable pub update_orders :
    (has_exchange : Bool)
    → Option (List Text)
    → (mounted : Bool) → (Text → Fetched)
    → OrderTable
    → OrderTable
unfolding read_orders unique_ids
update_orders false res mounted hget t = t
update_orders true none mounted hget t = t
update_orders true (some ids) false hget t = t
update_orders true (some ids) true hget t = record t {
  orders = or_default (read_orders hget (unique_ids [] ids)) t.orders;
}
