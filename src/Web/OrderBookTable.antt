-- ===== src/Web/OrderBookTable.antt =====
-- The table of an order book (packages/web/src/components/trade/OrderBookTable.js), which reads the
-- two streams of a book itself. An update ends before the next one begins. The ids of redis are
-- compared as text.
pub mod Sides
pub mod Laws
pub mod Tests
use mathlib.Core.List.{reverse}
use faculty_auxie_mm.Book.{Level, OrderBook, level_eq, ask_key, level_Eq}
use faculty_auxie_mm.Book.Lodash.{insertion_sort}
use faculty_auxie_mm.Book.Message.{Deltas}
use faculty_auxie_mm.Gatherer.Diff.{ArrayDiff}
use faculty_auxie_mm.Web.ActiveOrderTable.{text_ltb}
use faculty_auxie_mm.Prelude.Text.{Text}
use faculty_auxie_mm.Prelude.{
  ◌∷◌, ◌++◌, none, some, [], true, false, List, Option, Bool, ℕ, if◌then◌else◌, take, filter,
}

pub record BookTable : Type 0 where
  pub asks : List Level
  pub bids : List Level
  pub last_order_book : Text

-- isExist answers 0 where the item is found.
unfoldable pub is_exist : List Level → Level → Bool
is_exist [] target = true
is_exist (item ∷ array) target =
    let rest = is_exist array target in if level_eq item target then false else rest

abbrev pub remove_levels : List Level → List Level → List Level
remove_levels [] side = side
remove_levels (r ∷ rs) side = filter (is_exist (r ∷ rs)) side

abbrev pub add_levels : List Level → List Level → List Level
add_levels [] side = side
add_levels (l ∷ ls) side = side ++ l ∷ ls

-- What a message changes of one side: nothing is done for an empty list.
unfoldable pub change_side : ArrayDiff Level → List Level → List Level
change_side d side = add_levels d.add (remove_levels d.remove side)

-- The loop over the messages; those up to the last id are passed over.
unfoldable pub change_book : Text → List (Text × Deltas) → BookTable → BookTable
unfolding change_side
change_book last [] t = t
change_book last ((id, delta) ∷ messages) t =
    let read = change_book last messages (record {
      asks = change_side delta.asks t.asks;
      bids = change_side delta.bids t.bids;
      last_order_book = id;
    }) in
    let skipped = change_book last messages t in if text_ltb last id then read else skipped

-- `sort((a, b) => a[0] - b[0]).reverse()`; the sort is stable
abbrev pub sort_down : List Level → List Level
sort_down levels = reverse (insertion_sort levels ask_key)

-- updateOrderBook, with what the two requests bring: the newest snapshot, and the messages behind
-- the last id, which redis leaves out where there are none.
unfoldable pub update_order_book :
    (mounted has_pair : Bool)
    → Option (Text × OrderBook)
    → Option (List (Text × Deltas))
    → BookTable
    → BookTable
unfolding change_book
update_order_book false has_pair snapshot messages t = t
update_order_book true false snapshot messages t = record t { asks = []; bids = [] }
update_order_book true true none messages t = t
update_order_book true true (some (id, book)) none t =
    if text_ltb t.last_order_book id
    then record { asks = book.asks; bids = book.bids; last_order_book = id }
    else t
update_order_book true true (some (id, book)) (some messages) t =
    let changed = change_book t.last_order_book messages t in
    if text_ltb t.last_order_book id
    then record { asks = book.asks; bids = book.bids; last_order_book = id }
    else record changed { asks = sort_down changed.asks; bids = sort_down changed.bids }

-- `slice(-n)`
abbrev pub slice_last : ℕ → List Level → List Level
slice_last n levels = reverse (take n (reverse levels))

-- the rows from the top: asks.slice(-20), then bids.slice(0, 20)
unfoldable pub rows : BookTable → List Level × List Level
rows t = (slice_last 20 t.asks, take 20 t.bids)
