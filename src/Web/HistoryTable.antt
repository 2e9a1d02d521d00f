-- ===== src/Web/HistoryTable.antt =====
-- The table of the last trades of a pair (packages/web/src/components/trade/HistoryTable.js), which
-- reads the gatherer's stream of trades.
pub mod Laws
pub mod Tests
use faculty_auxie_mm.Web.Engine.{Sort}
use faculty_auxie_mm.Web.ActiveOrderTable.{text_ltb}
use faculty_auxie_mm.Prelude.Int.{ℤ, pos, negsuc}
use faculty_auxie_mm.Prelude.Text.{Text, text_eq}
use faculty_auxie_mm.Prelude.{
  ◌∷◌, ◌++◌, ◌==◌, ◌-◌, [], none, some, true, false, List, Option, Bool, ℕ, if◌then◌else◌, length,
  take,
}

-- The part of a trade that the table shows
pub record Trade : Type 0 where
  pub datetime : Text
  pub side : Text
  pub price : ℕ
  pub cost : ℕ

pub record HistoryRow : Type 0 where
  pub time : Text
  pub side : Text
  pub price : ℕ
  pub size : ℕ

abbrev pub up_to_t : Text → Text
up_to_t [] = []
up_to_t (c ∷ s) = let rest = up_to_t s in if c == b'T' then [] else c ∷ rest

-- `split('T')[1]`
abbrev pub behind_t : Text → Option Text
behind_t [] = none
behind_t (c ∷ s) = let rest = behind_t s in if c == b'T' then some (up_to_t s) else rest

-- `slice(0, -n)`
abbrev pub slice_end : ℕ → Text → Text
slice_end n s = take (length s - n) s

-- `undefined.slice` throws.
abbrev pub row_at : Option Text → Trade → Option HistoryRow
row_at none t = none
row_at (some time) t =
    some (record { time = slice_end 5 time; side = t.side; price = t.price; size = t.cost })

abbrev pub with_row : Option HistoryRow → Option (List HistoryRow) → Option (List HistoryRow)
with_row none rest = none
with_row (some row) none = none
with_row (some row) (some rows) = some (row ∷ rows)

-- The inner loop, and the outer loop over the messages of the stream
unfoldable pub trade_rows : List Trade → Option (List HistoryRow)
trade_rows [] = some []
trade_rows (t ∷ trades) = with_row (row_at (behind_t t.datetime) t) (trade_rows trades)

abbrev pub join_rows :
    Option (List HistoryRow) → Option (List HistoryRow) → Option (List HistoryRow)
join_rows none rest = none
join_rows (some rows) none = none
join_rows (some rows) (some rest) = some (rows ++ rest)

unfoldable pub history_rows : List (List Trade) → Option (List HistoryRow)
unfolding trade_rows
history_rows [] = some []
history_rows (trades ∷ messages) = join_rows (trade_rows trades) (history_rows messages)

unfoldable pub compare_time : HistoryRow → HistoryRow → ℤ
compare_time a b =
    if text_ltb b.time a.time then negsuc 0 else if text_eq a.time b.time then pos 0 else pos 1

module _ (engine : Sort) where
  abbrev pub shown : Option (List HistoryRow) → List HistoryRow → List HistoryRow
  shown none history = history
  shown (some rows) history = engine.sort compare_time rows

  -- updateHistory: the messages that redis answers, and the history before. After an error, as where
  -- there is no answer, it stays.
  unfoldable pub update_history :
      (has_pair mounted : Bool) → Option (List (List Trade)) → List HistoryRow → List HistoryRow
  unfolding history_rows
  update_history false true messages history = []
  update_history false false messages history = history
  update_history true mounted none history = history
  update_history true false (some messages) history = history
  update_history true true (some messages) history = shown (history_rows messages) history
