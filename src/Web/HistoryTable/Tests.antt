-- ===== src/Web/HistoryTable/Tests.antt =====
-- Two trades around midnight.
use faculty_auxie_mm.Web.Engine.{insertion_engine}
use faculty_auxie_mm.Web.HistoryTable.{Trade, HistoryRow, update_history, compare_time}
use faculty_auxie_mm.Web.HistoryTable.Laws.{
  IsByTime, Stamp, all_rows, history_row_Eq, trade_of, update_history-IsByTime,
}
use faculty_auxie_mm.Prelude.Count.{count}
use faculty_auxie_mm.Prelude.Text.{Text, codes}
use faculty_auxie_mm.Prelude.{◌≡◌, ◌∷◌, [], some, true, List, refl, map, ◌++◌, arith}

abbrev trade_at : Text → Trade
trade_at datetime = record { datetime = datetime; side = codes "buy"; price = 7; cost = 14 }

abbrev row_of : Text → HistoryRow
row_of time = record { time = time; side = codes "buy"; price = 7; size = 14 }

abbrev before_midnight : Trade
before_midnight = trade_at (codes "2022-05-01T23:59:59.000Z")

abbrev after_midnight : Trade
after_midnight = trade_at (codes "2022-05-02T00:00:01.000Z")

-- The trade of the day before stands above the newer one.
sorted_at_midnight :
    update_history insertion_engine true true
      (some ((after_midnight ∷ []) ∷ (before_midnight ∷ []) ∷ []))
      []
    ≡ row_of (codes "23:59:59") ∷ row_of (codes "00:00:01") ∷ []
unfolding update_history compare_time
sorted_at_midnight = refl

abbrev stamp_at : Text → Text → Stamp
stamp_at date time = record {
  date = date;
  time = time;
  suffix = codes ".000Z";
  side = codes "buy";
  price = 7;
  cost = 14;
}

abbrev stamps : List (List Stamp)
stamps =
    (stamp_at (codes "2022-05-02") (codes "00:00:01") ∷ [])
    ∷ (stamp_at (codes "2022-05-01") (codes "23:59:58")
        ∷ stamp_at (codes "2022-05-01") (codes "23:59:59")
        ∷ [])
    ∷ []

update_history-IsByTime_example :
    let trades = map (λ ts. map trade_of ts) stamps in
    let history' = update_history insertion_engine true true (some trades) [] in
    IsByTime history'
    × ((a : HistoryRow) → count a history' ≡ count a (all_rows stamps))
    × (update_history insertion_engine true true
          (some ([] ++ ([] ++ trade_at (codes "soon") ∷ []) ∷ []))
          []
        ≡ [])
update_history-IsByTime_example =
    update_history-IsByTime insertion_engine [] stamps [] [] [] [] (trade_at (codes "soon"))
      (ground arith) (ground arith)
