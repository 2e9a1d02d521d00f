-- ===== src/Web/HistoryTable/Laws.antt =====
-- The order of the trades in packages/web/src/components/trade/HistoryTable.js.
use mathlib.Core.Path.{ap₂}
use faculty_auxie_mm.Web.Engine.{Sort, IsConsistent, IsOrderedBy}
use faculty_auxie_mm.Web.ActiveOrderTable.{text_ltb}
use faculty_auxie_mm.Web.ActiveOrderTable.Cells.{text_ltb_asymm, text_ltb_trans}
use faculty_auxie_mm.Web.HistoryTable.{
  HistoryRow, Trade, compare_time, update_history, history_rows, trade_rows, up_to_t, behind_t,
  slice_end, row_at, with_row, join_rows,
}
use faculty_auxie_mm.Prelude.Count.{Eq, count}
use faculty_auxie_mm.Prelude.Int.{pos, ◌≤ℤ◌}
use faculty_auxie_mm.Prelude.Text.{Text, text_eq, text_eq_iff, text_Eq}
use faculty_auxie_mm.Prelude.{
  ◌≡◌, ◌∷◌, ◌↔◌, ◌==◌, ◌&&◌, [], none, some, true, false, List, Option, Bool, ℕ, ◌++◌, ◌+◌, ◌-◌, ap,
  map, take, length, arith, refl, All, All-map, ◌∙◌,
}

abbrev pub history_row_eq : HistoryRow → HistoryRow → Bool
history_row_eq a b =
    text_eq a.time b.time && text_eq a.side b.side && (a.price == b.price) && (a.size == b.size)

pub history_row_eq_iff : (a b : HistoryRow) → (history_row_eq a b ≡ true) ↔ (a ≡ b)
history_row_eq_iff a b = ground (arith, text_eq_iff a.time b.time, text_eq_iff a.side b.side)

instance abbrev pub history_row_Eq : Eq HistoryRow
history_row_Eq = record { beq = history_row_eq; beq_iff = history_row_eq_iff }

-- No row has an earlier time, as a text, than one below it.
abbrev pub IsByTime : List HistoryRow → Type 0
IsByTime [] = Unit
IsByTime (x ∷ xs) = All (λ y. text_ltb x.time y.time ≡ false) xs × IsByTime xs

text_ltb_total : (s t : Text) → text_ltb s t ≡ false → text_ltb t s ≡ false → text_eq s t ≡ true
text_ltb_total [] [] h k = refl
text_ltb_total [] (d ∷ t) h k = absurd (ground (arith, h))
text_ltb_total (c ∷ s) [] h k = absurd (ground (arith, k))
text_ltb_total (c ∷ s) (d ∷ t) h k = ground (arith, h, k, text_ltb_total s t)

text_ltb_irrefl : (s t : Text) → text_eq s t ≡ true → text_ltb s t ≡ false
text_ltb_irrefl [] [] h = refl
text_ltb_irrefl [] (d ∷ t) h = absurd (ground (arith, h))
text_ltb_irrefl (c ∷ s) [] h = absurd (ground (arith, h))
text_ltb_irrefl (c ∷ s) (d ∷ t) h = ground (arith, h, text_ltb_irrefl s t)

compare_time_le :
    (a b : HistoryRow) → (compare_time a b ≤ℤ pos 0) ↔ (text_ltb a.time b.time ≡ false)
unfolding compare_time
compare_time_le a b = ground (
  arith,
  text_ltb_asymm b.time a.time,
  text_ltb_total a.time b.time,
  text_ltb_irrefl a.time b.time,
)

compare_time_ge :
    (a b : HistoryRow) → (pos 0 ≤ℤ compare_time a b) ↔ (text_ltb b.time a.time ≡ false)
unfolding compare_time
compare_time_ge a b = ground arith

compare_time-IsConsistent : IsConsistent (λ row. Unit) compare_time
compare_time-IsConsistent = record {
  flips = λ a b pa pb.
      let (le, not_before) = compare_time_le a b in
      let (ge, not_before') = compare_time_ge b a in
      (λ h. not_before' (le h), λ h. not_before (ge h));
  trans = λ a b c pa pb pc h k.
      (compare_time_le a c).1 (
        text_ltb_trans c.time b.time a.time ((compare_time_le b c).0 k)
          ((compare_time_le a b).0 h));
}

IsByTime-of_IsOrderedBy : (rows : List HistoryRow) → IsOrderedBy compare_time rows → IsByTime rows
IsByTime-of_IsOrderedBy [] h = tt
IsByTime-of_IsOrderedBy (x ∷ rows) h =
    (All-map (λ y le. (compare_time_le x y).0 le) rows h.0, IsByTime-of_IsOrderedBy rows h.1)

any_row : (rows : List HistoryRow) → All {0, 0} (λ row. Unit) rows
any_row [] = tt
any_row (x ∷ rows) = (tt, any_row rows)

-- What a time of ccxt is made of: a date, a `T`, the time to the second, and five more characters.
pub record Stamp : Type 0 where
  pub date : Text
  pub time : Text
  pub suffix : Text
  pub side : Text
  pub price : ℕ
  pub cost : ℕ

abbrev pub HasNoT : Text → Type 0
HasNoT = All (λ c. (c == b'T') ≡ false)

abbrev pub IsStamp : Stamp → Type 0
IsStamp t = HasNoT t.date × HasNoT (t.time ++ t.suffix) × (length t.suffix ≡ 5)

abbrev pub trade_of : Stamp → Trade
trade_of t = record {
  datetime = t.date ++ b'T' ∷ (t.time ++ t.suffix);
  side = t.side;
  price = t.price;
  cost = t.cost;
}

-- The rows of all trades of all messages, in their order.
abbrev pub stamp_rows : List Stamp → List HistoryRow
stamp_rows [] = []
stamp_rows (t ∷ ts) =
    record { time = t.time; side = t.side; price = t.price; size = t.cost } ∷ stamp_rows ts

abbrev pub all_rows : List (List Stamp) → List HistoryRow
all_rows [] = []
all_rows (ts ∷ messages) = stamp_rows ts ++ all_rows messages

up_to_t-HasNoT : (s : Text) → HasNoT s → up_to_t s ≡ s
up_to_t-HasNoT [] h = refl
up_to_t-HasNoT (c ∷ s) h = rw (h.0) (ap (λ r. c ∷ r) (up_to_t-HasNoT s h.1))

behind_t-HasNoT : (s t : Text) → HasNoT s → HasNoT t → behind_t (s ++ b'T' ∷ t) ≡ some t
behind_t-HasNoT [] t h k = ap some (up_to_t-HasNoT t k)
behind_t-HasNoT (c ∷ s) t h k = rw (h.0) (behind_t-HasNoT s t h.1 k)

length-append_lem : (s t : Text) → length (s ++ t) ≡ length s + length t
length-append_lem [] t = omega arith
length-append_lem (c ∷ s) t = omega (arith, length-append_lem s t)

take-append : (s t : Text) → take (length s) (s ++ t) ≡ s
take-append [] t = refl
take-append (c ∷ s) t = ap (λ r. c ∷ r) (take-append s t)

slice_end-append : (s t : Text) → length t ≡ 5 → slice_end 5 (s ++ t) ≡ s
slice_end-append s t h =
    let kept : length (s ++ t) - 5 ≡ length s = omega (arith, length-append_lem s t, h) in
    rw kept (take-append s t)

row_at-stamp :
    (t : Stamp)
    → IsStamp t
    → row_at (behind_t (t.date ++ b'T' ∷ (t.time ++ t.suffix))) (trade_of t)
      ≡ some (record { time = t.time; side = t.side; price = t.price; size = t.cost })
row_at-stamp t h =
    ap (λ o. row_at o (trade_of t)) (behind_t-HasNoT t.date (t.time ++ t.suffix) h.0 h.1)
    ∙ ap (λ s. some (record { time = s; side = t.side; price = t.price; size = t.cost }))
        (slice_end-append t.time t.suffix h.2)

trade_rows-stamp_rows :
    (ts : List Stamp) → All IsStamp ts → trade_rows (map trade_of ts) ≡ some (stamp_rows ts)
unfolding trade_rows
trade_rows-stamp_rows [] h = refl
trade_rows-stamp_rows (t ∷ ts) h = ap₂ with_row (row_at-stamp t h.0) (trade_rows-stamp_rows ts h.1)

history_rows-all_rows :
    (messages : List (List Stamp))
    → All (λ ts. All IsStamp ts) messages
    → history_rows (map (λ ts. map trade_of ts) messages) ≡ some (all_rows messages)
unfolding history_rows
history_rows-all_rows [] h = refl
history_rows-all_rows (ts ∷ messages) h =
    rw (trade_rows-stamp_rows ts h.0, history_rows-all_rows messages h.1) refl

behind_t-none : (s : Text) → HasNoT s → behind_t s ≡ none
behind_t-none [] h = refl
behind_t-none (c ∷ s) h = rw (h.0) (behind_t-none s h.1)

trade_rows-none :
    (before after : List Trade) (t : Trade)
    → HasNoT t.datetime
    → trade_rows (before ++ t ∷ after) ≡ none
unfolding trade_rows
trade_rows-none [] after t h = rw (behind_t-none t.datetime h) refl
trade_rows-none (b ∷ before) after t h =
    rw (trade_rows-none before after t h) (with_row_none (row_at (behind_t b.datetime) b))
  where
    with_row_none : (o : Option HistoryRow) → with_row o none ≡ none
    with_row_none none = refl
    with_row_none (some row) = refl

history_rows-none :
    (first rest : List (List Trade)) (before after : List Trade) (t : Trade)
    → HasNoT t.datetime
    → history_rows (first ++ (before ++ t ∷ after) ∷ rest) ≡ none
unfolding history_rows
history_rows-none [] rest before after t h = rw (trade_rows-none before after t h) refl
history_rows-none (m ∷ first) rest before after t h =
    rw (history_rows-none first rest before after t h) (join_rows_none (trade_rows m))
  where
    join_rows_none : (o : Option (List HistoryRow)) → join_rows o none ≡ none
    join_rows_none none = refl
    join_rows_none (some rows) = refl

-- Once messages are read whose trades have times as ccxt writes them (a date, a `T`, the time, five
-- characters more, and no other `T`), the table has a row for each of their trades, with its time of
-- day, side, price and cost, and no other row, sorted so that no row has an earlier time of day than
-- one below it. Where a trade of some message has a time without a `T`, the table stays as it was.
pub update_history-IsByTime :
    (engine : Sort) (history : List HistoryRow) (messages : List (List Stamp))
    (first rest : List (List Trade)) (before after : List Trade) (t : Trade)
    → All (λ ts. All IsStamp ts) messages
    → HasNoT t.datetime
    → let trades = map (λ ts. map trade_of ts) messages in
      let history' = update_history engine true true (some trades) history in
      IsByTime history'
      × ((a : HistoryRow) → count a history' ≡ count a (all_rows messages))
      × (update_history engine true true (some (first ++ (before ++ t ∷ after) ∷ rest)) history
          ≡ history)
unfolding update_history
update_history-IsByTime engine history messages first rest before after t stamped no_time =
    let sorted = IsByTime-of_IsOrderedBy (engine.sort compare_time (all_rows messages)) (
      engine.sort-IsOrderedBy (λ row. Unit) compare_time (all_rows messages)
        compare_time-IsConsistent (any_row (all_rows messages))) in
    rw (history_rows-all_rows messages stamped) (
      sorted,
      λ a. engine.count-sort compare_time (all_rows messages) a,
      rw (history_rows-none first rest before after t no_time) refl,
    )
