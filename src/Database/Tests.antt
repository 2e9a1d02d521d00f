-- ===== src/Database/Tests.antt =====
-- Streams of order books and of balances, and two databases.
use faculty_auxie_mm.Database.Complete.{sync_asset-rows}
use faculty_auxie_mm.Database.Rows.{concat, stream_rows}
use faculty_auxie_mm.Keys.{parse_key}
use faculty_auxie_mm.Database.Laws.{Synced}
use faculty_auxie_mm.Database.Trimmed.{MissesNothing, sync_trimmed_asset-Synced}
use faculty_auxie_mm.MagicBox.Reader.Laws.{IsIncreasing}
use faculty_auxie_mm.Database.{
  Table, Row, kind_of, Message, sync_asset, Holding, entry_id, parse_key, rows_of, balance_row,
  sync_messages, sync_trimmed_asset,
}
use faculty_auxie_mm.MagicBox.Reader.{Entry, parsed, sequence_width, entry_id}
use faculty_auxie_mm.Prelude.Text.{Text, codes}
use faculty_auxie_mm.Prelude.{
  ◌≡◌, ◌∷◌, ◌++◌, refl, [], List, ℕ, true, false, Bool, length, ltb, Bool-cases, some,
  if◌then◌else◌, none, inl, inr, ◌*◌, arith,
}

-- has room for two rows
abbrev keep_two : Row → List Row → List Row × Bool
keep_two r rows = if ltb (length rows) 2 then (rows ++ r ∷ [], true) else (rows, false)

keep_two-inserted :
    (r : Row) (rows : List Row) → (keep_two r rows).1 ≡ true → (keep_two r rows).0 ≡ rows ++ r ∷ []
keep_two-inserted r rows h = elim (Bool-cases (ltb (length rows) 2)) [
  | inl room ↦ rw (room) refl
  | inr full ↦ let bad : false ≡ true = rw (full) at h in cc
]

keep_two-refused :
    (r : Row) (rows : List Row) → (keep_two r rows).1 ≡ false → (keep_two r rows).0 ≡ rows
keep_two-refused r rows h = elim (Bool-cases (ltb (length rows) 2)) [
  | inl room ↦ let bad : true ≡ false = rw (room) at h in cc
  | inr full ↦ rw (full) refl
]

abbrev small : Table
small = record {
  State = List Row;
  rows = λ s. s;
  insert = keep_two;
  inserted = keep_two-inserted;
  refused = keep_two-refused;
}

unbounded-refused : (r : Row) (s : List Row) → true ≡ false → s ++ r ∷ [] ≡ s
unbounded-refused r s h = cc

abbrev unbounded : Table
unbounded = record {
  State = List Row;
  rows = λ s. s;
  insert = λ r s. (s ++ r ∷ [], true);
  inserted = λ r s h. refl;
  refused = unbounded-refused;
}

abbrev books_key : Text
books_key = codes "faculty-watchOrderBook-binance-BTC/USDT"

abbrev balances_key : Text
balances_key = codes "faculty-watchBalance-binance"

abbrev book_entry : ℕ → Entry (Message (kind_of books_key))
unfolding kind_of
book_entry n = record {
  timestamp = n;
  sequence = 0;
  body = parsed (record { timestamp = some n; datetime = none });
}

abbrev book_news : List (List (Entry (Message (kind_of books_key))))
book_news = (book_entry 1 ∷ book_entry 2 ∷ []) ∷ (book_entry 3 ∷ []) ∷ []

books_increase : IsIncreasing entry_id 0 (concat book_news)
unfolding kind_of
books_increase = (omega arith, (omega arith, (omega arith, tt)))

-- The third book is refused and the id stays at the second.
books_stored : (sync_asset small books_key book_news []).id ≡ 2 * sequence_width
unfolding sync_asset kind_of rows_of
books_stored = refl

-- The first book is gone by the second XREAD, and the second one by the third.
abbrev book_rounds : List (ℕ × List (Entry (Message (kind_of books_key))))
book_rounds = (0, book_entry 1 ∷ book_entry 2 ∷ []) ∷ (1, book_entry 3 ∷ []) ∷ (2, []) ∷ []

sync_trimmed_asset-Synced_example :
    Synced small
      (kind_of books_key)
      (parse_key books_key)
      []
      (concat book_news)
      (sync_trimmed_asset small books_key book_rounds [])
unfolding kind_of sync_messages rows_of MissesNothing
sync_trimmed_asset-Synced_example =
    sync_trimmed_asset-Synced small books_key book_rounds [] tt books_increase
      (tt, ((refl, tt), ((refl, (refl, tt)), tt)))

-- A book that is trimmed before it is read is not seen.
lost_book :
    (sync_trimmed_asset unbounded books_key
      ((0, book_entry 1 ∷ []) ∷ (2, book_entry 2 ∷ book_entry 3 ∷ []) ∷ [])
      []).service
    ≡ stream_rows (kind_of books_key) (parse_key books_key) (book_entry 1 ∷ book_entry 3 ∷ [])
unfolding sync_trimmed_asset kind_of rows_of stream_rows
lost_book = refl

abbrev holding : ℕ → Holding
holding n = record { free = n; used = 0; total = n }

abbrev balance_news : List (List (Entry (Message (kind_of balances_key))))
unfolding kind_of
balance_news =
    (record {
      timestamp = 7;
      sequence = 0;
      body = parsed (record {
        timestamp = 7;
        currencies =
            (codes "BTC", holding 1) ∷ (codes "free", holding 3) ∷ (codes "USDT", holding 2) ∷ [];
      });
    }
      ∷ [])
    ∷ []

sync_asset-rows_example :
    (sync_asset unbounded balances_key balance_news
      (balance_row none none (codes "ETH") 1 (holding 5) ∷ [])).service
    ≡ balance_row none none (codes "ETH") 1 (holding 5)
      ∷ stream_rows (kind_of balances_key) (parse_key balances_key) (concat balance_news)
unfolding kind_of
sync_asset-rows_example =
    sync_asset-rows unbounded (λ r s. refl) balances_key balance_news
      (balance_row none none (codes "ETH") 1 (holding 5) ∷ []) (omega arith, tt)
      (((_, refl), tt), tt)
