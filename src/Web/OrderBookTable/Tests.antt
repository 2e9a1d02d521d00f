-- ===== src/Web/OrderBookTable/Tests.antt =====
-- A table of two levels on each side, then a book with a new best ask and one bid less.
use faculty_auxie_mm.Book.Message.{Deltas}
use faculty_auxie_mm.Web.OrderBookTable.Laws.{nothing, next, update_order_book-rows}
use faculty_auxie_mm.Web.OrderBookTable.{BookTable, update_order_book, rows, Deltas}
use faculty_auxie_mm.Replication.Sync.{IsWellFormed}
use faculty_auxie_mm.Gatherer.Feed.{Tick, deltas_of}
use faculty_auxie_mm.Book.Lodash.{plain_lodash}
use faculty_auxie_mm.Book.{OrderBook, Level, level_Eq}
use faculty_auxie_mm.Prelude.Text.{Text, codes}
use faculty_auxie_mm.Prelude.{◌≡◌, ◌∷◌, [], none, some, true, refl, List, ℕ, arith, suc, ◌+◌, zero}

abbrev at : ℕ → Level
at n = record { price = n; amount = 1 }

abbrev book_of : List Level → List Level → OrderBook
book_of asks bids = record {
  timestamp = none;
  datetime = none;
  nonce = none;
  asks = asks;
  bids = bids;
}

abbrev first_book : OrderBook
first_book = book_of (at 12 ∷ at 13 ∷ []) (at 10 ∷ at 9 ∷ [])

abbrev second : Tick
second = record {
  now = 5;
  timestamp_local = 5;
  book = book_of (at 11 ∷ at 12 ∷ at 13 ∷ []) (at 10 ∷ []);
}

abbrev empty : BookTable
empty = record { asks = []; bids = []; last_order_book = codes "0" }

abbrev loaded : BookTable
loaded = record { asks = first_book.asks; bids = first_book.bids; last_order_book = codes "3" }

-- A newer snapshot is taken over as it stands.
snapshot_loaded : update_order_book true true (some (codes "3", first_book)) none empty ≡ loaded
unfolding update_order_book
snapshot_loaded = refl

first_book-IsWellFormed : IsWellFormed first_book
first_book-IsWellFormed = record {
  asks_rise = ((omega arith, tt), (tt, tt));
  bids_fall = ((omega arith, tt), (tt, tt));
}

second-IsWellFormed : IsWellFormed second.book
second-IsWellFormed = record {
  asks_rise = ((omega arith, (omega arith, tt)), ((omega arith, tt), (tt, tt)));
  bids_fall = (tt, tt);
}

abbrev messages : List (Text × Deltas)
messages = (codes "4", deltas_of plain_lodash (codes "BTC/USDT") first_book second) ∷ []

update_order_book-rows_example :
    let t' = update_order_book true true (some (codes "3", first_book)) (some messages) loaded in
    (t'.asks ≡ at 13 ∷ at 12 ∷ at 11 ∷ [])
    × (t'.bids ≡ at 10 ∷ [])
    × (t'.last_order_book ≡ codes "4")
    × (rows t' ≡ (at 13 ∷ at 12 ∷ at 11 ∷ [], at 10 ∷ []))
update_order_book-rows_example =
    update_order_book-rows plain_lodash (codes "BTC/USDT") loaded (codes "3", first_book)
      (next (codes "4") second refl second-IsWellFormed nothing)
      (record {
        asks_same = λ a. refl;
        bids_same = λ a. refl;
        last_is = refl;
        well_formed = first_book-IsWellFormed;
      })
      refl

-- With more than twenty asks the best ones are not in the rows of a table that shows a snapshot.
abbrev rising : ℕ → ℕ → List Level
rising zero from = []
rising (suc n) from = at from ∷ rising n (from + 1)

snapshot_rows :
    (rows (record { asks = rising 22 1; bids = []; last_order_book = codes "3" })).0 ≡ rising 20 3
unfolding rows
snapshot_rows = refl
