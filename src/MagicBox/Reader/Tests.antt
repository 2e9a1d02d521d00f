-- ===== src/MagicBox/Reader/Tests.antt =====
-- A reader of a stream that gets a snapshot, deltas, and both again between two rounds.
use faculty_auxie_mm.MagicBox.Reader.{new_reader}
use faculty_auxie_mm.MagicBox.Reader.CatchUp.{rounds, newest_book-rounds}
use faculty_auxie_mm.Book.Lodash.{plain_lodash, Lodash}
use faculty_auxie_mm.MagicBox.Reader.Books.{Logged, round, newest_book, replay}
use faculty_auxie_mm.Book.Message.{BookMessage, deltas, snapshot}
use faculty_auxie_mm.Book.{Level, OrderBook, level_Eq}
use faculty_auxie_mm.MagicBox.Cache.{DataStreamService}
use faculty_auxie_mm.Prelude.Text.{Text, codes}
use faculty_auxie_mm.Prelude.{◌≡◌, ◌∷◌, ◌++◌, none, some, refl, [], List, ℕ, arith}

abbrev key : Text
key = codes "acme.kucoin.watchOrderBook.ETH/BTC"

abbrev level : ℕ → ℕ → Level
level p a = record { price = p; amount = a }

abbrev book : ℕ → List Level → List Level → OrderBook
book t asks bids = record {
  timestamp = some t;
  datetime = none;
  nonce = none;
  asks = asks;
  bids = bids;
}

abbrev change : ℕ → List Level → List Level → BookMessage
change t add remove = deltas (record {
  asks = record { add = add; remove = remove };
  bids = record { add = []; remove = [] };
  timestamp = t;
  timestamp_local = t;
  datetime = none;
  nonce = none;
  symbol = codes "ETH/BTC";
})

abbrev logged : ℕ → BookMessage → Logged
logged t m = record { timestamp = t; sequence = 0; message = m }

abbrev first_writes : List Logged
first_writes =
    logged 5 (snapshot (book 5 (level 10 1 ∷ []) (level 9 1 ∷ [])) 5 (codes "ETH/BTC"))
    ∷ logged 6 (change 6 (level 12 4 ∷ []) [])
    ∷ []

abbrev later_writes : List Logged
later_writes =
    logged 7 (change 7 [] (level 10 1 ∷ []))
    ∷ logged 8 (snapshot (book 8 (level 11 1 ∷ []) (level 9 2 ∷ [])) 8 (codes "ETH/BTC"))
    ∷ logged 9 (change 9 (level 13 1 ∷ []) (level 11 1 ∷ []))
    ∷ []

abbrev empty_box : DataStreamService OrderBook
empty_box = record { cache = []; observables = []; cache_size = 30; max_timestamp_delta = 3000 }

newest_book-rounds_example :
    let log = first_writes ++ later_writes in
    let l : Lodash Level = plain_lodash in
    let r = rounds l 9 key [] (first_writes ∷ later_writes ∷ []) (new_reader empty_box) in
    newest_book key (round l 9 key log (round l 9 key log r)).service ≡ replay l log none
newest_book-rounds_example =
    newest_book-rounds (plain_lodash {A = Level}) 9 key (first_writes ∷ later_writes ∷ []) empty_box
      (omega arith) refl (omega arith)
