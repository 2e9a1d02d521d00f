-- ===== src/MagicBox/Adapter/Tests.antt =====
-- A cache with two books of one stream.
use faculty_auxie_mm.Keys.{build_key}
use faculty_auxie_mm.Replication.Tests.{first_book, second_book}
use faculty_auxie_mm.Prelude.Text.{codes}
use faculty_auxie_mm.Book.{OrderBook}
use faculty_auxie_mm.MagicBox.Cache.{DataStreamService}
use faculty_auxie_mm.MagicBox.Adapter.{get_order_book, codes}
use faculty_auxie_mm.Prelude.{◌≡◌, ◌∷◌, true, [], some, refl}

abbrev box : DataStreamService OrderBook
box = record {
  cache = (codes "FGPUBLIC.kucoin.watchOrderBook.ETH/BTC", first_book ∷ second_book ∷ []) ∷ [];
  observables = [];
  cache_size = 30;
  max_timestamp_delta = 3000;
}

newest_book :
    get_order_book box.cache (codes "acme") (codes "kucoin") (codes "ETH/BTC") true
    ≡ some first_book
unfolding get_order_book build_key
newest_book = refl
