-- ===== src/Keys/Tests.antt =====
-- Examples of keys.
use faculty_auxie_mm.Keys.Laws.{parse_key-observable_key}
use faculty_auxie_mm.Prelude.{some, ◌≡◌, none, arith}
use faculty_auxie_mm.Keys.{parse_key, observable_key, codes, stream_prefix, ◌++◌, some, none}
use faculty_auxie_mm.Prelude.Text.{Text, codes}

abbrev tenant : Text
tenant = codes "StrankaXY"

abbrev symbol : Text
symbol = codes "ETH/BTC"

parse_key-observable_key_example :
    (parse_key (
        stream_prefix
        ++ observable_key tenant (codes "binance") (codes "watchOrders") (some symbol))
      ≡ record {
        tenant = some tenant;
        exchange = some (codes "binance");
        data_point = some (codes "watchOrders");
        symbol = some symbol;
      })
    × (parse_key
          (stream_prefix ++ observable_key tenant (codes "binance") (codes "watchOrders") none)
        ≡ record {
          tenant = some tenant;
          exchange = some (codes "binance");
          data_point = some (codes "watchOrders");
          symbol = none;
        })
parse_key-observable_key_example =
    parse_key-observable_key tenant (codes "binance") (codes "watchOrders") symbol (ground arith)
      (ground arith) (ground arith) (ground arith)
