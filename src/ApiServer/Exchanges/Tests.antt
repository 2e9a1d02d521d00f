-- ===== src/ApiServer/Exchanges/Tests.antt =====
-- Examples of exchange requests.
use faculty_auxie_mm.ApiServer.Exchanges.Laws.{exchange_at, Changes, delete_exchange_sent}
use faculty_auxie_mm.ApiServer.Exchanges.{ExchangeConfigDto, delete_exchange, is_some, cfg_of}
use faculty_auxie_mm.ApiServer.Config.{Memory, Configuration, memory}
use faculty_auxie_mm.Prelude.Text.{Text, codes}
use faculty_auxie_mm.Prelude.{◌≡◌, ◌∷◌, none, some, true, refl, [], is_some}

abbrev request : Text → Text → ExchangeConfigDto
request tenant exchange = record {
  tenant = tenant;
  exchange = exchange;
  api_key = codes "key";
  test = true;
  password = none;
  api_secret = some (codes "secret");
}

abbrev settings_of : Text → Configuration
settings_of id = record {
  environment = codes "dev";
  agent = record { id = id; status = codes "started"; name = id };
  workplans = none;
  exchanges =
      some ((codes "A", (codes "kucoin", cfg_of (request (codes "A") (codes "kucoin"))) ∷ []) ∷ []);
}

abbrev start : Memory
start = record {
  gatherer_value = settings_of (codes "GATHERER");
  executor_value = settings_of (codes "EXECUTOR");
  dbsync_value = record {
    agent = record { id = codes "DBSYNC"; status = codes "started"; name = [] };
    workplans = [];
  };
}

abbrev binance : ExchangeConfigDto
binance = request (codes "A") (codes "binance")

delete_exchange_sent_example :
    (is_some (exchange_at (codes "A") (codes "kucoin") (memory.gatherer start)) ≡ true)
    × Changes memory start
        (delete_exchange memory (codes "A") (codes "kucoin") start).0
        (codes "A")
        (codes "kucoin")
        none
unfolding delete_exchange
delete_exchange_sent_example = delete_exchange_sent memory (codes "A") (codes "kucoin") start refl
