-- ===== src/Gatherer/Streamer/Tests.antt =====
-- Examples of observables.
-- An exchange with every method but fetchOrders.
use faculty_auxie_mm.Gatherer.Loop.{undefined}
use faculty_auxie_mm.Gatherer.Streamer.Laws.{fetch_orders_merged}
use faculty_auxie_mm.Prelude.Text.{codes, Text, text_eq}
use faculty_auxie_mm.Gatherer.Streamer.Methods.{fetch_orders, merged, symbol_param}
use faculty_auxie_mm.Gatherer.Streamer.{
  Exchange, get_observable, codes, Text, key_of, not, new_streamer, text_eq, StartedLoop,
}
use faculty_auxie_mm.Prelude.{◌≡◌, none, some, true, refl, Option, not, ◌⊎◌, ◌∷◌, []}

abbrev plain_exchange : Exchange
plain_exchange = record {
  tenant = codes "T";
  id = codes "kucoin";
  full_name = codes "kucoin@1";
  method = λ action. true;
  has = λ action. not (text_eq action (codes "fetchOrders"));
}

abbrev symbol : Option Text
symbol = some (codes "ETH/BTC")

fetch_orders_merged_example :
    let (observed, s') =
      fetch_orders plain_exchange symbol none undefined undefined undefined new_streamer in
    let started : StartedLoop = record {
      subject = 0;
      action = codes "fetchOpenOrders";
      delay = 3000;
      params = symbol_param symbol ∷ undefined ∷ undefined ∷ undefined ∷ [];
    } in
    (observed ≡ merged (some 0) (some 0)) × ((s'.loops ≡ []) ⊎ (s'.loops ≡ started ∷ []))
unfolding fetch_orders get_observable key_of
fetch_orders_merged_example =
    fetch_orders_merged plain_exchange symbol none undefined undefined undefined new_streamer 0
      (some 0) refl
