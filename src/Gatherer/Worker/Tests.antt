-- ===== src/Gatherer/Worker/Tests.antt =====
-- A worker for two pairs.
use faculty_auxie_mm.Keys.{
  order_book_key, order_book_snapshot_key, observable_key, get_observable_key,
}
use faculty_auxie_mm.Gatherer.Streamer.{
  Exchange, new_streamer, is_offered, chosen_action, get_observable, subscribe, key_of,
}
use faculty_auxie_mm.Gatherer.Worker.{
  WorkPlan, name, setup_worker, subscribe_pairs, subscribe_data_points, subscribe_data_point,
  subscribe_action, get_observable_key,
}
use faculty_auxie_mm.Gatherer.Worker.Laws.{written}
use faculty_auxie_mm.Gatherer.Worker.Streams.{plan_streams, setup_worker-plan_streams}
use faculty_auxie_mm.Prelude.Count.{contains, count}
use faculty_auxie_mm.Prelude.Text.{Text, codes, text_eq, text_Eq}
use faculty_auxie_mm.Prelude.{◌≡◌, ◌∷◌, [], none, true, false, refl, not, length}

abbrev pub offering : Text → Exchange
offering missing = record {
  tenant = codes "T";
  id = codes "kucoin";
  full_name = codes "kucoin@1";
  method = λ action. true;
  has = λ action. not (text_eq action missing);
}

abbrev pub two_pairs : WorkPlan
two_pairs = record {
  asset_pairs = codes "A/B" ∷ codes "C/B" ∷ [];
  data_points =
      name (codes "watchOrderBook") ∷ name (codes "watchOrders") ∷ name (codes "watchBalance") ∷ [];
  delay_on_fetch = none;
}

abbrev all_offered : Exchange
all_offered = offering (codes "none")

setup_worker-plan_streams_example :
    let r = setup_worker all_offered two_pairs new_streamer in
    (r.1 ≡ true)
    × ((k : Text)
        → contains (written r.0.subscriptions) k
          ≡ contains (plan_streams all_offered two_pairs.data_points two_pairs.asset_pairs) k)
unfolding observable_key is_offered chosen_action
setup_worker-plan_streams_example =
    setup_worker-plan_streams all_offered two_pairs new_streamer refl (refl, (refl, (refl, tt)))

-- Each pair subscribes to the same balance, twice: four subscribers write one stream.
balance_subscribers :
    count
      (codes "stream.T.kucoin@1.watchBalance")
      (written (setup_worker all_offered two_pairs new_streamer).0.subscriptions)
    ≡ 4
unfolding setup_worker subscribe_pairs subscribe_data_points subscribe_data_point subscribe_action
    get_observable_key get_observable subscribe key_of order_book_key order_book_snapshot_key
balance_subscribers = refl

-- A data point that the exchange lacks stops all that would follow.
stopped_subscriptions :
    let r = setup_worker (offering (codes "fetchBalance")) two_pairs new_streamer in
    (r.1 ≡ false) × (length r.0.subscriptions ≡ 3)
unfolding setup_worker subscribe_pairs subscribe_data_points subscribe_data_point subscribe_action
    get_observable subscribe key_of
stopped_subscriptions = (refl, refl)
