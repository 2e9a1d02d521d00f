-- ===== src/Replication/Workers/Tests.antt =====
-- Workers of one tenant, and candles.
use faculty_auxie_mm.Gatherer.Streamer.{new_streamer, is_offered, chosen_action}
use faculty_auxie_mm.Gatherer.Worker.{setup_worker}
use faculty_auxie_mm.Gatherer.Worker.Laws.{written}
use faculty_auxie_mm.Gatherer.Worker.Tests.{offering, two_pairs}
use faculty_auxie_mm.MagicBox.Worker.{subscribe_all, nothing_subscribed, watched_key}
use faculty_auxie_mm.MagicBox.Worker.Tests.{record_of, fresh_service}
use faculty_auxie_mm.Keys.{stream_prefix, observable_key}
use faculty_auxie_mm.Replication.Workers.{subscribe_all-setup_worker}
use faculty_auxie_mm.Replication.Candles.{run_candles, slot_of-run_candles}
use faculty_auxie_mm.Gatherer.Candles.{Entry}
use faculty_auxie_mm.MagicBox.Cache.{DataStreamService, slot_of}
use faculty_auxie_mm.MagicBox.Handlers.{Ohlcv}
use faculty_auxie_mm.Prelude.Count.{count, contains}
use faculty_auxie_mm.Prelude.Text.{codes, text_Eq}
use faculty_auxie_mm.Prelude.{◌≡◌, ◌∷◌, ◌++◌, [], true, refl, ℕ, take}

subscribe_all-setup_worker_example :
    let r = record_of (codes "watchBalance") (codes "kucoin@1") in
    (count
        (codes "T.kucoin@1.watchBalance")
        (subscribe_all (codes "T") (r ∷ r ∷ []) (nothing_subscribed fresh_service)).readers
      ≡ 1)
    × (contains
          (written (setup_worker (offering (codes "none")) two_pairs new_streamer).0.subscriptions)
          (stream_prefix ++ codes "T.kucoin@1.watchBalance")
        ≡ true)
unfolding watched_key observable_key is_offered chosen_action
subscribe_all-setup_worker_example =
    let r = record_of (codes "watchBalance") (codes "kucoin@1") in
    subscribe_all-setup_worker (codes "T") (r ∷ []) [] r (codes "T.kucoin@1.watchBalance")
      fresh_service (offering (codes "none")) two_pairs new_streamer refl refl refl refl refl refl
      refl (refl, (refl, (refl, tt)))

abbrev entry : ℕ → Entry
entry t = record { time = t; open_price = 1; high = 2; low = 1; close = 2; volume = 9 }

abbrev ohlcv : ℕ → Ohlcv
ohlcv t = record { timestamp = t; open_price = 1; high = 2; low = 1; close = 2; volume = t }

abbrev candle_service : DataStreamService Ohlcv
candle_service = record { cache = []; observables = []; cache_size = 2; max_timestamp_delta = 3000 }

slot_of-run_candles_example :
    take 2 (
      slot_of
        (run_candles
          (codes "k")
          ((0, entry 60 ∷ []) ∷ (0, []) ∷ (0, entry 120 ∷ entry 180 ∷ []) ∷ [])
          candle_service)
        (codes "k"))
    ≡ ohlcv 180 ∷ ohlcv 120 ∷ []
slot_of-run_candles_example =
    slot_of-run_candles (codes "k")
      ((0, entry 60 ∷ []) ∷ (0, []) ∷ (0, entry 120 ∷ entry 180 ∷ []) ∷ []) candle_service
