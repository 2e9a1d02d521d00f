-- ===== src/MagicBox/Worker/Tests.antt =====
-- Two records for one order book, one for a balance.
use faculty_auxie_mm.MagicBox.Cache.{DataStreamService}
use faculty_auxie_mm.MagicBox.Worker.{MagicBoxSubscription, Event, notify_plugins, handle_all}
use faculty_auxie_mm.Prelude.Text.{Text, codes, text_Eq}
use faculty_auxie_mm.Prelude.{◌≡◌, ◌∷◌, [], false, refl, List, ℕ, Bool, ◌==◌, ◌+◌, not}

abbrev pub record_of : Text → Text → MagicBoxSubscription
record_of data_point exchange_id = record {
  symbol = codes "A/B";
  exchange_id = exchange_id;
  data_point = data_point;
  is_public = false;
}

abbrev book_record : MagicBoxSubscription
book_record = record_of (codes "watchOrderBook") (codes "kucoin")

abbrev records : List MagicBoxSubscription
records = book_record ∷ book_record ∷ record_of (codes "watchBalance") (codes "kucoin@1") ∷ []

abbrev pub fresh_service : DataStreamService ℕ
fresh_service = record { cache = []; observables = []; cache_size = 30; max_timestamp_delta = 3000 }

-- Plugins that count events; the one at 5 throws, and the one behind it is not told.
abbrev counted : Event ℕ → ℕ → ℕ × Bool
counted event n = (n + 1, not (n == 5))

notified_plugins : notify_plugins counted book_record 7 (1 ∷ 5 ∷ 2 ∷ []) ≡ 2 ∷ 6 ∷ 2 ∷ []
unfolding notify_plugins handle_all
notified_plugins = refl
