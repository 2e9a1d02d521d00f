-- ===== src/Gatherer/Streamer/Methods.antt =====
-- The methods of DataStreamerService by which a worker asks for a data point
-- (packages/gatherer/src/services/datastreamer-service.ts). The arguments after the delay are those
-- that the exchange's method gets behind the symbol.
use faculty_auxie_mm.Gatherer.Loop.{Param, undefined, text}
use faculty_auxie_mm.Prelude.Text.{Text, codes}
use faculty_auxie_mm.Gatherer.Streamer.{Exchange, Text, Param, Streamer, get_observable, codes}
use faculty_auxie_mm.Prelude.{◌∷◌, none, some, false, [], Option, Bool, ℕ}

abbrev pub symbol_param : Option Text → Param
symbol_param none = undefined
symbol_param (some symbol) = text symbol

unfoldable pub watch_ticker :
    Exchange → Option Text → Option Bool → Option ℕ → Param → Streamer → Option ℕ × Streamer
watch_ticker exchange symbol fetch_fallback fetch_delay params =
    get_observable (codes "watchTicker") exchange fetch_fallback fetch_delay symbol
      (symbol_param symbol ∷ params ∷ [])

unfoldable pub watch_order_book :
    Exchange → Option Text → Option Bool → Option ℕ → Param → Param → Streamer → Option ℕ × Streamer
watch_order_book exchange symbol fetch_fallback fetch_delay limit params =
    get_observable (codes "watchOrderBook") exchange fetch_fallback fetch_delay symbol
      (symbol_param symbol ∷ limit ∷ params ∷ [])

unfoldable pub fetch_order_book :
    Exchange → Option Text → Option Bool → Option ℕ → Param → Param → Streamer → Option ℕ × Streamer
fetch_order_book exchange symbol fetch_fallback fetch_delay limit params =
    get_observable (codes "fetchOrderBook") exchange fetch_fallback fetch_delay symbol
      (symbol_param symbol ∷ limit ∷ params ∷ [])

unfoldable pub watch_ohlcv :
    Exchange
    → Option Text
    → Option Bool
    → Option ℕ
    → Param
    → Param
    → Param
    → Param
    → Streamer
    → Option ℕ × Streamer
watch_ohlcv exchange symbol fetch_fallback fetch_delay timeframe since limit params =
    get_observable (codes "watchOHLCV") exchange fetch_fallback fetch_delay symbol
      (symbol_param symbol ∷ timeframe ∷ since ∷ limit ∷ params ∷ [])

unfoldable pub watch_trades :
    Exchange
    → Option Text
    → Option Bool
    → Option ℕ
    → Param
    → Param
    → Param
    → Streamer
    → Option ℕ × Streamer
watch_trades exchange symbol fetch_fallback fetch_delay since limit params =
    get_observable (codes "watchTrades") exchange fetch_fallback fetch_delay symbol
      (symbol_param symbol ∷ since ∷ limit ∷ params ∷ [])

unfoldable pub watch_orders :
    Exchange
    → Option Text
    → Option Bool
    → Option ℕ
    → Param
    → Param
    → Param
    → Streamer
    → Option ℕ × Streamer
watch_orders exchange symbol fetch_fallback fetch_delay since limit params =
    get_observable (codes "watchOrders") exchange fetch_fallback fetch_delay symbol
      (symbol_param symbol ∷ since ∷ limit ∷ params ∷ [])

unfoldable pub watch_open_orders :
    Exchange
    → Option Text
    → Option Bool
    → Option ℕ
    → Param
    → Param
    → Param
    → Streamer
    → Option ℕ × Streamer
watch_open_orders exchange symbol fetch_fallback fetch_delay since limit params =
    get_observable (codes "watchOpenOrders") exchange fetch_fallback fetch_delay symbol
      (symbol_param symbol ∷ since ∷ limit ∷ params ∷ [])

unfoldable pub watch_closed_orders :
    Exchange
    → Option Text
    → Option Bool
    → Option ℕ
    → Param
    → Param
    → Param
    → Streamer
    → Option ℕ × Streamer
watch_closed_orders exchange symbol fetch_fallback fetch_delay since limit params =
    get_observable (codes "watchClosedOrders") exchange fetch_fallback fetch_delay symbol
      (symbol_param symbol ∷ since ∷ limit ∷ params ∷ [])

unfoldable pub watch_my_trades :
    Exchange
    → Option Text
    → Option Bool
    → Option ℕ
    → Param
    → Param
    → Param
    → Streamer
    → Option ℕ × Streamer
watch_my_trades exchange symbol fetch_fallback fetch_delay since limit params =
    get_observable (codes "watchMyTrades") exchange fetch_fallback fetch_delay symbol
      (symbol_param symbol ∷ since ∷ limit ∷ params ∷ [])

unfoldable pub watch_balance :
    Exchange → Option Bool → Option ℕ → Param → Streamer → Option ℕ × Streamer
watch_balance exchange fetch_fallback fetch_delay params =
    get_observable (codes "watchBalance") exchange fetch_fallback fetch_delay none (params ∷ [])

unfoldable pub fetch_balance : Exchange → Option ℕ → Param → Streamer → Option ℕ × Streamer
fetch_balance exchange fetch_delay params =
    get_observable (codes "fetchBalance") exchange (some false) fetch_delay none (params ∷ [])

unfoldable pub fetch_open_orders :
    Exchange → Option Text → Option ℕ → Param → Param → Param → Streamer → Option ℕ × Streamer
fetch_open_orders exchange symbol fetch_delay since limit params =
    get_observable (codes "fetchOpenOrders") exchange (some false) fetch_delay symbol
      (symbol_param symbol ∷ since ∷ limit ∷ params ∷ [])

unfoldable pub fetch_closed_orders :
    Exchange → Option Text → Option ℕ → Param → Param → Param → Streamer → Option ℕ × Streamer
fetch_closed_orders exchange symbol fetch_delay since limit params =
    get_observable (codes "fetchClosedOrders") exchange (some false) fetch_delay symbol
      (symbol_param symbol ∷ since ∷ limit ∷ params ∷ [])

-- What fetchOrders returns: one subject, or the merge of what the two fallbacks returned.
pub data Observed : Type 0 where
  single : ℕ → Observed
  merged : Option ℕ → Option ℕ → Observed

abbrev pub merge_orders :
    Option ℕ × Streamer
    → (Streamer → Option ℕ × Streamer)
    → (Streamer → Option ℕ × Streamer)
    → Observed × Streamer
merge_orders (some subject, s) fetch_open fetch_closed = (single subject, s)
merge_orders (none, s) fetch_open fetch_closed =
    let (a, s') = fetch_open s in let (b, s'') = fetch_closed s' in (merged a b, s'')

unfoldable pub fetch_orders :
    Exchange → Option Text → Option ℕ → Param → Param → Param → Streamer → Observed × Streamer
unfolding fetch_open_orders fetch_closed_orders
fetch_orders exchange symbol fetch_delay since limit params s =
    merge_orders
      (get_observable (codes "fetchOrders") exchange (some false) fetch_delay symbol
        (symbol_param symbol ∷ since ∷ limit ∷ params ∷ []) s)
      (fetch_open_orders exchange symbol fetch_delay since limit params)
      (fetch_closed_orders exchange symbol fetch_delay since limit params)
