-- ===== src/Gatherer/Candles.antt =====
-- The subscriber of watchOHLCV in packages/gatherer/src/worker.ts.
use faculty_auxie_mm.MagicBox.Handlers.{Ohlcv}
use faculty_auxie_mm.Prelude.{◌∷◌, [], none, some, List, Option, ℕ, map}

-- A candle as ccxt has it: an array of the time, four prices and the volume.
pub record Entry : Type 0 where
  pub time : ℕ
  pub open_price : ℕ
  pub high : ℕ
  pub low : ℕ
  pub close : ℕ
  pub volume : ℕ

-- `volume: entry[0]`
abbrev pub candle_of : Entry → Ohlcv
candle_of entry = record {
  timestamp = entry.time;
  open_price = entry.open_price;
  high = entry.high;
  low = entry.low;
  close = entry.close;
  volume = entry.time;
}

-- The subscriber of watchOHLCV: the message that it writes
unfoldable pub on_candles : List Entry → Option (List Ohlcv)
on_candles [] = none
on_candles (entry ∷ entries) = some (map candle_of (entry ∷ entries))
