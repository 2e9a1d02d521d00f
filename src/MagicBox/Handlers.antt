-- ===== src/MagicBox/Handlers.antt =====
-- The other handlers of DataStreamService (packages/magicbox/src/services/datastream-service.ts), and
-- the subjects that it shares.
pub mod Laws
use faculty_auxie_mm.MagicBox.Cache.{DataStreamService, Pushed, push_to_observable}
use faculty_auxie_mm.Prelude.Text.{Text, text_eq}
use faculty_auxie_mm.Prelude.{
  ◌∷◌, ◌++◌, if◌then◌else◌, none, some, true, false, [], List, Bool, ℕ, any,
}

-- class OHLCV of packages/utils/src/types.ts
pub record Ohlcv : Type 0 where
  pub timestamp : ℕ
  pub open_price : ℕ
  pub high : ℕ
  pub low : ℕ
  pub close : ℕ
  pub volume : ℕ

module _ {V : Type 0} where
  -- handleMessage
  unfoldable pub handle_message : ℕ → Text → ℕ → V → DataStreamService V → Pushed V Unit
  handle_message now key msg_timestamp entry s =
      push_to_observable now key entry (some msg_timestamp) false none s

  -- getObservable of a key that is `observable_key`: a new subject is kept, and its reader started
  unfoldable pub get_observable : Text → DataStreamService V → DataStreamService V × Bool
  get_observable key s =
      if any (text_eq key) s.observables
      then (s, false)
      else (record s { observables = s.observables ++ key ∷ [] }, true)

-- handleOHLCVMessage: every candle of a message is pushed
unfoldable pub handle_ohlcv_message :
    ℕ → Text → List Ohlcv → DataStreamService Ohlcv → DataStreamService Ohlcv
handle_ohlcv_message now key [] s = s
handle_ohlcv_message now key (c ∷ cs) s =
    handle_ohlcv_message now key cs
      (push_to_observable {I = Unit} now key c (some c.timestamp) false none s).service
