-- ===== src/Gatherer/Loop.antt =====
-- DataStreamerService.executeAction (packages/gatherer/src/services/datastreamer-service.ts): the
-- loops that call the exchange until they are told to stop or fail too often. A round is what one
-- call of the exchange brought, with the clock where that is read; `A` is the data. Time is in
-- milliseconds.
pub mod Laws
pub mod Tests
use faculty_auxie_mm.Prelude.Text.{Text, text_eq, codes}
use faculty_auxie_mm.Prelude.{
  ◌∷◌, ◌++◌, if◌then◌else◌, ◌==◌, ◌+◌, ◌&&◌, none, some, true, false, [], List, Option, Bool, ℕ,
  not, ltb, or_default, map,
}

abbrev pub number_of_error_before_quitting : ℕ
number_of_error_before_quitting = 10

abbrev pub ms_offset_between_errors : ℕ
ms_offset_between_errors = 5000

-- `lastError`, `errorCount`, `lastTimestamp`, and whether the loop was left by `break`.
pub record Loop : Type 0 where
  pub last_error : Option ℕ
  pub error_count : ℕ
  pub last_timestamp : ℕ
  pub stopped : Bool

abbrev pub fresh_loop : Loop
fresh_loop = record { last_error = none; error_count = 0; last_timestamp = 0; stopped = false }

-- `lastError && (now - lastError) < MS_OFFSET_BETWEEN_ERRORS`; the time 0 is falsy
abbrev pub is_soon : Option ℕ → ℕ → Bool
is_soon none now = false
is_soon (some t) now = not (t == 0) && ltb now (t + ms_offset_between_errors)

-- The `catch` block.
unfoldable pub on_error : ℕ → Loop → Loop
on_error now s =
    if ltb number_of_error_before_quitting s.error_count
    then record s { stopped = true }
    else record s {
      error_count = if is_soon s.last_error now then s.error_count + 1 else 0;
      last_error = some now;
    }

pub data Round (A : Type 0) : Type 0 where
  received : A → Round A
  nothing : ℕ → Round A
  failed : ℕ → Round A

module _ {A : Type 0} where
  -- One turn of the loop for an action that begins with `watch`: data goes to the subject.
  unfoldable pub watch_round : Round A → Loop → Loop × List A
  unfolding on_error
  watch_round (received data_point) s = (s, data_point ∷ [])
  watch_round (nothing now) s = (s, [])
  watch_round (failed now) s = (on_error now s, [])

  -- Rounds in a row: none is made once the loop has stopped or the service no longer runs.
  unfoldable pub watch_rounds : Bool → List (Round A) → Loop → Loop × List A
  unfolding watch_round
  watch_rounds should_run [] s = (s, [])
  watch_rounds should_run (r ∷ rs) s =
      let (s', out) = watch_round r s in
      let (s'', rest) = watch_rounds should_run rs s' in
      if should_run && not s.stopped then (s'', out ++ rest) else (s, [])

-- The arguments of a call: `since` stands at index 1. A shorter array is extended.
pub data Param : Type 0 where
  undefined : Param
  number : ℕ → Param
  text : Text → Param
  options : Text → Param

unfoldable pub set_since : List Param → ℕ → List Param
set_since [] since = undefined ∷ number since ∷ []
set_since (p ∷ []) since = p ∷ number since ∷ []
set_since (p ∷ q ∷ ps) since = p ∷ number since ∷ ps

-- `params` and `paramsUpdated` are one array, so the write at index 1 reaches every action's call.
unfoldable pub poll_arguments : Text → List Param → Loop → List Param
poll_arguments action params s =
    let params_updated = set_since params s.last_timestamp in
    if text_eq action (codes "fetchOrders") then params_updated else params_updated

abbrev pub last_timestamp_of : List ℕ → Option ℕ
last_timestamp_of [] = none
last_timestamp_of (t ∷ []) = some t
last_timestamp_of (t ∷ u ∷ ts) = last_timestamp_of (u ∷ ts)

-- `A` is an order here, with its timestamp: `result[result.length - 1].timestamp + 1`.
module _ {A : Type 0} (timestamp : A → ℕ) where
  abbrev pub next_timestamp : List A → ℕ → ℕ
  next_timestamp result last =
      or_default
        (elim (last_timestamp_of (map timestamp result)) [ none ↦ none | some t ↦ some (t + 1) ])
        last

  -- One turn of the other loop, after its delay. An empty result is sent on too; where there is no
  -- result, reading it throws.
  unfoldable pub poll_round : Text → Round (List A) → Loop → Loop × List (List A)
  unfolding on_error
  poll_round action (received result) s = (
    record s {
      last_timestamp =
          if text_eq action (codes "fetchOrders")
          then next_timestamp result s.last_timestamp
          else s.last_timestamp;
    },
    result ∷ [],
  )
  poll_round action (nothing now) s = (on_error now s, [])
  poll_round action (failed now) s = (on_error now s, [])
