-- ===== src/Gatherer/Balances.antt =====
-- Balances in the gatherer: applyBalanceDeltaToSnapshot of packages/gatherer/src/services/
-- datastreamer-service.ts, and the two `watchBalance` subscribers of packages/gatherer/src/worker.ts.
-- They share `balanceClone`, which each sets only once its write is done; redis does the writes in
-- their order. `_.isEqual` is a parameter.
pub mod Laws
pub mod Delta
pub mod Tests
use faculty_auxie_mm.Prelude.Dict.{Dict, insert, keys, lookup}
use faculty_auxie_mm.Prelude.Text.{Text, text_Eq}
use faculty_auxie_mm.Prelude.{
  ◌∷◌, ◌++◌, [], none, some, true, false, List, Option, Bool, ℕ, if◌then◌else◌,
}

pub record TokenBalance : Type 0 where
  pub free : ℕ
  pub used : ℕ
  pub total : ℕ

-- ccxt.Balances: each token's balance under its own key, and once more under each kind
pub record Balances : Type 0 where
  pub tokens : Dict Text TokenBalance
  pub free : Dict Text ℕ
  pub used : Dict Text ℕ
  pub total : Dict Text ℕ

abbrev pub with_token : Text → TokenBalance → Balances → Balances
with_token token b result = record {
  tokens = insert token b result.tokens;
  free = insert token b.free result.free;
  used = insert token b.used result.used;
  total = insert token b.total result.total;
}

-- The loop; a token without a balance of its own throws.
unfoldable pub apply_tokens : List Text → Balances → Balances → Option Balances
apply_tokens [] deltas result = some result
apply_tokens (token ∷ tokens) deltas result = elim (lookup token deltas.tokens) [
  | none ↦ none
  | some b ↦ apply_tokens tokens deltas (with_token token b result)
]

unfoldable pub apply_balance_delta_to_snapshot : Balances → Balances → Option Balances
unfolding apply_tokens
apply_balance_delta_to_snapshot array deltas = apply_tokens (keys deltas.free) deltas array

-- `writing` are the balances of the writes that are under way, `written` those of all writes.
pub record BalanceFeed : Type 0 where
  pub balance_clone : Option Balances
  pub writing : List Balances
  pub written : List Balances

abbrev pub new_feed : BalanceFeed
new_feed = record { balance_clone = none; writing = []; written = [] }

pub data BalanceEvent : Type 0 where
  -- fetchBalance, watchBalance, and the end of the first write that is under way
  fetched watched : Balances → BalanceEvent
  write_done : BalanceEvent

abbrev pub same_as : (Balances → Balances → Bool) → Option Balances → Balances → Bool
same_as is_equal none balances = false
same_as is_equal (some clone) balances = is_equal clone balances

module _ (is_equal : Balances → Balances → Bool) where
  -- what both subscribers do with the balances that they have got
  unfoldable pub on_balances : Balances → BalanceFeed → BalanceFeed
  on_balances balances f =
      if same_as is_equal f.balance_clone balances
      then record f { balance_clone = some balances }
      else record f { writing = f.writing ++ balances ∷ []; written = f.written ++ balances ∷ [] }

  -- Balances that are watched are changes of those that are there, which may throw.
  abbrev pub on_changes : Option Balances → BalanceFeed → BalanceFeed
  on_changes none f = f
  on_changes (some balances) f = on_balances balances f

  abbrev pub changed : Option Balances → Balances → Option Balances
  changed none data' = some data'
  changed (some clone) data' = apply_balance_delta_to_snapshot clone data'

  abbrev pub finish_write : List Balances → BalanceFeed → BalanceFeed
  finish_write [] f = f
  finish_write (b ∷ writing) f = record f { balance_clone = some b; writing = writing }

  unfoldable pub on_event : BalanceEvent → BalanceFeed → BalanceFeed
  unfolding on_balances apply_balance_delta_to_snapshot
  on_event (fetched data') f = on_balances data' f
  on_event (watched data') f = on_changes (changed f.balance_clone data') f
  on_event write_done f = finish_write f.writing f

  unfoldable pub on_events : List BalanceEvent → BalanceFeed → BalanceFeed
  unfolding on_event
  on_events [] f = f
  on_events (e ∷ es) f = on_events es (on_event e f)
