-- ===== src/MagicBox/Adapter.antt =====
-- StreamAdapter (packages/magicbox/src/services/datastream-service.ts): what a plugin reads from the
-- cache, newest version first. `V` is the data under the keys that a method asks for; the cache is
-- that of the service itself, so a plugin sees every version as soon as it is pushed.
pub mod Laws
pub mod Tests
use faculty_auxie_mm.Keys.{build_key}
use faculty_auxie_mm.Prelude.Dict.{Dict, lookup}
use faculty_auxie_mm.Prelude.Text.{Text, codes, text_Eq}
use faculty_auxie_mm.Prelude.{
  ◌∷◌, if◌then◌else◌, ◌==◌, ◌+◌, none, some, false, [], List, Option, Bool, ℕ, take, head?,
  or_default, ltb, not,
}

-- MagicBoxSubscription
pub record Subscription : Type 0 where
  pub exchange_id : Text
  pub symbol : Option Text
  pub data_point : Text
  pub is_public : Bool

abbrev pub public_tenant : Text
public_tenant = codes "FGPUBLIC"

-- `take ? values.slice(0, take) : values`, where 0 is falsy
abbrev pub sliced {ℓ} : {A : Type ℓ} → Option ℕ → List A → List A
sliced none values = values
sliced (some n) values = if n == 0 then values else take n values

module _ {V : Type 0} (data' : Dict Text (List V)) (tenant : Text) where
  -- getLast
  unfoldable pub get_last : Text → Text → Option Text → Text → Option V
  get_last exchange_id tenant_id symbol data_point =
      head? (or_default (lookup (build_key exchange_id tenant_id symbol data_point false) data') [])

  -- getOrderBooks; a getter answers nothing and an empty list alike here
  unfoldable pub get_order_books : Text → Text → Bool → Option ℕ → List V
  get_order_books exchange_id symbol is_public count = sliced count (
      or_default
        (lookup (build_key exchange_id tenant (some symbol) (codes "watchOrderBook") is_public)
          data')
        [])

  -- getOrderBook
  unfoldable pub get_order_book : Text → Text → Bool → Option V
  unfolding get_order_books
  get_order_book exchange_id symbol is_public =
      head? (get_order_books exchange_id symbol is_public (some 1))

  -- getOHLVC
  unfoldable pub get_ohlcv : Text → Text → Option ℕ → List V
  get_ohlcv exchange_id symbol count = sliced count (
      or_default
        (lookup (build_key exchange_id tenant (some symbol) (codes "watchOHLCV") false) data') [])

  -- getBalanceList
  unfoldable pub get_balance_list : Text → Option (List V)
  get_balance_list exchange_id =
      lookup (build_key exchange_id tenant none (codes "watchBalance") false) data'

  -- getCurrentBalance
  unfoldable pub get_current_balance : Text → Option V
  unfolding get_balance_list
  get_current_balance exchange_id = head? (or_default (get_balance_list exchange_id) [])

-- getOrders: the newest version is itself the list of orders
unfoldable pub get_orders :
    {V : Type 0} → Dict Text (List (List V)) → Text → Text → Text → Option ℕ → List V
get_orders data' tenant exchange_id symbol count = sliced count (
    or_default
      (head? (
        or_default
          (lookup (build_key exchange_id tenant (some symbol) (codes "watchOrders") false) data')
          []))
      [])

-- Math.max and Math.min of times
abbrev pub maximum : ℕ → List ℕ → ℕ
maximum x [] = x
maximum x (y ∷ ys) = let m = maximum y ys in if ltb x m then m else x

abbrev pub minimum : ℕ → List ℕ → ℕ
minimum x [] = x
minimum x (y ∷ ys) = let m = minimum y ys in if ltb m x then m else x

-- The tests of areGatheredItemsWithinTheshold: with no times the distance is infinite.
unfoldable pub are_within : List ℕ → ℕ → Bool
are_within [] time_threshold = false
are_within (t ∷ ts) time_threshold = not (ltb (minimum t ts + time_threshold) (maximum t ts))

module _ {V : Type 0} (data' : Dict Text (List V)) (tenant : Text) (timestamp : V → ℕ) where
  unfoldable pub timestamps_of : List Subscription → List ℕ
  unfolding get_last
  timestamps_of [] = []
  timestamps_of (s ∷ ss) =
      let tenant_id = if s.is_public then public_tenant else tenant in
      let rest = timestamps_of ss in
      elim (get_last data' tenant s.exchange_id tenant_id s.symbol s.data_point) [
        | none ↦ rest
        | some v ↦ timestamp v ∷ rest
      ]

  -- areGatheredItemsWithinTheshold, of data that have a timestamp
  unfoldable pub are_gathered_items_within_threshold : List Subscription → ℕ → Bool
  unfolding timestamps_of are_within
  are_gathered_items_within_threshold subscriptions time_threshold =
      are_within (timestamps_of subscriptions) time_threshold
