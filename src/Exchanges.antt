-- ===== src/Exchanges.antt =====
-- ExchangeService (packages/utils/src/services/exchange-service.ts): the exchanges of the tenants,
-- which the gatherer and the executor make from their settings. The classes of ccxt, the one of the
-- copy for FTX and EncryptionService are parameters. The properties of an exchange are written into
-- the settings that it is made from.
pub mod Laws
pub mod Tests
use faculty_auxie_mm.Prelude.Dict.{Dict, insert, lookup}
use faculty_auxie_mm.Prelude.Text.{Text, codes, text_eq, text_Eq}
use faculty_auxie_mm.Prelude.{
  ◌∷◌, ◌++◌, [], none, some, true, false, List, Option, Bool, ℕ, if◌then◌else◌, ◌==◌, is_some,
  or_option,
}

-- A value of an exchange's settings; a secret is an object with the field `decrypt`.
pub data Value : Type 0 where
  undefined : Value
  text secret : Text → Value
  flag : Bool → Value

abbrev pub ExchangeConfig : Type 0
ExchangeConfig = Dict Text Value

abbrev pub TenantExchanges : Type 0
TenantExchanges = Dict Text (Dict Text ExchangeConfig)

-- What an exchange is told to use.
pub data Mode : Type 0 where
  live sandbox test_url : Mode

pub record Exchange : Type 0 where
  pub tenant : Text
  pub full_name : Text
  pub props : ExchangeConfig
  pub mode : Mode

-- Does the class have setSandboxMode, and a url for tests?
pub record ExchangeClass : Type 0 where
  pub has_sandbox_mode : Bool
  pub has_test_url : Bool

abbrev pub is_truthy : Option Value → Bool
is_truthy none = false
is_truthy (some undefined) = false
is_truthy (some (text [])) = false
is_truthy (some (text (c ∷ cs))) = true
is_truthy (some (secret t)) = true
is_truthy (some (flag b)) = b

-- `exchangeKey.split('@')[0]`
unfoldable pub exchange_name : Text → Text
exchange_name [] = []
exchange_name (c ∷ cs) = let rest = exchange_name cs in if c == b'@' then [] else c ∷ rest

abbrev pub dict_key : Text → Text → Text
dict_key tenant_key exchange_key = tenant_key ++ b'.' ∷ exchange_key

-- The mode, and whether the code goes on: setSandboxMode throws where the class has no url for tests.
abbrev pub mode_of : ExchangeClass → Bool → Mode × Bool
mode_of c false = (live, true)
mode_of c true =
    if c.has_sandbox_mode
    then (if c.has_test_url then (sandbox, true) else (live, false))
    else if c.has_test_url
    then (test_url, true)
    else (live, true)

module _ (classes : Text → Option ExchangeClass) (ftx : ExchangeClass)
    (decrypt : Text → Option Text) where
  abbrev pub with_value : Text → Option Value → Option ExchangeConfig → Option ExchangeConfig
  with_value key none rest = none
  with_value key (some value) none = none
  with_value key (some value) (some config) = some ((key, value) ∷ config)

  abbrev pub decrypted : Option Text → Option Value
  decrypted none = none
  decrypted (some t) = some (text t)

  -- The loop of getExchangeProps over the settings, which ends where a secret cannot be decrypted
  unfoldable pub resolved : ExchangeConfig → Option ExchangeConfig
  resolved [] = some []
  resolved ((key, undefined) ∷ config) = resolved config
  resolved ((key, text t) ∷ config) = with_value key (some (text t)) (resolved config)
  resolved ((key, secret []) ∷ config) = with_value key (some (secret [])) (resolved config)
  resolved ((key, secret (c ∷ cs)) ∷ config) =
      with_value key (decrypted (decrypt (c ∷ cs))) (resolved config)
  resolved ((key, flag b) ∷ config) = with_value key (some (flag b)) (resolved config)

  unfoldable pub get_exchange_props : ExchangeConfig → Option ExchangeConfig
  unfolding resolved
  get_exchange_props config = resolved (
      insert (codes "newUpdates") (flag true) (insert (codes "enableRateLimit") (flag true) config))

  abbrev pub class_of : Text → Option ExchangeClass
  class_of exchange_key =
      let name = exchange_name exchange_key in
      if text_eq name (codes "ftx") then some ftx else classes name

  abbrev pub with_mode : Text → Text → ExchangeConfig → Mode × Bool → Exchange × Bool
  with_mode exchange_key tenant_key props (mode, goes_on) = (
    record { tenant = tenant_key; full_name = exchange_key; props = props; mode = mode },
    goes_on,
  )

  abbrev pub construct :
      Text → Text → Option ExchangeConfig → Option ExchangeClass → Option (Exchange × Bool)
  construct exchange_key tenant_key none class = none
  construct exchange_key tenant_key (some props) none = none
  construct exchange_key tenant_key (some props) (some c) = some (
      with_mode exchange_key tenant_key props (mode_of c (is_truthy (lookup (codes "test") props))))

  -- The new exchange, and whether the code goes on when it is stored. A class that there is not, and a
  -- secret that cannot be decrypted, throw before.
  unfoldable pub new_exchange : Text → Text → ExchangeConfig → Option (Exchange × Bool)
  unfolding get_exchange_props exchange_name
  new_exchange exchange_key tenant_key config =
      construct exchange_key tenant_key (get_exchange_props config) (class_of exchange_key)

  abbrev pub stored :
      Text → Option (Exchange × Bool) → Dict Text Exchange → Dict Text Exchange × Bool
  stored key none exchanges = (exchanges, false)
  stored key (some (ex, goes_on)) exchanges = (insert key ex exchanges, goes_on)

  -- getExchangePrivate: an exchange that is there is kept.
  unfoldable pub get_exchange_private :
      Text → Text → ExchangeConfig → Dict Text Exchange → Dict Text Exchange × Bool
  unfolding new_exchange
  get_exchange_private exchange_key tenant_key config exchanges =
      let key = dict_key tenant_key exchange_key in
      if is_some (lookup key exchanges)
      then (exchanges, true)
      else stored key (new_exchange exchange_key tenant_key config) exchanges

  -- The two loops of initializeExchanges, each with whether nothing was thrown.
  unfoldable pub initialize_tenant :
      Text → Dict Text ExchangeConfig → Dict Text Exchange → Dict Text Exchange × Bool
  unfolding get_exchange_private
  initialize_tenant tenant_key [] exchanges = (exchanges, true)
  initialize_tenant tenant_key ((exchange_key, config) ∷ configs) exchanges =
      let (exchanges', goes_on) = get_exchange_private exchange_key tenant_key config exchanges in
      let rest = initialize_tenant tenant_key configs exchanges' in
      if goes_on then rest else (exchanges', false)

  unfoldable pub initialize_exchanges :
      TenantExchanges → Dict Text Exchange → Dict Text Exchange × Bool
  unfolding initialize_tenant
  initialize_exchanges [] exchanges = (exchanges, true)
  initialize_exchanges ((tenant_key, configs) ∷ tenants) exchanges =
      let (exchanges', goes_on) = initialize_tenant tenant_key configs exchanges in
      let rest = initialize_exchanges tenants exchanges' in
      if goes_on then rest else (exchanges', false)

-- getExchange; one that is not there is an error.
unfoldable pub get_exchange : Text → Text → Dict Text Exchange → Option Exchange
get_exchange exchange_key tenant_key exchanges = lookup (dict_key tenant_key exchange_key) exchanges
