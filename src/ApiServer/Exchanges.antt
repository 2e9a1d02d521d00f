-- ===== src/ApiServer/Exchanges.antt =====
-- ExchangeRouter (packages/apiserver/src/routes/exchanges.ts).
pub mod Laws
pub mod Tests
use faculty_auxie_mm.Prelude.Dict.{lookup, insert, erase}
use faculty_auxie_mm.ApiServer.Config.{
  ExchangeCfg, TenantExchangeKeys, Settings, ExchangeKeys, Configuration, Response, sent,
  tenant_not_found, thrown, could_not_save, already_exists, not_found,
}
use faculty_auxie_mm.Prelude.Text.{Text, text_Eq}
use faculty_auxie_mm.Prelude.{
  ◌∷◌, ◌++◌, if◌then◌else◌, none, some, true, false, [], List, Option, Bool, or_default, is_some,
}

-- ExchangeConfigDto
pub record ExchangeConfigDto : Type 0 where
  pub tenant : Text
  pub exchange : Text
  pub api_key : Text
  pub test : Bool
  pub password : Option Text
  pub api_secret : Option Text

abbrev pub cfg_of : ExchangeConfigDto → ExchangeCfg
cfg_of dto = record {
  api_key = dto.api_key;
  api_secret = dto.api_secret;
  test = dto.test;
  password = dto.password;
}

-- the rows of one tenant, as listExchanges shows them
abbrev pub list_tenant : Text → ExchangeKeys → List ExchangeConfigDto
list_tenant tenant [] = []
list_tenant tenant ((exchange, cfg) ∷ es) =
    record {
      tenant = tenant;
      exchange = exchange;
      api_key = cfg.api_key;
      test = cfg.test;
      password = none;
      api_secret = none;
    }
    ∷ list_tenant tenant es

abbrev pub list_all : TenantExchangeKeys → List ExchangeConfigDto
list_all [] = []
list_all ((tenant, es) ∷ ts) = list_tenant tenant es ++ list_all ts

abbrev pub knows : Text → Option ExchangeKeys → Bool
knows exchange none = false
knows exchange (some keys) = is_some (lookup exchange keys)

module _ (settings : Settings) where
  -- listExchanges; the loop over undefined exchanges makes no round
  unfoldable pub list_exchanges : settings.State → List ExchangeConfigDto
  list_exchanges s = list_all (or_default (settings.gatherer s).exchanges [])

  -- the second SET of saveExchangesConfig: what is written is the gatherer's configuration
  abbrev pub save_executor : Configuration → settings.State × Bool → settings.State × Bool
  save_executor config (s, true) = settings.set_executor config s
  save_executor config (s, false) = (s, false)

  -- saveExchangesConfig
  unfoldable pub save_exchanges_config : Configuration → settings.State → settings.State × Bool
  save_exchanges_config config s = save_executor config (settings.set_gatherer config s)

  abbrev pub answered : settings.State × Bool → settings.State × Response
  answered (s, true) = (s, sent)
  answered (s, false) = (s, could_not_save)

  abbrev pub with_exchanges : settings.State → TenantExchangeKeys → Configuration
  with_exchanges s es = record (settings.gatherer s) { exchanges = some es }

  unfoldable pub add_exchange : ExchangeConfigDto → settings.State → settings.State × Response
  unfolding save_exchanges_config
  add_exchange dto s =
      let exchanges = or_default (settings.gatherer s).exchanges [] in
      let tenant_keys = or_default (lookup dto.tenant exchanges) [] in
      if is_some (lookup dto.exchange tenant_keys)
      then (s, already_exists)
      else answered (
          save_exchanges_config
            (with_exchanges s
              (insert dto.tenant (insert dto.exchange (cfg_of dto) tenant_keys) exchanges))
            s)

  -- editExchange and deleteExchange look the exchange up alike, and differ in the keys that they save
  abbrev pub change_known :
      (ExchangeKeys → ExchangeKeys)
      → Text
      → TenantExchangeKeys
      → Option ExchangeKeys
      → Bool
      → settings.State
      → settings.State × Response
  change_known change tenant exchanges none known s = (s, tenant_not_found)
  change_known change tenant exchanges (some keys) false s = (s, not_found)
  change_known change tenant exchanges (some keys) true s =
      answered (save_exchanges_config (with_exchanges s (insert tenant (change keys) exchanges)) s)

  abbrev pub change_exchange :
      (ExchangeKeys → ExchangeKeys)
      → Text
      → Text
      → Option TenantExchangeKeys
      → settings.State
      → settings.State × Response
  change_exchange change tenant exchange none s = (s, thrown)
  change_exchange change tenant exchange (some exchanges) s =
      let keys = lookup tenant exchanges in
      change_known change tenant exchanges keys (knows exchange keys) s

  unfoldable pub edit_exchange :
      Text → Text → ExchangeConfigDto → settings.State → settings.State × Response
  unfolding save_exchanges_config
  edit_exchange tenant exchange dto s =
      change_exchange (insert exchange (cfg_of dto)) tenant exchange (settings.gatherer s).exchanges
        s

  unfoldable pub delete_exchange : Text → Text → settings.State → settings.State × Response
  unfolding save_exchanges_config
  delete_exchange tenant exchange s =
      change_exchange (erase exchange) tenant exchange (settings.gatherer s).exchanges s
