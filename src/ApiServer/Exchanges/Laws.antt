-- ===== src/ApiServer/Exchanges/Laws.antt =====
-- What a successful request does to the keys of each tenant and exchange.
use faculty_auxie_mm.Prelude.Dict.{lookup, insert, lookup-insert, erase, lookup-erase}
use faculty_auxie_mm.ApiServer.Exchanges.{
  save_exchanges_config, answered, lookup, or_default, save_executor, ExchangeConfigDto, insert,
  with_exchanges, cfg_of, is_some, false, knows, true, Bool, change_exchange, edit_exchange,
  change_known, delete_exchange, erase,
}
use faculty_auxie_mm.ApiServer.Config.{
  Settings, ExchangeKeys, Configuration, ExchangeCfg, sent, TenantExchangeKeys,
}
use faculty_auxie_mm.Prelude.Text.{Text, text_Eq, text_eq, text_eq_iff}
use faculty_auxie_mm.Prelude.{
  ◌≡◌, none, some, [], inl, inr, Option, Bool-cases, or_default, ◌∙◌, if◌then◌else◌, ◌&&◌, refl,
  sym, is_some, ap, true, false, Bool,
}

-- the keys of one exchange of one tenant
abbrev pub at_tenant : Text → Option ExchangeKeys → Option ExchangeCfg
at_tenant exchange none = none
at_tenant exchange (some keys) = lookup exchange keys

abbrev pub exchange_at : Text → Text → Configuration → Option ExchangeCfg
exchange_at tenant exchange c = at_tenant exchange (lookup tenant (or_default c.exchanges []))

knows_at : (e : Text) (o : Option ExchangeKeys) → is_some (at_tenant e o) ≡ knows e o
knows_at e none = refl
knows_at e (some keys) = refl

module _ (settings : Settings) where
  answered_lem :
      (r : settings.State × Bool)
      → (answered settings r).1 ≡ sent
      → (r.1 ≡ true) × ((answered settings r).0 ≡ r.0)
  answered_lem (s, true) h = (refl, refl)
  answered_lem (s, false) h = absurd (cc h)

  save_executor_lem :
      (c : Configuration) (r : settings.State × Bool)
      → (save_executor settings c r).1 ≡ true
      → (r.1 ≡ true) × (save_executor settings c r ≡ settings.set_executor c r.0)
  save_executor_lem c (s, true) h = (refl, refl)
  save_executor_lem c (s, false) h = absurd (cc h)

  -- Both configurations hold what was saved.
  answered_sent :
      (c : Configuration) (s : settings.State)
      → (answered settings (save_exchanges_config settings c s)).1 ≡ sent
      → let s' = (answered settings (save_exchanges_config settings c s)).0 in
        (settings.gatherer s' ≡ c) × (settings.executor s' ≡ c)
  unfolding save_exchanges_config
  answered_sent c s h =
      let first = settings.set_gatherer c s in
      let ended = answered_lem (save_exchanges_config settings c s) h in
      let both = save_executor_lem c first ended.0 in
      let taken : (settings.set_executor c first.0).1 ≡ true =
        ap (λ r. r.1) (sym both.1) ∙ ended.0 in
      let reached : (answered settings (save_exchanges_config settings c s)).0
          ≡ (settings.set_executor c first.0).0 =
        ended.1 ∙ ap (λ r. r.0) both.1 in
      let written = settings.executor_written c first.0 taken in
      (
        ap settings.gatherer reached ∙ written.1 ∙ (settings.gatherer_written c s both.0).0,
        ap settings.executor reached ∙ written.0,
      )

  -- A request that is answered with success wrote one configuration to both keys.
  abbrev pub Changes : settings.State → settings.State → Text → Text → Option ExchangeCfg → Type 0
  Changes s s' t e cfg =
      (settings.executor s' ≡ settings.gatherer s')
      × ((u f : Text)
          → exchange_at u f (settings.gatherer s')
            ≡ (if text_eq t u && text_eq e f then cfg else exchange_at u f (settings.gatherer s)))

  at_changed :
      (t e u f : Text) (keys : ExchangeKeys) (exchanges : TenantExchangeKeys)
      (cfg : Option ExchangeCfg)
      → ((j : Text)
          → lookup j keys ≡ (if text_eq e j then cfg else at_tenant j (lookup t exchanges)))
      → at_tenant f (lookup u (insert t keys exchanges))
        ≡ (if text_eq t u && text_eq e f then cfg else at_tenant f (lookup u exchanges))
  at_changed t e u f keys exchanges cfg h =
      rw (lookup-insert t u keys exchanges) (elim (Bool-cases (text_eq t u)) [
        | inl same ↦ rw same (h f ∙ rw ((text_eq_iff t u).0 same))
        | inr other ↦ rw other
      ])

  save_Changes :
      (t e : Text) (keys : ExchangeKeys) (cfg : Option ExchangeCfg) (exchanges : TenantExchangeKeys)
      (s : settings.State)
      → or_default (settings.gatherer s).exchanges [] ≡ exchanges
      → ((j : Text)
          → lookup j keys ≡ (if text_eq e j then cfg else at_tenant j (lookup t exchanges)))
      → let c = with_exchanges settings s (insert t keys exchanges) in
        let after = answered settings (save_exchanges_config settings c s) in
        after.1 ≡ sent → Changes s after.0 t e cfg
  save_Changes t e keys cfg exchanges s stored h sent_ok =
      let c = with_exchanges settings s (insert t keys exchanges) in
      let both = answered_sent c s sent_ok in
      (
        both.1 ∙ sym both.0,
        λ u f.
            ap (exchange_at u f) both.0
            ∙ at_changed t e u f keys exchanges cfg h
            ∙ ap
                (λ (es : TenantExchangeKeys).
                  if text_eq t u && text_eq e f then cfg else at_tenant f (lookup u es))
                (sym stored),
      )

  change_known_sent :
      (change : ExchangeKeys → ExchangeKeys) (t e : Text) (cfg : Option ExchangeCfg)
      (exchanges : TenantExchangeKeys) (o : Option ExchangeKeys) (known : Bool) (s : settings.State)
      → ((j : Text) (keys : ExchangeKeys)
          → lookup j (change keys) ≡ (if text_eq e j then cfg else lookup j keys))
      → or_default (settings.gatherer s).exchanges [] ≡ exchanges
      → lookup t exchanges ≡ o
      → knows e o ≡ known
      → (change_known settings change t exchanges o known s).1 ≡ sent
      → (known ≡ true) × Changes s (change_known settings change t exchanges o known s).0 t e cfg
  change_known_sent change t e cfg exchanges none known s h stored found k sent_ok =
      absurd (cc sent_ok)
  change_known_sent change t e cfg exchanges (some keys) false s h stored found k sent_ok =
      absurd (cc sent_ok)
  change_known_sent change t e cfg exchanges (some keys) true s h stored found k sent_ok = (
    refl,
    save_Changes t e (change keys) cfg exchanges s stored
        (λ j.
          h j keys
          ∙ ap (λ (o : Option ExchangeKeys). if text_eq e j then cfg else at_tenant j o)
              (sym found))
        sent_ok,
  )

  change_exchange_sent :
      (change : ExchangeKeys → ExchangeKeys) (t e : Text) (cfg : Option ExchangeCfg)
      (o : Option TenantExchangeKeys) (s : settings.State)
      → ((j : Text) (keys : ExchangeKeys)
          → lookup j (change keys) ≡ (if text_eq e j then cfg else lookup j keys))
      → (settings.gatherer s).exchanges ≡ o
      → (change_exchange settings change t e o s).1 ≡ sent
      → (is_some (exchange_at t e (settings.gatherer s)) ≡ true)
        × Changes s (change_exchange settings change t e o s).0 t e cfg
  change_exchange_sent change t e cfg none s h stored sent_ok = absurd (cc sent_ok)
  change_exchange_sent change t e cfg (some exchanges) s h stored sent_ok =
      let keys = lookup t exchanges in
      let same : or_default (settings.gatherer s).exchanges [] ≡ exchanges =
        ap (λ o. or_default o []) stored in
      let both =
        change_known_sent change t e cfg exchanges keys (knows e keys) s h same refl refl sent_ok in
      (
        ap (λ (es : TenantExchangeKeys). is_some (at_tenant e (lookup t es))) same
            ∙ knows_at e keys
            ∙ both.0,
        both.1,
      )

  -- An exchange that is edited, and answered with success, was known. Its keys become those of the
  -- request and no other keys change; the executor's stored configuration becomes the gatherer's.
  pub edit_exchange_sent :
      (t e : Text) (dto : ExchangeConfigDto) (s : settings.State)
      → (edit_exchange settings t e dto s).1 ≡ sent
      → (is_some (exchange_at t e (settings.gatherer s)) ≡ true)
        × Changes s (edit_exchange settings t e dto s).0 t e (some (cfg_of dto))
  unfolding edit_exchange
  edit_exchange_sent t e dto s =
      change_exchange_sent (insert e (cfg_of dto)) t e (some (cfg_of dto))
        (settings.gatherer s).exchanges s (λ j keys. lookup-insert e j (cfg_of dto) keys) refl

  -- An exchange that is deleted, and answered with success, was known. Its keys are gone and no other
  -- keys change; the executor's stored configuration becomes the gatherer's.
  pub delete_exchange_sent :
      (t e : Text) (s : settings.State)
      → (delete_exchange settings t e s).1 ≡ sent
      → (is_some (exchange_at t e (settings.gatherer s)) ≡ true)
        × Changes s (delete_exchange settings t e s).0 t e none
  unfolding delete_exchange
  delete_exchange_sent t e s =
      change_exchange_sent (erase e) t e none (settings.gatherer s).exchanges s
        (λ j keys. lookup-erase e j keys) refl
