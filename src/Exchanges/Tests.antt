-- ===== src/Exchanges/Tests.antt =====
-- Two tenants, an exchange with a secret, and settings that change.
use faculty_auxie_mm.Exchanges.Laws.{initialize_exchanges-get_exchange, made}
use faculty_auxie_mm.Exchanges.{
  Exchange, ExchangeClass, TenantExchanges, dict_key, get_exchange, initialize_exchanges,
  new_exchange, secret, text, flag, sandbox,
}
use faculty_auxie_mm.Prelude.Text.{Text, codes, text_eq}
use faculty_auxie_mm.Prelude.{
  ◌≡◌, ◌∷◌, [], none, some, true, false, Option, refl, if◌then◌else◌, or_option, ◌++◌,
}

abbrev pub plain : ExchangeClass
plain = record { has_sandbox_mode = true; has_test_url = true }

abbrev pub known : Text → Option ExchangeClass
known name = if text_eq name (codes "binance") then some plain else none

abbrev backwards : Text → Text
backwards [] = []
backwards (c ∷ cs) = backwards cs ++ c ∷ []

abbrev pub reversed : Text → Option Text
reversed t = some (backwards t)

abbrev pub settings : TenantExchanges
settings =
    (
      codes "A",
      (
        codes "binance@spot",
        (codes "apiKey", secret (codes "cba")) ∷ (codes "test", flag true) ∷ [],
      )
          ∷ [],
    )
    ∷ (codes "B", (codes "ftx", []) ∷ [])
    ∷ []

abbrev other_settings : TenantExchanges
other_settings =
    (codes "A", (codes "binance@spot", (codes "apiKey", secret (codes "zyx")) ∷ []) ∷ []) ∷ []

abbrev pub of_A : Exchange
of_A = record {
  tenant = codes "A";
  full_name = codes "binance@spot";
  props =
      (codes "apiKey", text (codes "abc"))
      ∷ (codes "test", flag true)
      ∷ (codes "enableRateLimit", flag true)
      ∷ (codes "newUpdates", flag true)
      ∷ [];
  mode = sandbox;
}

made_for_A :
    new_exchange known plain reversed
      (codes "binance@spot")
      (codes "A")
      ((codes "apiKey", secret (codes "cba")) ∷ (codes "test", flag true) ∷ [])
    ≡ some (of_A, true)
unfolding new_exchange
made_for_A = refl

-- A key that has changed is not used.
kept_for_A :
    get_exchange
      (codes "binance@spot")
      (codes "A")
      (initialize_exchanges known plain reversed other_settings
        (initialize_exchanges known plain reversed settings []).0).0
    ≡ some of_A
unfolding initialize_exchanges get_exchange
kept_for_A = refl

initialize_exchanges-get_exchange_example :
    let after = initialize_exchanges known plain reversed settings [] in
    (after.1 ≡ true)
    × (get_exchange (codes "ftx") (codes "B") after.0
        ≡ or_option
            (get_exchange (codes "ftx") (codes "B") [])
            (made known plain reversed settings (dict_key (codes "B") (codes "ftx"))))
unfolding new_exchange
initialize_exchanges-get_exchange_example =
    initialize_exchanges-get_exchange known plain reversed settings []
      (((of_A, refl), tt), (((_, refl), tt), tt)) (codes "ftx") (codes "B")

-- Without a url for tests the set-up is thrown out of, with the exchange stored.
no_test_url :
    (initialize_exchanges
      (λ name. some (record { has_sandbox_mode = true; has_test_url = false }))
      plain
      reversed
      settings
      []).1
    ≡ false
unfolding initialize_exchanges
no_test_url = refl
