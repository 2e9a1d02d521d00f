-- ===== src/Exchanges/Laws.antt =====
-- Which exchanges a service has (packages/utils/src/services/exchange-service.ts).
use faculty_auxie_mm.Exchanges.{
  Exchange, ExchangeClass, ExchangeConfig, TenantExchanges, dict_key, get_exchange,
  get_exchange_private, initialize_exchanges, initialize_tenant, new_exchange,
}
use faculty_auxie_mm.Prelude.Dict.{Dict, insert, lookup, lookup-insert}
use faculty_auxie_mm.Prelude.Text.{Text, text_eq, text_Eq, text_eq_iff}
use faculty_auxie_mm.Prelude.{
  ◌≡◌, ◌∷◌, [], none, some, true, Option, All, or_option, Bool, refl, if◌then◌else◌, Option-cases,
  inl, inr, Bool-cases, ◌∙◌, sym, ap,
}

or_none : {A : Type 0} (o : Option A) → or_option o none ≡ o
or_none none = refl
or_none (some a) = refl

-- A new entry does not hide another one.
keep_first :
    (k key : Text) (ex : Exchange) (d : Dict Text Exchange)
    → lookup k d ≡ none
    → (if text_eq k key then some ex else lookup key d)
      ≡ or_option (lookup key d) (if text_eq k key then some ex else none)
keep_first k key ex d absent = elim (Bool-cases (text_eq k key)) [
  | inl same ↦
      let there : lookup key d ≡ none =
        ap (λ j. lookup j d) (sym ((text_eq_iff k key).0 same)) ∙ absent in
      rw (same, there) refl
  | inr other ↦ rw (other) (sym (or_none (lookup key d)))
]

keep_old :
    (k key : Text) (ex old : Exchange) (d : Dict Text Exchange)
    → lookup k d ≡ some old
    → or_option (lookup key d) (if text_eq k key then some ex else none) ≡ lookup key d
keep_old k key ex old d found = elim (Bool-cases (text_eq k key)) [
  | inl same ↦
      let there : lookup key d ≡ some old =
        ap (λ j. lookup j d) (sym ((text_eq_iff k key).0 same)) ∙ found in
      rw (same, there) refl
  | inr other ↦ rw (other) (or_none (lookup key d))
]

or_option_assoc :
    {A : Type 0} (a b c : Option A) → or_option (or_option a b) c ≡ or_option a (or_option b c)
or_option_assoc none b c = refl
or_option_assoc (some a) b c = refl

first_made :
    (k key : Text) (ex : Exchange) (o rest : Option Exchange)
    → o ≡ some ex
    → or_option (if text_eq k key then some ex else none) rest ≡ (if text_eq k key then o else rest)
first_made k key ex o rest is = elim (Bool-cases (text_eq k key)) [
  | inl same ↦ rw (same, is) refl
  | inr other ↦ rw (other) refl
]

module _ (classes : Text → Option ExchangeClass) (ftx : ExchangeClass)
    (decrypt : Text → Option Text) where
  -- Each exchange of some settings can be made, this is what it is made to be, and nothing is thrown
  -- then: it has a class, its secrets can be decrypted, and a class with setSandboxMode has a url for
  -- tests if the settings ask for them.
  abbrev pub AllMade : Text → Dict Text ExchangeConfig → Type 0
  AllMade tenant_key configs =
      All
        (λ e.
          (ex : Exchange) × (new_exchange classes ftx decrypt e.0 tenant_key e.1 ≡ some (ex, true)))
        configs

  abbrev pub made_exchange : Option (Exchange × Bool) → Option Exchange
  made_exchange none = none
  made_exchange (some (ex, goes_on)) = some ex

  unfoldable pub made_of_tenant : Text → Dict Text ExchangeConfig → Text → Option Exchange
  made_of_tenant tenant_key [] key = none
  made_of_tenant tenant_key ((exchange_key, config) ∷ configs) key =
      let rest = made_of_tenant tenant_key configs key in
      if text_eq (dict_key tenant_key exchange_key) key
      then made_exchange (new_exchange classes ftx decrypt exchange_key tenant_key config)
      else rest

  -- what the settings make under a key: the first exchange that has it
  unfoldable pub made : TenantExchanges → Text → Option Exchange
  made [] key = none
  made ((tenant_key, configs) ∷ tenants) key =
      or_option (made_of_tenant tenant_key configs key) (made tenants key)

  lookup-get_exchange_private :
      (exchange_key tenant_key : Text) (config : ExchangeConfig) (d : Dict Text Exchange)
      (ex : Exchange) (key : Text)
      → new_exchange classes ftx decrypt exchange_key tenant_key config ≡ some (ex, true)
      → ((get_exchange_private classes ftx decrypt exchange_key tenant_key config d).1 ≡ true)
        × (lookup key (get_exchange_private classes ftx decrypt exchange_key tenant_key config d).0
            ≡ or_option
                (lookup key d)
                (if text_eq (dict_key tenant_key exchange_key) key then some ex else none))
  unfolding get_exchange_private
  lookup-get_exchange_private exchange_key tenant_key config d ex key is =
      elim (Option-cases (lookup (dict_key tenant_key exchange_key) d)) [
        | inl absent ↦
            let new : lookup key (insert (dict_key tenant_key exchange_key) ex d)
                ≡ or_option (lookup key d)
                    (if text_eq (dict_key tenant_key exchange_key) key then some ex else none) =
              lookup-insert (dict_key tenant_key exchange_key) key ex d
              ∙ keep_first (dict_key tenant_key exchange_key) key ex d absent in
            simp (absent, is) (refl, new)
        | inr found ↦
            simp (found.1)
              (refl, sym (keep_old (dict_key tenant_key exchange_key) key ex found.0 d found.1))
      ]

  initialize_tenant-lookup :
      (tenant_key : Text) (configs : Dict Text ExchangeConfig) (d : Dict Text Exchange) (key : Text)
      → AllMade tenant_key configs
      → ((initialize_tenant classes ftx decrypt tenant_key configs d).1 ≡ true)
        × (lookup key (initialize_tenant classes ftx decrypt tenant_key configs d).0
            ≡ or_option (lookup key d) (made_of_tenant tenant_key configs key))
  unfolding initialize_tenant made_of_tenant
  initialize_tenant-lookup tenant_key [] d key h = (refl, sym (or_none (lookup key d)))
  initialize_tenant-lookup tenant_key ((exchange_key, config) ∷ configs) d key h =
      let d' = (get_exchange_private classes ftx decrypt exchange_key tenant_key config d).0 in
      let one = lookup-get_exchange_private exchange_key tenant_key config d h.0.0 key h.0.1 in
      let rest = initialize_tenant-lookup tenant_key configs d' key h.1 in
      rw (one.0) (
        rest.0,
        rest.1
            ∙ ap (λ o. or_option o (made_of_tenant tenant_key configs key)) one.1
            ∙ or_option_assoc (lookup key d) _ (made_of_tenant tenant_key configs key)
            ∙ ap (or_option (lookup key d)) (
                first_made (dict_key tenant_key exchange_key) key h.0.0 _ _
                  (ap made_exchange h.0.1)),
      )

  -- What several tenants' settings ask for
  abbrev pub AllTenantsMade : TenantExchanges → Type 0
  AllTenantsMade tenants = All (λ t. AllMade t.0 t.1) tenants

  -- If each exchange of the settings can be made (its class exists, its secrets can be decrypted, and
  -- setSandboxMode, where it is called, has a url for tests), nothing is thrown, and behind the dictionary
  -- key of a tenant's exchange there is what was there before, or else the first exchange that the
  -- settings make under this key; an exchange that neither has is an error.
  pub initialize_exchanges-get_exchange :
      (tenants : TenantExchanges) (d : Dict Text Exchange)
      → AllTenantsMade tenants
      → (exchange_key tenant_key : Text)
      → let after = initialize_exchanges classes ftx decrypt tenants d in
        (after.1 ≡ true)
        × (get_exchange exchange_key tenant_key after.0
            ≡ or_option
                (get_exchange exchange_key tenant_key d)
                (made tenants (dict_key tenant_key exchange_key)))
  unfolding initialize_exchanges made get_exchange
  initialize_exchanges-get_exchange [] d h exchange_key tenant_key =
      (refl, sym (or_none (lookup (dict_key tenant_key exchange_key) d)))
  initialize_exchanges-get_exchange ((tenant, configs) ∷ tenants) d h exchange_key tenant_key =
      let key = dict_key tenant_key exchange_key in
      let d' = (initialize_tenant classes ftx decrypt tenant configs d).0 in
      let one = initialize_tenant-lookup tenant configs d key h.0 in
      let rest = initialize_exchanges-get_exchange tenants d' h.1 exchange_key tenant_key in
      rw (one.0) (
        rest.0,
        rest.1
            ∙ ap (λ o. or_option o (made tenants key)) one.1
            ∙ or_option_assoc (lookup key d) (made_of_tenant tenant configs key) (made tenants key),
      )
