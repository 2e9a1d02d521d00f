-- ===== src/Web/BalanceTable.antt =====
-- The table of the balances at an exchange (packages/web/src/components/trade/BalanceTable.js), which
-- reads the newest entry of the gatherer's stream. Of the snapshot it keeps the entries that it reads
-- again; a balance is its free amount, with the time at which the table saw it change.
pub mod Laws
pub mod Tests
use faculty_auxie_mm.Prelude.Dict.{Dict, lookup}
use faculty_auxie_mm.Prelude.Text.{Text, codes, text_eq, text_Eq}
use faculty_auxie_mm.Prelude.{
  ◌∷◌, ◌==◌, [], none, some, true, false, List, Option, Bool, ℕ, if◌then◌else◌, any,
}

pub record ShownBalance : Type 0 where
  pub free : Option ℕ
  pub last_updated : ℕ

pub record BalanceTable : Type 0 where
  pub balances : Dict Text ShownBalance
  pub balance_snapshot : Option (Dict Text ShownBalance)

-- The keys that are no currencies; an empty one is none either.
abbrev pub other_keys : List Text
other_keys =
    codes ""
    ∷ codes "free"
    ∷ codes "used"
    ∷ codes "total"
    ∷ codes "timestamp"
    ∷ codes "datetime"
    ∷ []

abbrev pub is_currency : Text → Bool
is_currency key = if any (text_eq key) other_keys then false else true

abbrev pub same_free : Option ℕ → Option ℕ → Bool
same_free none none = true
same_free none (some n) = false
same_free (some m) none = false
same_free (some m) (some n) = m == n

-- `lastUpdated`, from what the snapshot has of the currency
abbrev pub updated_at : ℕ → Option ShownBalance → Option ℕ → ℕ
updated_at now none free = now
updated_at now (some before) free = if same_free before.free free then before.last_updated else now

abbrev pub in_snapshot : Text → Option (Dict Text ShownBalance) → Option ShownBalance
in_snapshot currency none = none
in_snapshot currency (some snapshot) = lookup currency snapshot

-- The loop over the balances
unfoldable pub shown_balances :
    ℕ → Option (Dict Text ShownBalance) → Dict Text (Option ℕ) → Dict Text ShownBalance
shown_balances now snapshot [] = []
shown_balances now snapshot ((currency, free) ∷ balances) =
    let rest = shown_balances now snapshot balances in
    if is_currency currency
    then (
      currency,
      record { free = free; last_updated = updated_at now (in_snapshot currency snapshot) free },
    )
      ∷ rest
    else rest

-- updateBalance, with the newest balances of the stream, if there are any
unfoldable pub update_balance :
    (has_exchange mounted : Bool) → ℕ → Option (Dict Text (Option ℕ)) → BalanceTable → BalanceTable
unfolding shown_balances
update_balance has_exchange false now balances t = t
update_balance false true now balances t = record t { balances = [] }
update_balance true true now none t = record t { balances = [] }
update_balance true true now (some balances) t =
    let shown = shown_balances now t.balance_snapshot balances in
    record { balances = shown; balance_snapshot = some shown }
