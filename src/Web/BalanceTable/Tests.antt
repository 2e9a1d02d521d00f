-- ===== src/Web/BalanceTable/Tests.antt =====
-- Three readings of the balances of an exchange, and one of another exchange.
use mathlib.Core.Option
use faculty_auxie_mm.Web.BalanceTable.{update_balance}
use faculty_auxie_mm.Web.BalanceTable.Laws.{table_after, since, Reading, balances-since}
use faculty_auxie_mm.Prelude.Dict.{Dict, lookup}
use faculty_auxie_mm.Prelude.Text.{Text, codes, text_Eq}
use faculty_auxie_mm.Prelude.{◌≡◌, ◌∷◌, [], none, some, true, List, Option, ℕ, refl}

abbrev btc : Text
btc = codes "BTC"

abbrev with_btc : ℕ → Dict Text (Option ℕ)
with_btc free = (codes "free", none) ∷ (btc, some free) ∷ []

abbrev readings : List Reading
readings = (20, some (with_btc 7)) ∷ (15, none) ∷ (10, some (with_btc 5)) ∷ []

shown_btc :
    (table_after ((30, some (with_btc 7)) ∷ readings)).balances
    ≡ (btc, record { free = some 7; last_updated = 20 }) ∷ []
unfolding table_after update_balance
shown_btc = refl

-- Another exchange with the same free amount is shown with the time of the first one's change.
kept_snapshot :
    (update_balance true true 40 (some (with_btc 7)) (table_after readings)).balances
    ≡ (btc, record { free = some 7; last_updated = 20 }) ∷ []
unfolding table_after update_balance
kept_snapshot = refl

balances-since_example :
    lookup btc (table_after ((30, some (with_btc 7)) ∷ readings)).balances
    ≡ Option.map
        (λ free. record { free = free; last_updated = since btc free 30 readings })
        (lookup btc (with_btc 7))
balances-since_example = balances-since readings 30 (with_btc 7) btc refl
