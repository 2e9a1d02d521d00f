-- ===== src/Web/BalanceTable/Laws.antt =====
-- Since when a balance is what packages/web/src/components/trade/BalanceTable.js shows.
use mathlib.Core.Option
use faculty_auxie_mm.Web.BalanceTable.{
  ShownBalance, BalanceTable, is_currency, same_free, updated_at, in_snapshot, shown_balances,
  update_balance,
}
use faculty_auxie_mm.Prelude.Dict.{Dict, lookup}
use faculty_auxie_mm.Prelude.Text.{Text, text_eq, text_Eq, text_eq_iff}
use faculty_auxie_mm.Prelude.{
  ◌≡◌, ◌∷◌, [], none, some, true, false, List, Option, Bool, ℕ, if◌then◌else◌, refl, arith, ap, ◌∙◌,
  Bool-cases, inl, inr,
}

-- A time, and what the stream answers then.
abbrev pub Reading : Type 0
Reading = ℕ × Option (Dict Text (Option ℕ))

abbrev pub empty_table : BalanceTable
empty_table = record { balances = []; balance_snapshot = none }

-- The table of a shown exchange after some readings, the newest first, each done before the next.
unfoldable pub table_after : List Reading → BalanceTable
table_after [] = empty_table
table_after ((now, answer) ∷ older) = update_balance true true now answer (table_after older)

abbrev pub has_free : Option (Option ℕ) → Option ℕ → Bool
has_free none free = false
has_free (some before) free = same_free before free

-- How far back the answers give a currency the same free amount, looking from a time back; readings
-- without an answer are passed over.
abbrev pub since : Text → Option ℕ → ℕ → List Reading → ℕ
since currency free from [] = from
since currency free from ((now, none) ∷ older) = since currency free from older
since currency free from ((now, some balances) ∷ older) =
    let before = since currency free now older in
    if has_free (lookup currency balances) free then before else from

lookup-shown_balances :
    (now : ℕ) (snapshot : Option (Dict Text ShownBalance)) (balances : Dict Text (Option ℕ))
    (currency : Text)
    → is_currency currency ≡ true
    → lookup currency (shown_balances now snapshot balances)
      ≡ Option.map
          (λ free. record {
            free = free;
            last_updated = updated_at now (in_snapshot currency snapshot) free;
          })
          (lookup currency balances)
unfolding shown_balances
lookup-shown_balances now snapshot [] currency h = refl
lookup-shown_balances now snapshot ((c, free) ∷ balances) currency h =
    elim (Bool-cases (text_eq c currency)) [
      | inl same ↦
          let equal = (text_eq_iff c currency).0 same in
          let listed = ap (λ k. is_currency k) equal ∙ h in rw (listed, same, equal) refl
      | inr other ↦ elim (Bool-cases (is_currency c)) [
        | inl listed ↦ rw (listed, other) (lookup-shown_balances now snapshot balances currency h)
        | inr hidden ↦ rw (hidden, other) (lookup-shown_balances now snapshot balances currency h)
      ]
    ]

same_free_eq : (before free : Option ℕ) → same_free before free ≡ true → before ≡ free
same_free_eq none none same = refl
same_free_eq none (some n) same = ground (arith, same)
same_free_eq (some m) none same = ground (arith, same)
same_free_eq (some m) (some n) same = ground (arith, same)

updated_at-same :
    (now t : ℕ) (snapshot : Option ShownBalance) (past : Option ℕ → ℕ)
    → ((free : Option ℕ) → updated_at t snapshot free ≡ past free)
    → (found : Option (Option ℕ)) (free : Option ℕ)
    → updated_at now
        (Option.map
          (λ free. record { free = free; last_updated = updated_at t snapshot free })
          found)
        free
      ≡ (if has_free found free then past free else now)
updated_at-same now t snapshot past h none free = refl
updated_at-same now t snapshot past h (some before) free =
    elim (Bool-cases (same_free before free)) [
      | inl same ↦ rw (same, same_free_eq before free same) (h free)
      | inr other ↦ rw other refl
    ]

updated_at-since :
    (currency : Text)
    → is_currency currency ≡ true
    → (readings : List Reading) (free : Option ℕ) (now : ℕ)
    → updated_at now (in_snapshot currency (table_after readings).balance_snapshot) free
      ≡ since currency free now readings
unfolding table_after update_balance
updated_at-since currency h [] free now = refl
updated_at-since currency h ((t, none) ∷ older) free now =
    updated_at-since currency h older free now
updated_at-since currency h ((t, some balances) ∷ older) free now =
    rw (lookup-shown_balances t (table_after older).balance_snapshot balances currency h) (
      updated_at-same now t (in_snapshot currency (table_after older).balance_snapshot)
        (λ free. since currency free t older) (λ free. updated_at-since currency h older free t)
        (lookup currency balances) free)

-- When each reading is done before the next and the exchange stays the same, an answer with balances
-- makes the table show, of a key that is a currency: nothing if the answer lacks it; otherwise the
-- answer's free amount and the time of the oldest reading with balances from which on every answer with
-- balances had the currency with that free amount.
pub balances-since :
    (older : List Reading) (now : ℕ) (balances : Dict Text (Option ℕ)) (currency : Text)
    → is_currency currency ≡ true
    → lookup currency (table_after ((now, some balances) ∷ older)).balances
      ≡ Option.map
          (λ free. record { free = free; last_updated = since currency free now older })
          (lookup currency balances)
unfolding table_after update_balance
balances-since older now balances currency h =
    lookup-shown_balances now (table_after older).balance_snapshot balances currency h ∙ (λ i.
      Option.map
        (λ free. record {
          free = free;
          last_updated = updated_at-since currency h older free now i;
        })
        (lookup currency balances))
