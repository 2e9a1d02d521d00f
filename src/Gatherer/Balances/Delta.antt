-- ===== src/Gatherer/Balances/Delta.antt =====
-- The balances that a change leaves (packages/gatherer/src/services/datastreamer-service.ts).
use mathlib.Core.Option
use faculty_auxie_mm.Gatherer.Balances.{
  Balances, TokenBalance, apply_tokens, apply_balance_delta_to_snapshot, with_token, Dict, insert,
}
use faculty_auxie_mm.Prelude.Dict.{lookup, keys, lookup-insert, Dict, insert}
use faculty_auxie_mm.Prelude.Text.{Text, text_Eq, text_eq, text_eq_iff}
use faculty_auxie_mm.Prelude.{
  ◌≡◌, ◌∷◌, [], some, true, false, List, Option, Bool, refl, if◌then◌else◌, All, any, ◌∙◌,
  Bool-cases, inl, inr, ap, sym,
}

-- Every token of a list has a balance of its own.
abbrev pub AllFound : Balances → List Text → Type 0
AllFound deltas tokens = All (λ t. (b : TokenBalance) × (lookup t deltas.tokens ≡ some b)) tokens

abbrev pub listed : Text → List Text → Bool
listed t tokens = any (λ k. text_eq k t) tokens

-- one kind of balance of a token, after the changes of some tokens
abbrev pub after :
    {A : Type 0} → (TokenBalance → A) → Text → List Text → Balances → Option A → Option A
after part t tokens deltas before =
    if listed t tokens then Option.map part (lookup t deltas.tokens) else before

pub record Applied (tokens : List Text) (deltas before result : Balances) : Type 0 where
  pub tokens_are :
      (t : Text) → lookup t result.tokens ≡ after (λ b. b) t tokens deltas (lookup t before.tokens)
  pub free_is :
      (t : Text) → lookup t result.free ≡ after (λ b. b.free) t tokens deltas (lookup t before.free)
  pub used_is :
      (t : Text) → lookup t result.used ≡ after (λ b. b.used) t tokens deltas (lookup t before.used)
  pub total_is :
      (t : Text)
      → lookup t result.total ≡ after (λ b. b.total) t tokens deltas (lookup t before.total)

if_same : {A : Type 0} (p : Bool) (a : A) → (if p then a else a) ≡ a
if_same true a = refl
if_same false a = refl

after_insert :
    {A : Type 0} (part : TokenBalance → A) (t token : Text) (tokens : List Text) (deltas : Balances)
    (b : TokenBalance) (d : Dict Text A)
    → lookup token deltas.tokens ≡ some b
    → after part t tokens deltas (lookup t (insert token (part b) d))
      ≡ after part t (token ∷ tokens) deltas (lookup t d)
after_insert part t token tokens deltas b d found =
    rw (lookup-insert token t (part b) d) (elim (Bool-cases (text_eq token t)) [
      | inl same ↦
          let mine : lookup t deltas.tokens ≡ some b =
            ap (λ k. lookup k deltas.tokens) (sym ((text_eq_iff token t).0 same)) ∙ found in
          rw (same, mine) (if_same (listed t tokens) (some (part b)))
      | inr differs ↦ rw (differs) refl
    ])

apply_tokens-Applied :
    (tokens : List Text) (deltas before : Balances)
    → AllFound deltas tokens
    → (result : Balances) × (apply_tokens tokens deltas before ≡ some result)
      × Applied tokens deltas before result
unfolding apply_tokens
apply_tokens-Applied [] deltas before h = (
  before,
  refl,
  record { tokens_are = λ t. refl; free_is = λ t. refl; used_is = λ t. refl; total_is = λ t. refl },
)
apply_tokens-Applied (token ∷ tokens) deltas before h =
    let b = h.0.0 in
    let rest = apply_tokens-Applied tokens deltas (with_token token b before) h.1 in
    (
      rest.0,
      rw (h.0.1, apply_tokens) rest.1,
      record {
        tokens_are = λ t.
            rest.2.tokens_are t ∙ after_insert (λ x. x) t token tokens deltas b before.tokens h.0.1;
        free_is = λ t.
            rest.2.free_is t ∙ after_insert (λ x. x.free) t token tokens deltas b before.free h.0.1;
        used_is = λ t.
            rest.2.used_is t ∙ after_insert (λ x. x.used) t token tokens deltas b before.used h.0.1;
        total_is = λ t.
            rest.2.total_is t
            ∙ after_insert (λ x. x.total) t token tokens deltas b before.total h.0.1;
      },
    )

-- If each token that has changed comes with its balance, then the change is applied: the balances of
-- these tokens, and their free, used and total amounts, are those of the change, and all others
-- those before it.
pub apply_balance_delta_to_snapshot-Applied :
    (before deltas : Balances)
    → AllFound deltas (keys deltas.free)
    → (result : Balances) × (apply_balance_delta_to_snapshot before deltas ≡ some result)
      × Applied (keys deltas.free) deltas before result
unfolding apply_balance_delta_to_snapshot
apply_balance_delta_to_snapshot-Applied before deltas h =
    apply_tokens-Applied (keys deltas.free) deltas before h
