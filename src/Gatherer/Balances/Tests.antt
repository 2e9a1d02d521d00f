-- ===== src/Gatherer/Balances/Tests.antt =====
-- Balances of two tokens that change, with overlapping writes.
use faculty_auxie_mm.Gatherer.Balances.Laws.{Tracks, on_events-Tracks}
use faculty_auxie_mm.Gatherer.Balances.{
  Balances, TokenBalance, apply_balance_delta_to_snapshot, List, on_events, BalanceEvent, new_feed,
  fetched, write_done, watched,
}
use faculty_auxie_mm.Gatherer.Balances.Delta.{Applied, apply_balance_delta_to_snapshot-Applied}
use faculty_auxie_mm.Prelude.Dict.{Dict}
use faculty_auxie_mm.Prelude.Text.{Text, codes, text_eq, text_eq_iff}
use faculty_auxie_mm.Prelude.{
  ◌≡◌, ◌∷◌, [], some, true, false, refl, ℕ, Bool, ◌&&◌, ◌↔◌, ◌==◌, List, arith, ==_iff,
}

abbrev amount : ℕ → TokenBalance
amount n = record { free = n; used = 0; total = n }

abbrev holdings : ℕ → ℕ → Balances
holdings btc usd = record {
  tokens = (codes "BTC", amount btc) ∷ (codes "USD", amount usd) ∷ [];
  free = (codes "BTC", btc) ∷ (codes "USD", usd) ∷ [];
  used = (codes "BTC", 0) ∷ (codes "USD", 0) ∷ [];
  total = (codes "BTC", btc) ∷ (codes "USD", usd) ∷ [];
}

abbrev btc_is : ℕ → Balances
btc_is n = record {
  tokens = (codes "BTC", amount n) ∷ [];
  free = (codes "BTC", n) ∷ [];
  used = (codes "BTC", 0) ∷ [];
  total = (codes "BTC", n) ∷ [];
}

abbrev usd_is : ℕ → Balances
usd_is n = record {
  tokens = (codes "USD", amount n) ∷ [];
  free = (codes "USD", n) ∷ [];
  used = (codes "USD", 0) ∷ [];
  total = (codes "USD", n) ∷ [];
}

btc_applied : apply_balance_delta_to_snapshot (holdings 1 5) (btc_is 2) ≡ some (holdings 2 5)
unfolding apply_balance_delta_to_snapshot
btc_applied = refl

apply_balance_delta_to_snapshot-Applied_example :
    (result : Balances) × (apply_balance_delta_to_snapshot (holdings 1 5) (btc_is 2) ≡ some result)
    × Applied (codes "BTC" ∷ []) (btc_is 2) (holdings 1 5) result
apply_balance_delta_to_snapshot-Applied_example =
    apply_balance_delta_to_snapshot-Applied (holdings 1 5) (btc_is 2) ((amount 2, refl), tt)

module _ {V : Type 0} (eq : V → V → Bool) (eq_iff : (v w : V) → (eq v w ≡ true) ↔ (v ≡ w)) where
  abbrev dict_eq : Dict Text V → Dict Text V → Bool
  dict_eq [] [] = true
  dict_eq [] (y ∷ e) = false
  dict_eq (x ∷ d) [] = false
  dict_eq (x ∷ d) (y ∷ e) = text_eq x.0 y.0 && (eq x.1 y.1 && dict_eq d e)

  dict_eq_iff : (d e : Dict Text V) → (dict_eq d e ≡ true) ↔ (d ≡ e)
  dict_eq_iff [] [] = ground arith
  dict_eq_iff [] (y ∷ e) = ground arith
  dict_eq_iff (x ∷ d) [] = ground arith
  dict_eq_iff (x ∷ d) (y ∷ e) = ground (arith, text_eq_iff x.0 y.0, eq_iff x.1 y.1, dict_eq_iff d e)

abbrev amount_eq : TokenBalance → TokenBalance → Bool
amount_eq a b = (a.free == b.free) && (a.used == b.used) && (a.total == b.total)

amount_eq_iff : (a b : TokenBalance) → (amount_eq a b ≡ true) ↔ (a ≡ b)
amount_eq_iff a b = ground arith

abbrev numbers_eq : Dict Text ℕ → Dict Text ℕ → Bool
numbers_eq = dict_eq ◌==◌ ==_iff

abbrev balances_eq : Balances → Balances → Bool
balances_eq a b =
    dict_eq amount_eq amount_eq_iff a.tokens b.tokens
    && (numbers_eq a.free b.free && (numbers_eq a.used b.used && numbers_eq a.total b.total))

balances_eq_iff : (a b : Balances) → (balances_eq a b ≡ true) ↔ (a ≡ b)
balances_eq_iff a b = ground (
  arith,
  dict_eq_iff amount_eq amount_eq_iff a.tokens b.tokens,
  dict_eq_iff ◌==◌ ==_iff a.free b.free,
  dict_eq_iff ◌==◌ ==_iff a.used b.used,
  dict_eq_iff ◌==◌ ==_iff a.total b.total,
)

-- The second change is applied to balances that the first has not reached yet.
abbrev overlapping : List BalanceEvent
overlapping =
    fetched (holdings 1 5)
    ∷ write_done
    ∷ watched (btc_is 2)
    ∷ watched (usd_is 6)
    ∷ write_done
    ∷ write_done
    ∷ []

change_lost : (on_events balances_eq overlapping new_feed).balance_clone ≡ some (holdings 1 6)
unfolding on_events
change_lost = refl

on_events-Tracks_example : Tracks (on_events balances_eq overlapping new_feed)
on_events-Tracks_example = on_events-Tracks balances_eq balances_eq_iff overlapping
