-- ===== src/Book.antt =====
-- Order books as the services exchange them: packages/utils/src/types.ts (class OrderBook), and
-- what both sides take from lodash. Prices and amounts are only compared, never computed with, so
-- they are natural numbers of the market's smallest step.
pub mod Lodash
pub mod Message
use faculty_auxie_mm.Prelude.{
  ℕ, suc, ◌-◌, ◌≡◌, ◌↔◌, Bool, true, ◌&&◌, List, Option, zero, arith, ◌==◌,
}
use faculty_auxie_mm.Prelude.Count.{Eq}
use faculty_auxie_mm.Prelude.Text.{Text}
use faculty_auxie_mm.Prelude.Int.{ℤ, pos, negsuc}

-- One entry `[price, amount]` of a side.
pub record Level : Type 0 where
  pub price : ℕ
  pub amount : ℕ

pub record OrderBook : Type 0 where
  pub timestamp : Option ℕ
  pub datetime : Option Text
  pub nonce : Option ℕ
  pub asks : List Level
  pub bids : List Level

abbrev pub level_eq : Level → Level → Bool
level_eq a b = (a.price == b.price) && (a.amount == b.amount)

pub level_eq_iff : (a b : Level) → (level_eq a b ≡ true) ↔ (a ≡ b)
level_eq_iff a b = ground arith

instance abbrev pub level_Eq : Eq Level
level_Eq = record { beq = level_eq; beq_iff = level_eq_iff }

-- `(d) => d[0]` and `(d) => -d[0]`.
abbrev pub ask_key : Level → ℤ
ask_key d = pos d.price

abbrev pub neg_ℕ : ℕ → ℤ
neg_ℕ zero = pos 0
neg_ℕ (suc n) = negsuc n

abbrev pub bid_key : Level → ℤ
bid_key d = neg_ℕ d.price
