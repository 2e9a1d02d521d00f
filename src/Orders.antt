-- ===== src/Orders.antt =====
-- Orders as the services exchange them: class Order of packages/utils/src/types.ts. A field that an
-- exchange may leave out is an option. Amounts and prices are only compared here, so they are
-- natural numbers of the market's smallest step.
pub mod Store
use faculty_auxie_mm.Prelude.{Option, ℕ, Bool, ◌≡◌, true, ◌↔◌, arith, ◌==◌, none, some, false}
use faculty_auxie_mm.Prelude.Text.{Text}

pub data Status : Type 0 where
  opened closed canceled : Status

pub data OrderSide : Type 0 where
  sell buy : OrderSide

pub record Order : Type 0 where
  pub id : Text
  pub client_order_id : Text
  pub symbol : Text
  pub side : OrderSide
  pub timestamp : ℕ
  pub status : Option Status
  pub price : ℕ
  pub amount : Option ℕ
  pub filled : Option ℕ
  pub remaining : Option ℕ

abbrev pub status_eq : Option Status → Option Status → Bool
status_eq none none = true
status_eq (some opened) (some opened) = true
status_eq (some closed) (some closed) = true
status_eq (some canceled) (some canceled) = true
status_eq a b = false

abbrev pub number_eq : Option ℕ → Option ℕ → Bool
number_eq none none = true
number_eq (some a) (some b) = a == b
number_eq a b = false

pub status_eq_iff : (a b : Option Status) → (status_eq a b ≡ true) ↔ (a ≡ b)
status_eq_iff a b = ground arith

pub number_eq_iff : (a b : Option ℕ) → (number_eq a b ≡ true) ↔ (a ≡ b)
number_eq_iff a b = ground arith
