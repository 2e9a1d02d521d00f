-- ===== src/Orders/Store.antt =====
-- The redis hashes that hold one order each, and their keys: `order.${tenant}.${order.id}`.
-- Redis is not part of the repository: its hashes are a parameter, with what HSET and HGET do.
use faculty_auxie_mm.Orders.{Order}
use faculty_auxie_mm.Prelude.{Option, ◌++◌, ◌∷◌, ◌≡◌, if◌then◌else◌, ◌∙◌, some, refl, [], arith}
use faculty_auxie_mm.Prelude.Dict.{Dict, lookup, insert, lookup-insert}
use faculty_auxie_mm.Prelude.Text.{Text, codes, text_eq, text_Eq}

pub record OrderStore : Type 1 where
  pub State : Type 0
  pub hget : State → Text → Option Order
  pub hset : State → Text → Order → State
  pub hget-hset :
      (s : State) (k j : Text) (o : Order)
      → hget (hset s k o) j ≡ (if text_eq k j then some o else hget s j)

abbrev pub order_key : Text → Text → Text
order_key tenant id = codes "order." ++ (tenant ++ b'.' ∷ id)

text_eq-append : (p s t : Text) → text_eq (p ++ s) (p ++ t) ≡ text_eq s t
text_eq-append [] s t = refl
text_eq-append (c ∷ p) s t = ground (arith, text_eq-append p s t)

-- Keys of one tenant differ exactly where the ids do.
pub text_eq-order_key :
    (tenant i j : Text) → text_eq (order_key tenant i) (order_key tenant j) ≡ text_eq i j
text_eq-order_key tenant i j =
    text_eq-append (codes "order.") (tenant ++ b'.' ∷ i) (tenant ++ b'.' ∷ j)
    ∙ text_eq-append tenant (b'.' ∷ i) (b'.' ∷ j)
    ∙ text_eq-append (b'.' ∷ []) i j

-- A store that keeps its hashes in a dictionary.
abbrev pub dict_store : OrderStore
dict_store = record {
  State = Dict Text Order;
  hget = λ s k. lookup k s;
  hset = λ s k o. insert k o s;
  hget-hset = λ s k j o. lookup-insert k j o s;
}
