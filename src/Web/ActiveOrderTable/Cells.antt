-- ===== src/Web/ActiveOrderTable/Cells.antt =====
-- The comparators of packages/web/src/components/trade/ActiveOrderTable.js.
use faculty_auxie_mm.Web.Engine.{IsConsistent}
use faculty_auxie_mm.Web.ActiveOrderTable.{
  Cell, Row, Direction, cell, less_than, get_comparator, descending_comparator, text_ltb, number,
  text, undefined, null, desc, asc,
}
use faculty_auxie_mm.Prelude.Int.{ℤ, pos, ◌≤ℤ◌}
use faculty_auxie_mm.Prelude.Text.{Text}
use faculty_auxie_mm.Prelude.{◌≡◌, ◌∷◌, ◌↔◌, [], ℕ, Bool, arith, true, false, Option, refl, ltb}

-- What cells a column holds, for its comparisons to fit together.
pub data Kind : Type 0 where
  missing numbers texts : Kind

pub data IsOfKind : Kind → Cell → Type 0 where
  is_undefined : IsOfKind missing undefined
  is_null : IsOfKind numbers null
  is_number : {n : ℕ} → IsOfKind numbers (number n)
  is_text : {t : Text} → IsOfKind texts (text t)

pub text_ltb_asymm : (s t : Text) → text_ltb s t ≡ true → text_ltb t s ≡ false
text_ltb_asymm [] [] h = refl
text_ltb_asymm [] (d ∷ t) h = refl
text_ltb_asymm (c ∷ s) [] h = ground arith
text_ltb_asymm (c ∷ s) (d ∷ t) h = ground (arith, text_ltb_asymm s t)

pub text_ltb_trans :
    (s t u : Text) → text_ltb t s ≡ false → text_ltb u t ≡ false → text_ltb u s ≡ false
text_ltb_trans [] [] u h k = k
text_ltb_trans [] (d ∷ t) [] h k = ground arith
text_ltb_trans [] (d ∷ t) (e ∷ u) h k = refl
text_ltb_trans (c ∷ s) [] u h k = ground arith
text_ltb_trans (c ∷ s) (d ∷ t) [] h k = ground arith
text_ltb_trans (c ∷ s) (d ∷ t) (e ∷ u) h k = ground (arith, text_ltb_trans s t u)

amount : Cell → ℕ
amount undefined = 0
amount null = 0
amount (number n) = n
amount (text t) = 0

module _ (number_of : Text → Option ℤ) where
  less_than-amount :
      {a b : Cell}
      → IsOfKind numbers a
      → IsOfKind numbers b
      → less_than number_of a b ≡ ltb (amount a) (amount b)
  unfolding less_than amount
  less_than-amount is_null is_null = refl
  less_than-amount is_null is_number = ground arith
  less_than-amount is_number is_null = ground arith
  less_than-amount is_number is_number = ground arith

  less_than_asymm :
      {kind : Kind} {a b : Cell}
      → IsOfKind kind a
      → IsOfKind kind b
      → less_than number_of a b ≡ true
      → less_than number_of b a ≡ false
  unfolding less_than
  less_than_asymm {kind = missing} is_undefined is_undefined h = refl
  less_than_asymm {kind = texts} (is_text {t = s}) (is_text {t = t}) h = text_ltb_asymm s t h
  less_than_asymm {kind = numbers} ka kb h =
      ground (arith, less_than-amount ka kb, less_than-amount kb ka)

  less_than_trans :
      {kind : Kind} {a b c : Cell}
      → IsOfKind kind a
      → IsOfKind kind b
      → IsOfKind kind c
      → less_than number_of b a ≡ false
      → less_than number_of c b ≡ false
      → less_than number_of c a ≡ false
  unfolding less_than
  less_than_trans {kind = missing} is_undefined is_undefined is_undefined h k = refl
  less_than_trans {kind = texts} (is_text {t = s}) (is_text {t = t}) (is_text {t = u}) h k =
      text_ltb_trans s t u h k
  less_than_trans {kind = numbers} ka kb kc h k =
      ground (arith, less_than-amount kb ka, less_than-amount kc kb, less_than-amount kc ka)

  -- Where a stands behind b in a direction: its cell is the less where cells fall.
  abbrev pub is_behind : Direction → Text → Row → Row → Bool
  is_behind desc order_by a b = less_than number_of (cell order_by a) (cell order_by b)
  is_behind asc order_by a b = less_than number_of (cell order_by b) (cell order_by a)

  module _ (kind : Kind) (order_by : Text) where
    abbrev pub OfKind : Row → Type 0
    OfKind row = IsOfKind kind (cell order_by row)

    pub get_comparator_le :
        (direction : Direction) (a b : Row)
        → OfKind a
        → OfKind b
        → (get_comparator number_of direction order_by a b ≤ℤ pos 0)
          ↔ (is_behind direction order_by a b ≡ false)
    unfolding get_comparator descending_comparator
    get_comparator_le desc a b ka kb = ground (arith, less_than_asymm ka kb, less_than_asymm kb ka)
    get_comparator_le asc a b ka kb = ground (arith, less_than_asymm ka kb, less_than_asymm kb ka)

    pub get_comparator_ge :
        (direction : Direction) (a b : Row)
        → OfKind a
        → OfKind b
        → (pos 0 ≤ℤ get_comparator number_of direction order_by a b)
          ↔ (is_behind direction order_by b a ≡ false)
    unfolding get_comparator descending_comparator
    get_comparator_ge desc a b ka kb = ground (arith, less_than_asymm ka kb, less_than_asymm kb ka)
    get_comparator_ge asc a b ka kb = ground (arith, less_than_asymm ka kb, less_than_asymm kb ka)

    not_behind_trans :
        (direction : Direction) (a b d : Row)
        → OfKind a
        → OfKind b
        → OfKind d
        → is_behind direction order_by a b ≡ false
        → is_behind direction order_by b d ≡ false
        → is_behind direction order_by a d ≡ false
    not_behind_trans desc a b d ka kb kd h k = less_than_trans kd kb ka k h
    not_behind_trans asc a b d ka kb kd h k = less_than_trans ka kb kd h k

    pub get_comparator-IsConsistent :
        (direction : Direction) → IsConsistent OfKind (get_comparator number_of direction order_by)
    get_comparator-IsConsistent direction = record {
      flips = λ a b ka kb.
          let (le, behind) = get_comparator_le direction a b ka kb in
          let (ge, behind') = get_comparator_ge direction b a kb ka in
          (λ h. behind' (le h), λ h. behind (ge h));
      trans = λ a b d ka kb kd h k. (get_comparator_le direction a d ka kd).1 (
          not_behind_trans direction a b d ka kb kd ((get_comparator_le direction a b ka kb).0 h)
            ((get_comparator_le direction b d kb kd).0 k));
    }
