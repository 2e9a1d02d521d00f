-- ===== src/Web/ActiveOrderTable/Equality.antt =====
-- When two rows of packages/web/src/components/trade/ActiveOrderTable.js are the same.
use faculty_auxie_mm.Prelude.Text.{text_eq, text_eq_iff, text_Eq}
use faculty_auxie_mm.Prelude.Count.{Eq, list_Eq, pair_Eq}
use faculty_auxie_mm.Prelude.{◌≡◌, ◌==◌, ◌↔◌, true, false, Bool, arith}
use faculty_auxie_mm.Web.ActiveOrderTable.{Cell, Row, undefined, null, number, text, Bool, text_eq}

abbrev cell_eq : Cell → Cell → Bool
cell_eq undefined undefined = true
cell_eq undefined null = false
cell_eq undefined (number n) = false
cell_eq undefined (text t) = false
cell_eq null undefined = false
cell_eq null null = true
cell_eq null (number n) = false
cell_eq null (text t) = false
cell_eq (number m) undefined = false
cell_eq (number m) null = false
cell_eq (number m) (number n) = m == n
cell_eq (number m) (text t) = false
cell_eq (text s) undefined = false
cell_eq (text s) null = false
cell_eq (text s) (number n) = false
cell_eq (text s) (text t) = text_eq s t

pub cell_eq_iff : (a b : Cell) → (cell_eq a b ≡ true) ↔ (a ≡ b)
cell_eq_iff undefined undefined = ground arith
cell_eq_iff undefined null = ground arith
cell_eq_iff undefined (number n) = ground arith
cell_eq_iff undefined (text t) = ground arith
cell_eq_iff null undefined = ground arith
cell_eq_iff null null = ground arith
cell_eq_iff null (number n) = ground arith
cell_eq_iff null (text t) = ground arith
cell_eq_iff (number m) undefined = ground arith
cell_eq_iff (number m) null = ground arith
cell_eq_iff (number m) (number n) = ground arith
cell_eq_iff (number m) (text t) = ground arith
cell_eq_iff (text s) undefined = ground arith
cell_eq_iff (text s) null = ground arith
cell_eq_iff (text s) (number n) = ground arith
cell_eq_iff (text s) (text t) = ground (arith, text_eq_iff s t)

abbrev pub cell_Eq : Eq Cell
cell_Eq = record { beq = cell_eq; beq_iff = cell_eq_iff }

abbrev pub row_Eq : Eq Row
row_Eq = list_Eq (pair_Eq text_Eq cell_Eq)
