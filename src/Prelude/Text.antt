-- ===== src/Prelude/Text.antt =====
-- Text as the list of its code points, since the code joins texts and takes them apart.
use Prim.Native.Char.{code}
use Prim.Native.Nat.{ℕ}
use Prim.Native.String.{String}
use mathlib.Core.Bool.{Bool, true, false, ◌&&◌}
use mathlib.Core.Logic.{◌↔◌}
use mathlib.Core.Path.{◌≡◌}
use mathlib.Core.List.{List, [], ◌∷◌, ◌++◌}
use mathlib.Core.Option.{Option, none, some}
use native.Mathlib.Omega.{arith}
use faculty_auxie_mm.Prelude.Tests.{◌==◌, if◌then◌else◌}
use faculty_auxie_mm.Prelude.Count.{Eq}

abbrev pub Text : Type 0
Text = List ℕ

abbrev pub codes : String → Text
codes String.[] = []
codes (String.◌∷◌ c s) = code c ∷ codes s

abbrev pub text_eq : Text → Text → Bool
text_eq [] [] = true
text_eq [] (d ∷ t) = false
text_eq (c ∷ s) [] = false
text_eq (c ∷ s) (d ∷ t) = (c == d) && text_eq s t

pub text_eq_iff : (s t : Text) → (text_eq s t ≡ true) ↔ (s ≡ t)
text_eq_iff [] [] = ground arith
text_eq_iff [] (d ∷ t) = ground arith
text_eq_iff (c ∷ s) [] = ground arith
text_eq_iff (c ∷ s) (d ∷ t) = ground (arith, text_eq_iff s t)

instance abbrev pub text_Eq : Eq Text
text_Eq = record { beq = text_eq; beq_iff = text_eq_iff }

-- `parts.join('.')`
abbrev pub join_dots : List Text → Text
join_dots [] = []
join_dots (p ∷ []) = p
join_dots (p ∷ q ∷ ps) = p ++ b'.' ∷ join_dots (q ∷ ps)

-- `text.split('.')`: the part before the first dot, with the parts after it
abbrev pub split_from : Text → Text × List Text
split_from [] = ([], [])
split_from (c ∷ s) = let (p, ps) = split_from s in if c == b'.' then ([], p ∷ ps) else (c ∷ p, ps)

abbrev pub split_dots : Text → List Text
split_dots s = let (p, ps) = split_from s in p ∷ ps

-- `text.startsWith(prefix)`, giving what follows
abbrev pub strip_prefix : Text → Text → Option Text
strip_prefix [] s = some s
strip_prefix (p ∷ ps) [] = none
strip_prefix (p ∷ ps) (c ∷ s) = let rest = strip_prefix ps s in if p == c then rest else none

-- `text.replace(pattern, replacement)`: the first occurrence only
abbrev pub replace_first : Text → Text → Text → Text
replace_first pattern replacement [] = []
replace_first pattern replacement (c ∷ s) =
    let rest = c ∷ replace_first pattern replacement s in
    elim (strip_prefix pattern (c ∷ s)) [ none ↦ rest | some after ↦ replacement ++ after ]
