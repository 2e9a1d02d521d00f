-- ===== src/Gatherer/Diff.antt =====
-- DataStreamerService.getArrayDiff (packages/gatherer/src/services/datastreamer-service.ts).
-- `agg[item] = 1` keys an object by an item's text. Two pairs of numbers have one text exactly when
-- they are equal, so the object is modelled by the list of the items that it has a key for.
pub mod Laws
use faculty_auxie_mm.Prelude.{Bool, List, [], ◌∷◌, filter, not, if◌then◌else◌}
use faculty_auxie_mm.Prelude.Count.{Eq, contains}
use faculty_auxie_mm.Book.Lodash.{Lodash}

pub record ArrayDiff (A : Type 0) : Type 0 where
  pub add : List A
  pub remove : List A

module _ {A : Type 0} ⦃e : Eq A⦄ where
  abbrev pub mark : List A → A → List A
  mark agg item = if contains agg item then agg else item ∷ agg

  -- the items of an array that have no key in a map; `item &&` holds of every array
  abbrev pub unmarked : List A → List A → List A
  unmarked seen = filter (λ item. not (contains seen item))

  unfoldable pub get_array_diff : Lodash A → List A → List A → ArrayDiff A
  get_array_diff l array1 array2 =
      let map1 = l.reduce array1 mark [] in
      let map2 = l.reduce array2 mark [] in
      record { add = unmarked map1 array2; remove = unmarked map2 array1 }
