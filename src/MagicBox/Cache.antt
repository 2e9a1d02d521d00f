-- ===== src/MagicBox/Cache.antt =====
-- DataStreamService.pushToObservable (packages/magicbox/src/services/datastream-service.ts): the
-- last versions of every data point, newest first, and what its subscribers are told.
-- The source has one dictionary whose keys name the data point; here each kind of data has its own.
-- `observables` are the keys that have a subject. Delivery to the subscribers is the result.
pub mod Laws
use faculty_auxie_mm.Prelude.{
  ℕ, ◌+◌, Bool, true, false, Option, none, some, List, [], ◌∷◌, ltb, any, take, ◌&&◌, or_default,
  if◌then◌else◌,
}
use faculty_auxie_mm.Prelude.Text.{Text, text_eq, text_Eq}
use faculty_auxie_mm.Prelude.Dict.{Dict, lookup, insert}

pub record DataStreamService (V : Type 0) : Type 0 where
  pub cache : Dict Text (List V)
  pub observables : List Text
  pub cache_size : ℕ
  pub max_timestamp_delta : ℕ

-- What `subject.next` is called with.
pub data Emission (V I : Type 0) : Type 0 where
  version : V → Emission V I
  all_versions : List V → Emission V I
  item : I → Emission V I

pub record Pushed (V I : Type 0) : Type 0 where
  pub service : DataStreamService V
  pub slot : List V
  pub emitted : Option (Emission V I)

module _ {V : Type 0} where
  -- `this.cache[key]`, or an empty slot
  abbrev pub slot_of : DataStreamService V → Text → List V
  slot_of s key = or_default (lookup key s.cache) []

  -- `(now - timestamp) < this.maxTimestampDelta`; false at a timestamp that is undefined
  abbrev pub is_recent : DataStreamService V → ℕ → Option ℕ → Bool
  is_recent s now none = false
  is_recent s now (some timestamp) = ltb now (timestamp + s.max_timestamp_delta)

module _ {V I : Type 0} where
  abbrev pub emission : V → List V → Bool → Option I → Emission V I
  emission entry slot emit_all (some i) = item i
  emission entry slot true none = all_versions slot
  emission entry slot false none = version entry

  unfoldable pub push_to_observable :
      ℕ → Text → V → Option ℕ → Bool → Option I → DataStreamService V → Pushed V I
  push_to_observable now key entry timestamp emit_all push_item s =
      let slot = take s.cache_size (entry ∷ slot_of s key) in
      let deliver = any (text_eq key) s.observables && is_recent s now timestamp in
      record {
        service = record s { cache = insert key slot s.cache };
        slot = slot;
        emitted = if deliver then some (emission entry slot emit_all push_item) else none;
      }
