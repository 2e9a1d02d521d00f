-- ===== src/Keys.antt =====
-- The names of redis streams and hashes: getObservableKey (packages/gatherer/src/services/
-- datastreamer-service.ts), the keys of packages/gatherer/src/worker.ts, getObservable and buildKey
-- (packages/magicbox/src/services/datastream-service.ts), parseKey (packages/utils/src/services/
-- db-service.ts). A value that may be undefined is an option; an empty text is falsy too.
pub mod Laws
pub mod Tests
use faculty_auxie_mm.Prelude.Text.{Text, join_dots, codes, replace_first, split_dots, text_eq}
use faculty_auxie_mm.Prelude.{
  List, Option, ◌∷◌, ◌++◌, Bool, some, if◌then◌else◌, [], get_elem?, ltb, length, none,
}

-- `.filter(k => k)`
abbrev pub truthy : List (Option Text) → List Text
truthy [] = []
truthy (none ∷ ks) = truthy ks
truthy (some [] ∷ ks) = truthy ks
truthy (some (c ∷ k) ∷ ks) = (c ∷ k) ∷ truthy ks

-- DataStreamerService.getObservableKey
unfoldable pub get_observable_key : Text → Text → Text → List (Option Text) → Text
get_observable_key action tenant exchange params =
    let params_key = join_dots (truthy params) in
    join_dots (truthy (some tenant ∷ some exchange ∷ some action ∷ some params_key ∷ []))

abbrev pub stream_prefix : Text
stream_prefix = codes "stream."

abbrev pub snapshot_prefix : Text
snapshot_prefix = codes "stream.snapshot."

-- `orderBookKey` and `orderBookSnapshotKey` of the gatherer's worker
unfoldable pub order_book_key : Text → Text → Text → Text
unfolding get_observable_key
order_book_key tenant exchange_id symbol =
    stream_prefix
    ++ get_observable_key (codes "watchOrderBook") tenant exchange_id (some symbol ∷ [])

unfoldable pub order_book_snapshot_key : Text → Text → Text → Text
unfolding order_book_key
order_book_snapshot_key tenant exchange_id symbol =
    replace_first stream_prefix snapshot_prefix (order_book_key tenant exchange_id symbol)

-- the key of DataStreamService.getObservable, under which the magicbox keeps its cache
unfoldable pub observable_key : Text → Text → Text → Option Text → Text
observable_key tenant exchange resource symbol =
    join_dots (truthy (some tenant ∷ some exchange ∷ some resource ∷ symbol ∷ []))

-- StreamAdapter.buildKey
unfoldable pub build_key : Text → Text → Option Text → Text → Bool → Text
build_key exchange_id tenant symbol data_point is_public =
    let tenant_string = if is_public then codes "FGPUBLIC" else tenant in
    let data_point_string =
      if text_eq data_point (codes "orderBook") then codes "watchOrderBook" else data_point in
    join_dots
      (truthy (some tenant_string ∷ some exchange_id ∷ some data_point_string ∷ symbol ∷ []))

pub record ParsedKey : Type 0 where
  pub tenant : Option Text
  pub exchange : Option Text
  pub data_point : Option Text
  pub symbol : Option Text

-- An index out of range reads undefined.
abbrev pub from_parts : List Text → ParsedKey
from_parts parts = record {
  tenant = get_elem? parts 0;
  exchange = get_elem? parts 1;
  data_point = get_elem? parts 2;
  symbol = if ltb 3 (length parts) then get_elem? parts 3 else none;
}

-- DbService.parseKey
unfoldable pub parse_key : Text → ParsedKey
parse_key key = from_parts (split_dots (replace_first stream_prefix [] key))
