-- ===== src/MagicBox/Reader.antt =====
-- DataStreamService.createObservable (packages/magicbox/src/services/datastream-service.ts): the
-- reader of the two streams of a data point. XREAD answers with each stream's entries behind an id,
-- the deltas' stream first; a round of the loop is what one XREAD brings.
-- An id `<milliseconds>-<sequence>` is the number `milliseconds * 2^64 + sequence`, which has the
-- order of redis. `handle` is the handler that the resource chooses; what it throws is not modelled.
pub mod Laws
pub mod Books
pub mod Split
pub mod Catching
pub mod CatchUp
pub mod Tests
use faculty_auxie_mm.Prelude.{
  ◌∷◌, if◌then◌else◌, ◌+◌, ◌*◌, none, some, true, false, [], List, Option, Bool, ℕ,
}

abbrev pub sequence_width : ℕ
sequence_width = 18446744073709551616

-- What stands under `data` of a stream entry: nothing, text that is no JSON, or a message.
pub data Body (M : Type 0) : Type 0 where
  missing malformed : Body M
  parsed : M → Body M

pub record Entry (M : Type 0) : Type 0 where
  pub timestamp : ℕ
  pub sequence : ℕ
  pub body : Body M

pub record Reader (S : Type 0) : Type 0 where
  pub service : S
  pub id : ℕ

abbrev pub entry_id : {M : Type 0} → Entry M → ℕ
entry_id e = e.timestamp * sequence_width + e.sequence

module _ {M S : Type 0} (handle : ℕ → M → S → S) where
  -- The messages of one stream, and whether all of them could be parsed.
  unfoldable pub read_messages : List (Entry M) → Reader S → Reader S × Bool
  read_messages [] r = (r, true)
  read_messages (e ∷ es) r = elim e.body [
    | missing ↦ read_messages es r
    | malformed ↦ (r, false)
    | parsed m ↦
        read_messages es (record { service = handle e.timestamp m r.service; id = entry_id e })
  ]

  -- One round. What cannot be parsed ends it: the streams that follow are not looked at.
  unfoldable pub read_streams : List (List (Entry M)) → Reader S → Reader S
  unfolding read_messages
  read_streams [] r = r
  read_streams (stream ∷ streams) r =
      let (r', complete) = read_messages stream r in
      let rest = read_streams streams r' in if complete then rest else r'

  -- The newest snapshot, before the loop: without one it reads from the start, and from the
  -- millisecond after it otherwise. One that cannot be parsed ends the reader.
  unfoldable pub load_snapshot : List (Entry M) → Reader S → Option (Reader S)
  load_snapshot [] r = some r
  load_snapshot (e ∷ es) r = elim e.body [
    | missing ↦ none
    | malformed ↦ none
    | parsed m ↦ load_snapshot es (record {
      service = handle e.timestamp m r.service;
      id = (e.timestamp + 1) * sequence_width;
    })
  ]

abbrev pub new_reader : {S : Type 0} → S → Reader S
new_reader s = record { service = s; id = 0 }
