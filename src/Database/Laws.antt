-- ===== src/Database/Laws.antt =====
-- What syncAsset (packages/dbsync/src/services/dbSyncService.ts) has inserted of a stream.
use faculty_auxie_mm.Prelude.Text.{Text}
use faculty_auxie_mm.Database.Advance.{Advance, sync_messages-Advance, advanced}
use faculty_auxie_mm.Database.Rows.{stream_rows, IsSingle, concat, stream_rows-append}
use faculty_auxie_mm.Database.{
  Kind, Message, Table, sync_messages, sync_rounds, filter, ltb, sync_asset, Text, kind_of,
  parse_key,
}
use faculty_auxie_mm.MagicBox.Reader.Laws.{
  IsIncreasing, last_id, last_id-append, IsIncreasing-prefix, behind_last,
}
use faculty_auxie_mm.MagicBox.Reader.{Entry, Reader, entry_id}
use faculty_auxie_mm.Keys.{ParsedKey, parse_key}
use faculty_auxie_mm.Prelude.{
  ◌≡◌, ◌∷◌, ◌++◌, [], List, refl, sym, append_assoc, append-nil, ◌∙◌, ap, filter, ltb,
}

module _ (table : Table) where
  module _ (k : Kind) (key : ParsedKey) where
    -- Of a stream, the rows of a first part have been inserted behind those of `s`, and the id is
    -- the last one of that part.
    pub data Synced (s : table.State) (stream : List (Entry (Message k))) (r : Reader table.State)
        : Type 0 where
      synced :
          (seen unseen : List (Entry (Message k)))
          → stream ≡ seen ++ unseen
          → r.id ≡ last_id entry_id 0 seen
          → table.rows r.service ≡ table.rows s ++ stream_rows k key seen
          → Synced s stream r

    Synced-Advance :
        (s : table.State) (seen unseen : List (Entry (Message k))) (r r' : Reader table.State)
        → r.id ≡ last_id entry_id 0 seen
        → table.rows r.service ≡ table.rows s ++ stream_rows k key seen
        → Advance table k key unseen r r'
        → Synced s (seen ++ unseen) r'
    Synced-Advance s seen unseen r r' id_is rows_are (advanced read left split id_is' rows_are') =
        synced (seen ++ read) left (ap (λ t. seen ++ t) split ∙ sym (append_assoc seen read left))
          (id_is'
            ∙ ap (λ i. last_id entry_id i read) id_is
            ∙ sym (last_id-append entry_id 0 seen read))
          (rw (stream_rows-append k key seen read, rows_are', rows_are)
            (append_assoc (table.rows s) (stream_rows k key seen) (stream_rows k key read)))

    round-Synced :
        IsSingle k
        → (s : table.State) (stream new : List (Entry (Message k))) (r : Reader table.State)
        → IsIncreasing entry_id 0 (stream ++ new)
        → Synced s stream r
        → Synced s
            (stream ++ new)
            (sync_messages table k key (filter (λ e. ltb r.id (entry_id e)) (stream ++ new)) r)
    round-Synced single s stream new r inc (synced seen unseen split id_is rows_are) =
        let whole : stream ++ new ≡ seen ++ (unseen ++ new) =
          ap (λ t. t ++ new) split ∙ append_assoc seen unseen new in
        let unread : filter (λ e. ltb r.id (entry_id e)) (stream ++ new) ≡ unseen ++ new =
          simp (id_is, whole) (behind_last entry_id 0 seen (unseen ++ new) (rw (whole) at inc)) in
        rw (unread) (
          rw (whole) (
            Synced-Advance s seen (unseen ++ new) r _ id_is rows_are
              (sync_messages-Advance table k key single (unseen ++ new) r)))

    sync_rounds-Synced_from :
        IsSingle k
        → (s : table.State) (news : List (List (Entry (Message k))))
          (stream : List (Entry (Message k))) (r : Reader table.State)
        → IsIncreasing entry_id 0 (stream ++ concat news)
        → Synced s stream r
        → Synced s (stream ++ concat news) (sync_rounds table k key stream news r)
    unfolding sync_rounds
    sync_rounds-Synced_from single s [] stream r inc h = rw (append-nil stream) h
    sync_rounds-Synced_from single s (new ∷ news) stream r inc h =
        let whole = append_assoc stream new (concat news) in
        let inc' : IsIncreasing entry_id 0 ((stream ++ new) ++ concat news) = rw (whole) inc in
        rw⁻¹ whole (
          sync_rounds-Synced_from single s news (stream ++ new) _ inc' (
            round-Synced single s stream new r
              (IsIncreasing-prefix entry_id 0 (stream ++ new) (concat news) inc') h))

  pub sync_asset-Synced :
      (asset_key : Text) (news : List (List (Entry (Message (kind_of asset_key)))))
      (s : table.State)
      → IsSingle (kind_of asset_key)
      → IsIncreasing entry_id 0 (concat news)
      → Synced
          (kind_of asset_key)
          (parse_key asset_key)
          s
          (concat news)
          (sync_asset table asset_key news s)
  unfolding sync_asset stream_rows
  sync_asset-Synced asset_key news s single inc =
      sync_rounds-Synced_from (kind_of asset_key) (parse_key asset_key) single s news [] _ inc
        (synced [] [] refl refl (sym (append-nil (table.rows s))))
