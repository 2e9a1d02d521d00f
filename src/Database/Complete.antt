-- ===== src/Database/Complete.antt =====
-- A database that takes every row (packages/dbsync/src/services/dbSyncService.ts).
use faculty_auxie_mm.Prelude.Text.{Text}
use faculty_auxie_mm.Database.Rows.{stream_rows, insert_rows-taken, concat, stream_rows-append}
use faculty_auxie_mm.Database.{
  Kind, Message, Row, Table, rows_of, insert_rows, sync_messages, sync_rounds, sync_body, filter,
  ltb, sync_asset, Text, kind_of, parse_key,
}
use faculty_auxie_mm.MagicBox.Reader.Laws.{
  IsIncreasing, last_id, last_id-append, IsIncreasing-prefix, behind_last,
}
use faculty_auxie_mm.MagicBox.Reader.{Entry, Reader, entry_id, parsed}
use faculty_auxie_mm.Keys.{ParsedKey, parse_key}
use faculty_auxie_mm.Prelude.{
  ◌≡◌, ◌∷◌, ◌++◌, [], List, ℕ, refl, true, sym, append_assoc, append-nil, ◌∙◌, ap, filter, ltb, All,
}

-- Can all messages of a stream be parsed?
abbrev pub AllParsed : {M : Type 0} → List (Entry M) → Type 0
AllParsed {M} es = All (λ e. (m : M) × (e.body ≡ parsed m)) es

module _ (table : Table) (takes : (r : Row) (s : table.State) → (table.insert r s).1 ≡ true) where
  insert_rows_taken_each : (rs : List Row) (s : table.State) → (insert_rows table rs s).1 ≡ true
  unfolding insert_rows
  insert_rows_taken_each [] s = refl
  insert_rows_taken_each (r ∷ rs) s =
      rw (takes r s) (insert_rows_taken_each rs (table.insert r s).0)

  module _ (k : Kind) (key : ParsedKey) where
    -- All of `es` has been inserted, and the id is its last one's.
    abbrev IsSyncedAll : List Row → ℕ → List (Entry (Message k)) → Reader table.State → Type 0
    IsSyncedAll rows id es r =
        (table.rows r.service ≡ rows ++ stream_rows k key es) × (r.id ≡ last_id entry_id id es)

    sync_messages-IsSyncedAll :
        (es : List (Entry (Message k))) (r : Reader table.State)
        → AllParsed es
        → IsSyncedAll (table.rows r.service) r.id es (sync_messages table k key es r)
    unfolding sync_messages stream_rows sync_body
    sync_messages-IsSyncedAll [] r h = (sym (append-nil (table.rows r.service)), refl)
    sync_messages-IsSyncedAll (e ∷ es) r h =
        let all = insert_rows_taken_each (rows_of k key h.0.0) r.service in
        let s = (insert_rows table (rows_of k key h.0.0) r.service).0 in
        let rest = sync_messages-IsSyncedAll es (record { service = s; id = entry_id e }) h.1 in
        simp (h.0.1, all)
          (
            rest.0
                ∙ ap (λ t. t ++ stream_rows k key es) (insert_rows-taken table _ r.service all)
                ∙ append_assoc (table.rows r.service) (rows_of k key h.0.0) (stream_rows k key es),
            rest.1,
          )

    sync_rounds-IsSyncedAll :
        (s : table.State) (news : List (List (Entry (Message k))))
        (stream : List (Entry (Message k))) (r : Reader table.State)
        → IsIncreasing entry_id 0 (stream ++ concat news)
        → All AllParsed news
        → IsSyncedAll (table.rows s) 0 stream r
        → IsSyncedAll
            (table.rows s)
            0
            (stream ++ concat news)
            (sync_rounds table k key stream news r)
    unfolding sync_rounds
    sync_rounds-IsSyncedAll s [] stream r inc all_parsed h = rw (append-nil stream) h
    sync_rounds-IsSyncedAll s (new ∷ news) stream r inc all_parsed h =
        let whole = append_assoc stream new (concat news) in
        let inc' : IsIncreasing entry_id 0 ((stream ++ new) ++ concat news) = rw (whole) inc in
        let unread : filter (λ e. ltb r.id (entry_id e)) (stream ++ new) ≡ new = simp (h.1) (
          behind_last entry_id 0 stream new
            (IsIncreasing-prefix entry_id 0 (stream ++ new) (concat news) inc')) in
        let now = sync_messages-IsSyncedAll new r all_parsed.0 in
        rw⁻¹ whole (
          sync_rounds-IsSyncedAll s news (stream ++ new) _ inc' all_parsed.1 (
            rw (unread) (
              rw (stream_rows-append k key stream new, now.0, h.0)
                  (append_assoc (table.rows s) (stream_rows k key stream) (stream_rows k key new)),
              rw (now.1, h.1) (sym (last_id-append entry_id 0 stream new)),
            )))

  -- If the database takes every row and every message can be parsed, then behind the rows that were
  -- there before it gets the rows of the whole stream, in its order, whatever they are: also those
  -- that an earlier run has inserted. The ids of the stream increase.
  pub sync_asset-rows :
      (asset_key : Text) (news : List (List (Entry (Message (kind_of asset_key)))))
      (s : table.State)
      → IsIncreasing entry_id 0 (concat news)
      → All AllParsed news
      → table.rows (sync_asset table asset_key news s).service
        ≡ table.rows s ++ stream_rows (kind_of asset_key) (parse_key asset_key) (concat news)
  unfolding sync_asset stream_rows
  sync_asset-rows asset_key news s inc all_parsed =
      (sync_rounds-IsSyncedAll (kind_of asset_key) (parse_key asset_key) s news [] _ inc all_parsed
        (sym (append-nil (table.rows s)), refl)).0
