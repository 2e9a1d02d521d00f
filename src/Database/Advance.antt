-- ===== src/Database/Advance.antt =====
-- One XREAD of syncAsset (packages/dbsync/src/services/dbSyncService.ts) inserts a first part of
-- what it brings.
use faculty_auxie_mm.Database.Rows.{
  stream_rows, body_rows, IsSingle, sync_body_went_on, sync_body_stopped,
}
use faculty_auxie_mm.Database.{Kind, Message, Table, sync_messages, sync_body}
use faculty_auxie_mm.MagicBox.Reader.Laws.{last_id}
use faculty_auxie_mm.MagicBox.Reader.{Body, Entry, Reader, entry_id, missing, malformed, parsed}
use faculty_auxie_mm.Keys.{ParsedKey}
use faculty_auxie_mm.Prelude.{
  ◌≡◌, ◌∷◌, ◌++◌, [], List, refl, sym, inl, inr, append_assoc, append-nil, Bool-cases, ◌∙◌, ap,
}

module _ (table : Table) where
  module _ (k : Kind) (key : ParsedKey) where
    -- Of the messages of one XREAD, a first part has been inserted, and the id is its last one's.
    pub data Advance (es : List (Entry (Message k))) (r r' : Reader table.State) : Type 0 where
      advanced :
          (read left : List (Entry (Message k)))
          → es ≡ read ++ left
          → r'.id ≡ last_id entry_id r.id read
          → table.rows r'.service ≡ table.rows r.service ++ stream_rows k key read
          → Advance es r r'

    Advance-missing :
        (e : Entry (Message k)) (es : List (Entry (Message k))) (r r' : Reader table.State)
        → e.body ≡ missing
        → Advance es r r'
        → Advance (e ∷ es) r r'
    unfolding stream_rows
    Advance-missing e es r r' p (advanced [] left split id_is rows_are) =
        advanced [] (e ∷ left) (ap (λ t. e ∷ t) split) id_is rows_are
    Advance-missing e es r r' p (advanced (x ∷ xs) left split id_is rows_are) =
        advanced (e ∷ x ∷ xs) left (ap (λ t. e ∷ t) split) id_is (rw (p) rows_are)

    Advance-parsed :
        (e : Entry (Message k)) (es : List (Entry (Message k))) (r r' r'' : Reader table.State)
        → r'.id ≡ entry_id e
        → table.rows r'.service ≡ table.rows r.service ++ body_rows k key e.body
        → Advance es r' r''
        → Advance (e ∷ es) r r''
    unfolding stream_rows
    Advance-parsed e es r r' r'' now taken (advanced read left split id_is rows_are) =
        advanced (e ∷ read) left (ap (λ t. e ∷ t) split) (rw (now) at id_is) (
          rows_are
          ∙ ap (λ t. t ++ stream_rows k key read) taken
          ∙ append_assoc (table.rows r.service) (body_rows k key e.body) (stream_rows k key read))

    Advance-cons :
        IsSingle k
        → (e : Entry (Message k)) (es : List (Entry (Message k))) (r : Reader table.State)
        → ((r' : Reader table.State) → Advance es r' (sync_messages table k key es r'))
        → (b : Body (Message k)) → e.body ≡ b
        → Advance (e ∷ es) r (sync_messages table k key (e ∷ es) r)
    unfolding sync_messages stream_rows sync_body
    Advance-cons single e es r rest missing p = simp (p) (Advance-missing e es r _ p (rest r))
    Advance-cons single e es r rest malformed p =
        simp (p) (advanced [] (e ∷ es) refl refl (sym (append-nil (table.rows r.service))))
    Advance-cons single e es r rest (parsed m) p =
        let body = sync_body table k key (entry_id e) (parsed m) r in
        elim (Bool-cases body.1) [
          | inl goes_on ↦
              simp (p, goes_on)
                (Advance-parsed e es r (record { service = body.0.service; id = entry_id e }) _ refl
                  (simp (p) (sync_body_went_on table k key (entry_id e) (parsed m) r goes_on))
                  (rest _))
          | inr stops ↦
              simp (p, stops)
                (let kept = sync_body_stopped table k key single (entry_id e) (parsed m) r stops in
                  advanced [] (e ∷ es) refl refl (kept.0 ∙ sym (append-nil (table.rows r.service))))
        ]

    pub sync_messages-Advance :
        IsSingle k
        → (es : List (Entry (Message k))) (r : Reader table.State)
        → Advance es r (sync_messages table k key es r)
    unfolding sync_messages stream_rows
    sync_messages-Advance single [] r =
        advanced [] [] refl refl (sym (append-nil (table.rows r.service)))
    sync_messages-Advance single (e ∷ es) r =
        Advance-cons single e es r (sync_messages-Advance single es) e.body refl
