-- ===== src/Database/Trimmed.antt =====
-- What syncAsset (packages/dbsync/src/services/dbSyncService.ts) has inserted of a stream that
-- writeToStream (packages/gatherer/src/worker.ts) trims.
use faculty_auxie_mm.Database.Laws.{Synced, sync_asset-Synced}
use faculty_auxie_mm.Database.Rows.{IsSingle, concat}
use faculty_auxie_mm.Database.{
  Kind, Message, Table, kind_of, sync_asset, sync_messages, sync_rounds, sync_trimmed_asset,
  sync_trimmed_rounds, trimmed,
}
use faculty_auxie_mm.MagicBox.Reader.Laws.{IsIncreasing}
use faculty_auxie_mm.MagicBox.Reader.{Entry, Reader, entry_id}
use faculty_auxie_mm.Keys.{ParsedKey, parse_key}
use faculty_auxie_mm.Prelude.Text.{Text}
use faculty_auxie_mm.Prelude.{
  ◌≡◌, ◌∷◌, ◌++◌, [], false, List, ℕ, zero, suc, refl, ap, ◌∙◌, All, filter, ltb, take,
}

-- What the rounds bring, whatever is gone.
abbrev pub news_of : {A : Type 0} → List (ℕ × List A) → List (List A)
news_of [] = []
news_of ((gone, new) ∷ rounds) = new ∷ news_of rounds

filter-trimmed :
    {M : Type 0} (id n : ℕ) (es : List (Entry M))
    → All (λ e. ltb id (entry_id e) ≡ false) (take n es)
    → filter (λ e. ltb id (entry_id e)) (trimmed n es) ≡ filter (λ e. ltb id (entry_id e)) es
filter-trimmed id zero es h = refl
filter-trimmed id (suc n) [] h = refl
filter-trimmed id (suc n) (e ∷ es) h = rw (h.0) (filter-trimmed id n es h.1)

module _ (table : Table) where
  module _ (k : Kind) (key : ParsedKey) where
    -- At each XREAD, the messages that are gone are ones that the reader is behind.
    unfoldable pub MissesNothing :
        List (Entry (Message k)) → List (ℕ × List (Entry (Message k))) → Reader table.State → Type 0
    MissesNothing stream [] r = Unit
    MissesNothing stream ((gone, new) ∷ rounds) r =
        let stream' = stream ++ new in
        All (λ e. ltb r.id (entry_id e) ≡ false) (take gone stream')
        × MissesNothing stream' rounds (
            sync_messages table k key (filter (λ e. ltb r.id (entry_id e)) (trimmed gone stream'))
              r)

    sync_trimmed_rounds-eq :
        (rounds : List (ℕ × List (Entry (Message k)))) (stream : List (Entry (Message k)))
        (r : Reader table.State)
        → MissesNothing stream rounds r
        → sync_trimmed_rounds table k key stream rounds r
          ≡ sync_rounds table k key stream (news_of rounds) r
    unfolding sync_trimmed_rounds sync_rounds MissesNothing
    sync_trimmed_rounds-eq [] stream r h = refl
    sync_trimmed_rounds-eq ((gone, new) ∷ rounds) stream r h =
        let stream' = stream ++ new in
        let same = filter-trimmed r.id gone stream' h.0 in
        sync_trimmed_rounds-eq rounds stream'
          (sync_messages table k key (filter (λ e. ltb r.id (entry_id e)) (trimmed gone stream')) r)
          h.1
        ∙ ap
            (λ es.
              sync_rounds table k key stream' (news_of rounds) (sync_messages table k key es r))
            same

  -- Whatever insertions fail, whatever messages cannot be parsed and however the stream grows and is
  -- trimmed from one XREAD to the next, in the order of its ids: of a stream whose messages are one row
  -- at most (all but balances), the database has got the rows of a first part of all that was ever
  -- written, each once and in order, behind the rows that were there before, and the id is that of the
  -- last message of this part. This is as long as only messages are trimmed
  -- whose ids the reader has reached, which fails for one that stalls for more messages than the stream
  -- holds.
  pub sync_trimmed_asset-Synced :
      (asset_key : Text) (rounds : List (ℕ × List (Entry (Message (kind_of asset_key)))))
      (s : table.State)
      → IsSingle (kind_of asset_key)
      → IsIncreasing entry_id 0 (concat (news_of rounds))
      → MissesNothing
          (kind_of asset_key)
          (parse_key asset_key)
          []
          rounds
          (record { service = s; id = 0 })
      → Synced table
          (kind_of asset_key)
          (parse_key asset_key)
          s
          (concat (news_of rounds))
          (sync_trimmed_asset table asset_key rounds s)
  unfolding sync_trimmed_asset sync_asset
  sync_trimmed_asset-Synced asset_key rounds s single inc kept =
      rw
        (sync_trimmed_rounds-eq (kind_of asset_key) (parse_key asset_key) rounds []
          (record { service = s; id = 0 }) kept)
        (sync_asset-Synced table asset_key (news_of rounds) s single inc)
