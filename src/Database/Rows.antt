-- ===== src/Database/Rows.antt =====
-- The rows of a stream's messages (packages/dbsync/src/services/dbSyncService.ts), and what one
-- message leaves in the database.
use faculty_auxie_mm.Database.{
  Kind, Message, Row, Table, rows_of, insert_rows, order_books, balances, orders, others, sync_body,
}
use faculty_auxie_mm.MagicBox.Reader.{Body, Entry, Reader, missing, malformed, parsed}
use faculty_auxie_mm.Keys.{ParsedKey}
use faculty_auxie_mm.Prelude.{
  ◌≡◌, ◌∷◌, ◌++◌, [], List, ℕ, refl, true, false, sym, inl, inr, append_assoc, append-nil,
  Bool-cases,
}

-- Is a message of this kind one row at most?
abbrev pub IsSingle : Kind → Type 0
IsSingle order_books = Unit
IsSingle balances = ⊥
IsSingle orders = Unit
IsSingle others = Unit

abbrev IsShort : {A : Type 0} → List A → Type 0
IsShort [] = Unit
IsShort (x ∷ []) = Unit
IsShort (x ∷ y ∷ zs) = ⊥

abbrev pub concat : {A : Type 0} → List (List A) → List A
concat [] = []
concat (xs ∷ xss) = xs ++ concat xss

module _ (k : Kind) (key : ParsedKey) where
  abbrev pub body_rows : Body (Message k) → List Row
  body_rows missing = []
  body_rows malformed = []
  body_rows (parsed m) = rows_of k key m

  -- The rows of all messages of a stream, in its order.
  unfoldable pub stream_rows : List (Entry (Message k)) → List Row
  stream_rows [] = []
  stream_rows (e ∷ es) = body_rows e.body ++ stream_rows es

  pub stream_rows-append :
      (xs ys : List (Entry (Message k))) → stream_rows (xs ++ ys) ≡ stream_rows xs ++ stream_rows ys
  unfolding stream_rows
  stream_rows-append [] ys = refl
  stream_rows-append (x ∷ xs) ys =
      rw (stream_rows-append xs ys)
        (sym (append_assoc (body_rows x.body) (stream_rows xs) (stream_rows ys)))

module _ (table : Table) where
  pub insert_rows-taken :
      (rs : List Row) (s : table.State)
      → (insert_rows table rs s).1 ≡ true
      → table.rows (insert_rows table rs s).0 ≡ table.rows s ++ rs
  unfolding insert_rows
  insert_rows-taken [] s h = sym (append-nil (table.rows s))
  insert_rows-taken (r ∷ rs) s h = elim (Bool-cases (table.insert r s).1) [
    | inl taken ↦
        let tail : (insert_rows table rs (table.insert r s).0).1 ≡ true = rw (taken) at h in
        rw (taken, insert_rows-taken rs (table.insert r s).0 tail, table.inserted r s taken)
          (append_assoc (table.rows s) (r ∷ []) rs)
    | inr other ↦ cc
  ]

  module _ (k : Kind) (key : ParsedKey) where
    -- A message of one row at most is inserted with it, or not at all.
    insert_one :
        (rs : List Row) (s : table.State)
        → (short : IsShort rs) → (insert_rows table rs s).1 ≡ false
        → table.rows (insert_rows table rs s).0 ≡ table.rows s
    unfolding insert_rows
    insert_one [] s short h = refl
    insert_one (r ∷ []) s short h = elim (Bool-cases (table.insert r s).1) [
      | inl taken ↦ let bad : true ≡ false = rw (taken) at h in cc
      | inr other ↦ rw (other) (table.refused r s other)
    ]
    insert_one (r ∷ q ∷ rs) s short h = elim short [ ]

    rows_of-IsShort : (k : Kind) → IsSingle k → (m : Message k) → IsShort (rows_of k key m)
    unfolding rows_of
    rows_of-IsShort order_books single m = tt
    rows_of-IsShort balances single m = elim single [ ]
    rows_of-IsShort orders single m = tt
    rows_of-IsShort others single m = tt

    pub sync_body_went_on :
        (id : ℕ) (b : Body (Message k)) (r : Reader table.State)
        → (sync_body table k key id b r).1 ≡ true
        → (table.rows (sync_body table k key id b r).0.service
            ≡ table.rows r.service ++ body_rows k key b)
    unfolding sync_body
    sync_body_went_on id missing r h = sym (append-nil (table.rows r.service))
    sync_body_went_on id malformed r h = cc
    sync_body_went_on id (parsed m) r h = insert_rows-taken (rows_of k key m) r.service h

    pub sync_body_stopped :
        IsSingle k
        → (id : ℕ) (b : Body (Message k)) (r : Reader table.State)
        → (sync_body table k key id b r).1 ≡ false
        → (table.rows (sync_body table k key id b r).0.service ≡ table.rows r.service)
          × ((sync_body table k key id b r).0.id ≡ r.id)
    unfolding sync_body
    sync_body_stopped single id missing r h = cc
    sync_body_stopped single id malformed r h = (refl, refl)
    sync_body_stopped single id (parsed m) r h =
        (insert_one (rows_of k key m) r.service (rows_of-IsShort k single m) h, rw (h) refl)
