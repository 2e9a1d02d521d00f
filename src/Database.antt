-- ===== src/Database.antt =====
-- The copy of the streams into the database: DbSyncService (packages/dbsync/src/services/
-- dbSyncService.ts), the tables of DbService (packages/utils/src/services/db-service.ts), and the
-- worker that syncs each asset from its start (packages/dbsync/src/worker.ts).
-- The database is a parameter: a row is inserted, or the insertion fails and leaves the table.
pub mod Rows
pub mod Advance
pub mod Laws
pub mod Trimmed
pub mod Complete
pub mod Tests
use faculty_auxie_mm.MagicBox.Reader.{Body, Entry, Reader, missing, malformed, parsed, entry_id}
use faculty_auxie_mm.Keys.{ParsedKey, parse_key}
use faculty_auxie_mm.Orders.{Order}
use faculty_auxie_mm.Prelude.Text.{Text, codes, text_eq, strip_prefix}
use faculty_auxie_mm.Prelude.{
  ◌≡◌, ◌∷◌, ◌++◌, if◌then◌else◌, ◌||◌, true, false, [], List, Option, Bool, ℕ, is_some, filter, ltb,
  zero, suc,
}

-- What the name of an asset says of its messages.
pub data Kind : Type 0 where
  order_books balances orders others : Kind

-- Does a text stand in another?
unfoldable pub includes_text : Text → Text → Bool
includes_text word [] = is_some (strip_prefix word [])
includes_text word (c ∷ cs) =
    let rest = includes_text word cs in is_some (strip_prefix word (c ∷ cs)) || rest

unfoldable pub kind_of : Text → Kind
unfolding includes_text
kind_of asset_key =
    if includes_text (codes "watchOrderBook") asset_key
    then order_books
    else if includes_text (codes "watchBalance") asset_key
    then balances
    else if includes_text (codes "watchOrders") asset_key
    then orders
    else others

-- One currency of a balance.
pub record Holding : Type 0 where
  pub free : ℕ
  pub used : ℕ
  pub total : ℕ

-- The keys of `balances`, of which `free`, `used` and `total` are not currencies.
pub record ClientBalance : Type 0 where
  pub timestamp : ℕ
  pub currencies : List (Text × Holding)

-- A message of each kind of stream. Of a book, only the time is read.
pub record BookTime : Type 0 where
  pub timestamp : Option ℕ
  pub datetime : Option Text

abbrev pub Message : Kind → Type 0
Message order_books = BookTime
Message balances = ClientBalance
Message orders = Order
Message others = Unit

pub data Row : Type 0 where
  -- tenant, exchange, and the order, whose id is the column orderId
  order_row : Option Text → Option Text → Order → Row
  -- tenant, exchange, symbol, and of all columns of an order those that a book has
  order_book_row : Option Text → Option Text → Option Text → BookTime → Row
  -- tenant, exchange, currency, time
  balance_row : Option Text → Option Text → Text → ℕ → Holding → Row

abbrev pub is_skipped : Text → Bool
is_skipped currency =
    text_eq currency (codes "free")
    || text_eq currency (codes "used")
    || text_eq currency (codes "total")

-- syncBalance
unfoldable pub balance_rows : ParsedKey → ℕ → List (Text × Holding) → List Row
balance_rows key timestamp [] = []
balance_rows key timestamp ((currency, holding) ∷ rest) =
    let rows = balance_rows key timestamp rest in
    if is_skipped currency
    then rows
    else balance_row key.tenant key.exchange currency timestamp holding ∷ rows

-- syncByKey, with syncOrder and syncOrderBook: the rows that a message is inserted as
unfoldable pub rows_of : (k : Kind) → ParsedKey → Message k → List Row
unfolding balance_rows
rows_of order_books key book = order_book_row key.tenant key.exchange key.symbol book ∷ []
rows_of balances key balance = balance_rows key balance.timestamp balance.currencies
rows_of orders key order = order_row key.tenant key.exchange order ∷ []
rows_of others key message = []

-- What is left of a stream whose first messages are gone.
abbrev pub trimmed : {A : Type 0} → ℕ → List A → List A
trimmed zero es = es
trimmed (suc n) [] = []
trimmed (suc n) (e ∷ es) = trimmed n es

-- `create` of the models.
pub record Table : Type 1 where
  pub State : Type 0
  pub rows : State → List Row
  pub insert : Row → State → State × Bool
  pub inserted :
      (r : Row) (s : State) → (insert r s).1 ≡ true → rows (insert r s).0 ≡ rows s ++ r ∷ []
  pub refused : (r : Row) (s : State) → (insert r s).1 ≡ false → rows (insert r s).0 ≡ rows s

module _ (table : Table) where
  -- One after the other, until one is refused.
  unfoldable pub insert_rows : List Row → table.State → table.State × Bool
  insert_rows [] s = (s, true)
  insert_rows (r ∷ rs) s =
      let (s', taken) = table.insert r s in
      let rest = insert_rows rs s' in if taken then rest else (s', false)

  module _ (k : Kind) (key : ParsedKey) where
    -- One message, and whether the loop goes on: what throws ends it. The id is moved on once all
    -- rows are inserted.
    unfoldable pub sync_body : ℕ → Body (Message k) → Reader table.State → Reader table.State × Bool
    unfolding insert_rows
    sync_body id missing r = (r, true)
    sync_body id malformed r = (r, false)
    sync_body id (parsed m) r =
        let (s, taken) = insert_rows (rows_of k key m) r.service in
        (record { service = s; id = if taken then id else r.id }, taken)

    -- The loop over the messages of one XREAD.
    unfoldable pub sync_messages :
        List (Entry (Message k)) → Reader table.State → Reader table.State
    unfolding sync_body
    sync_messages [] r = r
    sync_messages (e ∷ es) r =
        let (r', goes_on) = sync_body (entry_id e) e.body r in
        let rest = sync_messages es r' in if goes_on then rest else r'

    -- The rounds of syncAsset: at each, what stands behind the id of a stream that grows. The stream is
    -- not trimmed here.
    unfoldable pub sync_rounds :
        List (Entry (Message k))
        → List (List (Entry (Message k)))
        → Reader table.State
        → Reader table.State
    unfolding sync_messages
    sync_rounds stream [] r = r
    sync_rounds stream (new ∷ news) r =
        let stream' = stream ++ new in
        sync_rounds stream' news (sync_messages (filter (λ e. ltb r.id (entry_id e)) stream') r)

    -- The same rounds on a stream that is trimmed: each has the number of messages that are gone by
    -- then, and the new ones.
    unfoldable pub sync_trimmed_rounds :
        List (Entry (Message k))
        → List (ℕ × List (Entry (Message k)))
        → Reader table.State
        → Reader table.State
    unfolding sync_messages
    sync_trimmed_rounds stream [] r = r
    sync_trimmed_rounds stream ((gone, new) ∷ rounds) r =
        let stream' = stream ++ new in
        sync_trimmed_rounds stream' rounds
          (sync_messages (filter (λ e. ltb r.id (entry_id e)) (trimmed gone stream')) r)

  -- syncAsset from the id '0', as the worker calls it
  unfoldable pub sync_asset :
      (asset_key : Text)
      → List (List (Entry (Message (kind_of asset_key))))
      → table.State
      → Reader table.State
  unfolding sync_rounds
  sync_asset asset_key news s =
      sync_rounds (kind_of asset_key) (parse_key asset_key) [] news (record { service = s; id = 0 })

  -- syncAsset on a stream that the gatherer's worker trims
  unfoldable pub sync_trimmed_asset :
      (asset_key : Text)
      → List (ℕ × List (Entry (Message (kind_of asset_key))))
      → table.State
      → Reader table.State
  unfolding sync_trimmed_rounds
  sync_trimmed_asset asset_key rounds s =
      sync_trimmed_rounds (kind_of asset_key) (parse_key asset_key) [] rounds
        (record { service = s; id = 0 })
