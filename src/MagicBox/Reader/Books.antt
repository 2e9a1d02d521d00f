-- ===== src/MagicBox/Reader/Books.antt =====
-- The reader of an order book's two streams, over everything that was written to them. A log is what
-- was written to either stream, in the order of the ids.
use faculty_auxie_mm.Prelude.Dict.{insert}
use faculty_auxie_mm.MagicBox.Reader.Laws.{behind}
use faculty_auxie_mm.MagicBox.Cache.Laws.{slot_of-push_self}
use faculty_auxie_mm.MagicBox.OrderBooks.{
  handle_order_book_message, push_book, apply_to_slot, apply_deltas,
}
use faculty_auxie_mm.MagicBox.Cache.{DataStreamService, slot_of}
use faculty_auxie_mm.Book.{Level, OrderBook, level_Eq}
use faculty_auxie_mm.Book.Message.{BookMessage, snapshot, deltas, Deltas}
use faculty_auxie_mm.Prelude.Text.{Text, text_Eq}
use faculty_auxie_mm.Book.Lodash.{Lodash}
use faculty_auxie_mm.MagicBox.Reader.{Entry, entry_id, parsed, Reader, read_streams}
use faculty_auxie_mm.Prelude.{
  ◌≡◌, ◌∷◌, ◌<◌, none, some, true, false, refl, zero, suc, [], List, Option, Bool, ℕ, arith, not,
  head?, take, map,
}

pub record Logged : Type 0 where
  pub timestamp : ℕ
  pub sequence : ℕ
  pub message : BookMessage

abbrev pub written : Logged → Entry BookMessage
written e = record { timestamp = e.timestamp; sequence = e.sequence; body = parsed e.message }

abbrev pub logged_id : Logged → ℕ
logged_id e = entry_id (written e)

abbrev pub is_snapshot : Logged → Bool
is_snapshot e = elim e.message [ snapshot book local symbol ↦ true | deltas d ↦ false ]

abbrev pub is_deltas : Logged → Bool
is_deltas e = not (is_snapshot e)

-- The book that a log amounts to, message by message.
abbrev pub replay_message : Lodash Level → BookMessage → Option OrderBook → Option OrderBook
replay_message l (snapshot book local symbol) b = some book
replay_message l (deltas d) none = none
replay_message l (deltas d) (some b) = some (apply_deltas l b d)

abbrev pub replay : Lodash Level → List Logged → Option OrderBook → Option OrderBook
replay l [] b = b
replay l (e ∷ es) b = replay l es (replay_message l e.message b)

-- `now`, the clock of each message, only decides what the subscribers are told.
module _ (l : Lodash Level) (now : ℕ) (key : Text) where
  -- handleOrderBookMessage as the reader calls it
  unfoldable pub handle_book :
      ℕ → BookMessage → DataStreamService OrderBook → DataStreamService OrderBook
  handle_book timestamp m s = (handle_order_book_message l now key (some m) s).service

  -- XREAD of both streams and the round that it leads to
  unfoldable pub round :
      List Logged → Reader (DataStreamService OrderBook) → Reader (DataStreamService OrderBook)
  round log r =
      read_streams handle_book
        (map written (behind logged_id is_deltas r.id log)
          ∷ map written (behind logged_id is_snapshot r.id log)
          ∷ [])
        r

abbrev pub newest_book : Text → DataStreamService OrderBook → Option OrderBook
newest_book key s = head? (slot_of s key)

-- The reader's cached book and its id.
pub record Holds (key : Text) (b : Option OrderBook) (id : ℕ)
    (r : Reader (DataStreamService OrderBook)) : Type 0 where
  pub room : 0 < r.service.cache_size
  pub newest_is : newest_book key r.service ≡ b
  pub id_is : r.id ≡ id

head?-take :
    (n : ℕ) (b : OrderBook) (older : List OrderBook) → 0 < n → head? (take n (b ∷ older)) ≡ some b
head?-take zero b older h = absurd (omega arith)
head?-take (suc n) b older h = refl

-- `now`, the clock of each message, only decides what the subscribers are told.
module _ (l : Lodash Level) (now : ℕ) (key : Text) where
  push_book-newest :
      (book : OrderBook) (ts : Option ℕ) (s : DataStreamService OrderBook)
      → 0 < s.cache_size
      → newest_book key (push_book now key book ts s).service ≡ some book
  push_book-newest book ts s h =
      rw (slot_of-push_self now key book ts false none s)
        (head?-take s.cache_size book (slot_of s key) h)

  apply_to_slot-newest :
      (d : Deltas) (slot : List OrderBook) (s : DataStreamService OrderBook)
      → 0 < s.cache_size
      → slot_of s key ≡ slot
      → newest_book key (apply_to_slot l now key d slot s).service
        ≡ replay_message l (deltas d) (head? slot)
  unfolding apply_to_slot
  apply_to_slot-newest d [] s h e = rw e refl
  apply_to_slot-newest d (b ∷ older) s h e =
      let b' = apply_deltas l b d in
      push_book-newest b' (some d.timestamp) (record s { cache = insert key (b' ∷ older) s.cache })
        h

  pub handle_book-newest :
      (ts : ℕ) (m : BookMessage) (s : DataStreamService OrderBook)
      → 0 < s.cache_size
      → newest_book key (handle_book l now key ts m s) ≡ replay_message l m (newest_book key s)
  unfolding handle_book handle_order_book_message
  handle_book-newest ts (snapshot book local symbol) s h = push_book-newest book book.timestamp s h
  handle_book-newest ts (deltas d) s h = apply_to_slot-newest d (slot_of s key) s h refl
