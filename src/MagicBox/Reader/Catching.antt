-- ===== src/MagicBox/Reader/Catching.antt =====
-- The reader of an order book catches up with the log: it reads the deltas' stream before that of the
-- snapshots, and then goes back to what was written after the last snapshot.
use faculty_auxie_mm.MagicBox.Reader.Split.{filter-last_snapshot}
use faculty_auxie_mm.Prelude.Dict.{insert}
use faculty_auxie_mm.MagicBox.Cache.Laws.{cache_size-push}
use faculty_auxie_mm.MagicBox.Reader.Laws.{
  behind, last_id, IsIncreasing, behind-append, last_id-append,
}
use faculty_auxie_mm.MagicBox.Cache.{DataStreamService, slot_of}
use faculty_auxie_mm.MagicBox.OrderBooks.{handle_order_book_message, apply_to_slot, apply_deltas}
use faculty_auxie_mm.MagicBox.Reader.{read_messages, Reader, read_streams, none}
use faculty_auxie_mm.Prelude.Text.{Text, text_Eq}
use faculty_auxie_mm.Book.Message.{BookMessage, snapshot, deltas, Deltas}
use faculty_auxie_mm.MagicBox.Reader.Books.{
  Logged, handle_book, round, replay, is_snapshot, replay_message, Holds, written, logged_id,
  is_deltas, handle_book-newest,
}
use faculty_auxie_mm.Book.{Level, OrderBook, level_Eq}
use faculty_auxie_mm.Book.Lodash.{Lodash}
use faculty_auxie_mm.Prelude.{
  ◌≡◌, ◌∷◌, ◌++◌, ◌∙◌, true, refl, [], List, Option, ℕ, sym, map, ap, none, some, false, filter,
}

module _ (l : Lodash Level) where
  replay-append :
      (xs ys : List Logged) (b : Option OrderBook)
      → replay l (xs ++ ys) b ≡ replay l ys (replay l xs b)
  replay-append [] ys b = refl
  replay-append (x ∷ xs) ys b = replay-append xs ys (replay_message l x.message b)

  snapshot_resets :
      (m : BookMessage) (t q : ℕ) (b c : Option OrderBook)
      → is_snapshot (record { timestamp = t; sequence = q; message = m }) ≡ true
      → replay_message l m b ≡ replay_message l m c
  snapshot_resets (snapshot book local symbol) t q b c h = refl
  snapshot_resets (deltas d) t q b c h = cc

  replay-snapshot :
      (xs ys : List Logged) (s : Logged) (b c : Option OrderBook)
      → is_snapshot s ≡ true
      → replay l (xs ++ s ∷ []) b ≡ replay l (ys ++ s ∷ []) c
  replay-snapshot xs ys s b c h =
      replay-append xs (s ∷ []) b
      ∙ snapshot_resets s.message s.timestamp s.sequence (replay l xs b) (replay l ys c) h
      ∙ sym (replay-append ys (s ∷ []) c)

module _ (l : Lodash Level) (now : ℕ) (key : Text) where
  apply_to_slot-room :
      (d : Deltas) (slot : List OrderBook) (s : DataStreamService OrderBook)
      → (apply_to_slot l now key d slot s).service.cache_size ≡ s.cache_size
  unfolding apply_to_slot
  apply_to_slot-room d [] s = refl
  apply_to_slot-room d (b ∷ older) s =
      let b' = apply_deltas l b d in
      cache_size-push {I = Unit} now key b' (some d.timestamp) false none
        (record s { cache = insert key (b' ∷ older) s.cache })

  handle_book-room :
      (ts : ℕ) (m : BookMessage) (s : DataStreamService OrderBook)
      → (handle_book l now key ts m s).cache_size ≡ s.cache_size
  unfolding handle_book handle_order_book_message
  handle_book-room ts (snapshot book local symbol) s =
      cache_size-push {I = Unit} now key book book.timestamp false none s
  handle_book-room ts (deltas d) s = apply_to_slot-room d (slot_of s key) s

  -- Messages that can be parsed are all handled.
  read_messages-Holds :
      (es : List Logged) (b : Option OrderBook) (id : ℕ) (r : Reader (DataStreamService OrderBook))
      → Holds key b id r
      → ((read_messages (handle_book l now key) (map written es) r).1 ≡ true)
        × Holds key
            (replay l es b)
            (last_id logged_id id es)
            (read_messages (handle_book l now key) (map written es) r).0
  unfolding read_messages
  read_messages-Holds [] b id r h = (refl, h)
  read_messages-Holds (e ∷ es) b id r h =
      let m = e.message in
      let s = handle_book l now key e.timestamp m r.service in
      read_messages-Holds es (replay_message l m b) (logged_id e)
        (record { service = s; id = logged_id e })
        (record {
          room = rw (handle_book-room e.timestamp m r.service) h.room;
          newest_is =
              handle_book-newest l now key e.timestamp m r.service h.room
              ∙ ap (replay_message l m) h.newest_is;
          id_is = refl;
        })

  -- One round handles the deltas behind the reader's id and then the snapshots.
  round-Holds :
      (log : List Logged) (b : Option OrderBook) (id : ℕ) (r : Reader (DataStreamService OrderBook))
      → Holds key b id r
      → let ds = behind logged_id is_deltas r.id log in
        let ss = behind logged_id is_snapshot r.id log in
        Holds key
          (replay l ss (replay l ds b))
          (last_id logged_id (last_id logged_id id ds) ss)
          (round l now key log r)
  unfolding round read_streams
  round-Holds log b id r h =
      let ds = behind logged_id is_deltas r.id log in
      let ss = behind logged_id is_snapshot r.id log in
      let first = read_messages-Holds ds b id r h in
      let second =
        read_messages-Holds ss (replay l ds b) (last_id logged_id id ds)
          (read_messages (handle_book l now key) (map written ds) r).0 first.1 in
      rw (first.0, second.0) second.1

module _ (l : Lodash Level) (now : ℕ) (key : Text) where
  -- A round over a log whose unseen part is known by its deltas and its snapshots.
  round-append :
      (seen unseen : List Logged) (r : Reader (DataStreamService OrderBook))
      → IsIncreasing logged_id 0 (seen ++ unseen)
      → Holds key (replay l seen none) (last_id logged_id 0 seen) r
      → let ds = filter is_deltas unseen in
        let ss = filter is_snapshot unseen in
        Holds key
          (replay l ss (replay l ds (replay l seen none)))
          (last_id logged_id (last_id logged_id (last_id logged_id 0 seen) ds) ss)
          (round l now key (seen ++ unseen) r)
  round-append seen unseen r inc h =
      let log = seen ++ unseen in
      let ed : behind logged_id is_deltas r.id log ≡ filter is_deltas unseen =
        rw h.id_is (behind-append logged_id is_deltas 0 seen unseen inc) in
      let es : behind logged_id is_snapshot r.id log ≡ filter is_snapshot unseen =
        rw h.id_is (behind-append logged_id is_snapshot 0 seen unseen inc) in
      rw (ed, es) at (round-Holds l now key log (replay l seen none) (last_id logged_id 0 seen) r h)

  -- With no snapshot ahead, a round reads everything.
  pub round_deltas :
      (seen unseen : List Logged) (r : Reader (DataStreamService OrderBook))
      → IsIncreasing logged_id 0 (seen ++ unseen)
      → Holds key (replay l seen none) (last_id logged_id 0 seen) r
      → filter is_snapshot unseen ≡ []
      → filter is_deltas unseen ≡ unseen
      → Holds key
          (replay l (seen ++ unseen) none)
          (last_id logged_id 0 (seen ++ unseen))
          (round l now key (seen ++ unseen) r)
  round_deltas seen unseen r inc h none_left same =
      rw (replay-append l seen unseen none, last_id-append logged_id 0 seen unseen)
        (rw (none_left, same) at (round-append seen unseen r inc h))

  -- With snapshots ahead, a round ends at the last of them.
  pub round_snapshot :
      (seen older newer : List Logged) (s : Logged) (r : Reader (DataStreamService OrderBook))
      → IsIncreasing logged_id 0 (seen ++ (older ++ s ∷ newer))
      → Holds key (replay l seen none) (last_id logged_id 0 seen) r
      → is_snapshot s ≡ true
      → filter is_snapshot newer ≡ []
      → Holds key
          (replay l (seen ++ older ++ s ∷ []) none)
          (last_id logged_id 0 (seen ++ older ++ s ∷ []))
          (round l now key (seen ++ (older ++ s ∷ newer)) r)
  round_snapshot seen older newer s r inc h is none_left =
      let ss = filter is_snapshot older in
      let e : filter is_snapshot (older ++ s ∷ newer) ≡ ss ++ s ∷ [] =
        filter-last_snapshot older s newer is none_left in
      let after = rw e at (round-append seen (older ++ s ∷ newer) r inc h) in
      let first_id =
        last_id logged_id (last_id logged_id 0 seen) (filter is_deltas (older ++ s ∷ newer)) in
      let ends_alike : last_id logged_id first_id (ss ++ s ∷ [])
          ≡ last_id logged_id 0 (seen ++ older ++ s ∷ []) =
        last_id-append logged_id first_id ss (s ∷ [])
        ∙ sym (last_id-append logged_id 0 (seen ++ older) (s ∷ [])) in
      record {
        room = after.room;
        newest_is =
            after.newest_is
            ∙ replay-snapshot l ss (seen ++ older) s
                (replay l (filter is_deltas (older ++ s ∷ newer)) (replay l seen none)) none is;
        id_is = after.id_is ∙ ends_alike;
      }
