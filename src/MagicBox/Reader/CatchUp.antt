-- ===== src/MagicBox/Reader/CatchUp.antt =====
-- What a reader has read of a log that grows between its rounds, and that it catches up.
use faculty_auxie_mm.MagicBox.Reader.Catching.{round_deltas, round_snapshot}
use faculty_auxie_mm.MagicBox.Reader.Split.{split, all_deltas, last_snapshot}
use faculty_auxie_mm.MagicBox.Cache.{DataStreamService}
use faculty_auxie_mm.MagicBox.Reader.{Reader, new_reader}
use faculty_auxie_mm.MagicBox.Reader.Laws.{IsIncreasing, last_id, IsIncreasing-prefix}
use faculty_auxie_mm.Prelude.Text.{Text}
use faculty_auxie_mm.MagicBox.Reader.Books.{
  Logged, logged_id, Holds, round, newest_book, replay, is_snapshot, is_deltas,
}
use faculty_auxie_mm.Book.{Level, OrderBook, level_Eq}
use faculty_auxie_mm.Book.Lodash.{Lodash}
use faculty_auxie_mm.Prelude.{
  ◌≡◌, ◌∷◌, ◌++◌, ◌<◌, ◌∙◌, none, refl, [], List, ℕ, filter, ap, append_assoc, sym, append-nil,
}

-- The reader's book and its id are those of a first part of the log.
pub record HasRead (l : Lodash Level) (key : Text) (log : List Logged)
    (r : Reader (DataStreamService OrderBook)) : Type 0 where
  pub seen : List Logged
  pub unseen : List Logged
  pub log_is : log ≡ seen ++ unseen
  pub holds : Holds key (replay l seen none) (last_id logged_id 0 seen) r

-- It has also read every snapshot.
record IsSettled (l : Lodash Level) (key : Text) (log : List Logged)
    (r : Reader (DataStreamService OrderBook)) : Type 0 where
  has_read : HasRead l key log r
  none_left : filter is_snapshot has_read.unseen ≡ []
  deltas_left : filter is_deltas has_read.unseen ≡ has_read.unseen

module _ (l : Lodash Level) (now : ℕ) (key : Text) where
  settled-round :
      (log : List Logged) (r : Reader (DataStreamService OrderBook))
      → IsIncreasing logged_id 0 log
      → (h : HasRead l key log r) → filter is_snapshot h.unseen ≡ []
      → filter is_deltas h.unseen ≡ h.unseen
      → Holds key (replay l log none) (last_id logged_id 0 log) (round l now key log r)
  settled-round log r inc h none_left same =
      rw h.log_is
        (round_deltas l now key h.seen h.unseen r (rw h.log_is at inc) h.holds none_left same)

  -- After any round every snapshot has been read.
  round-IsSettled :
      (log : List Logged) (r : Reader (DataStreamService OrderBook))
      → IsIncreasing logged_id 0 log
      → HasRead l key log r
      → IsSettled l key log (round l now key log r)
  round-IsSettled log r inc h = elim (split h.unseen) [
    | all_deltas none_left same ↦ record {
      has_read = record {
        seen = log;
        unseen = [];
        log_is = sym (append-nil log);
        holds = settled-round log r inc h none_left same;
      };
      none_left = refl;
      deltas_left = refl;
    }
    | last_snapshot older s newer eq is none_left same ↦
        let log_is : log ≡ h.seen ++ (older ++ s ∷ newer) = h.log_is ∙ ap (λ t. h.seen ++ t) eq in
        record {
          has_read = record {
            seen = h.seen ++ older ++ s ∷ [];
            unseen = newer;
            log_is =
                log_is
                ∙ sym (append_assoc h.seen older (s ∷ newer))
                ∙ sym (append_assoc (h.seen ++ older) (s ∷ []) newer);
            holds = rw log_is (
                round_snapshot l now key h.seen older newer s r (rw log_is at inc) h.holds is
                  none_left);
          };
          none_left = none_left;
          deltas_left = same;
        }
  ]

  HasRead-append :
      (log new : List Logged) (r : Reader (DataStreamService OrderBook))
      → HasRead l key log r
      → HasRead l key (log ++ new) r
  HasRead-append log new r h = record {
    seen = h.seen;
    unseen = h.unseen ++ new;
    log_is = ap (λ t. t ++ new) h.log_is ∙ append_assoc h.seen h.unseen new;
    holds = h.holds;
  }

  -- A round for each part by which the log grows.
  unfoldable pub rounds :
      List Logged
      → List (List Logged)
      → Reader (DataStreamService OrderBook)
      → Reader (DataStreamService OrderBook)
  rounds log [] r = r
  rounds log (new ∷ news) r = rounds (log ++ new) news (round l now key (log ++ new) r)

abbrev pub whole : List Logged → List (List Logged) → List Logged
whole log [] = log
whole log (new ∷ news) = whole (log ++ new) news

IsIncreasing-whole :
    (log : List Logged) (news : List (List Logged))
    → IsIncreasing logged_id 0 (whole log news)
    → IsIncreasing logged_id 0 log
IsIncreasing-whole log [] h = h
IsIncreasing-whole log (new ∷ news) h =
    IsIncreasing-prefix logged_id 0 log new (IsIncreasing-whole (log ++ new) news h)

module _ (l : Lodash Level) (now : ℕ) (key : Text) where
  rounds-HasRead :
      (log : List Logged) (news : List (List Logged)) (r : Reader (DataStreamService OrderBook))
      → IsIncreasing logged_id 0 (whole log news)
      → HasRead l key log r
      → HasRead l key (whole log news) (rounds l now key log news r)
  unfolding rounds
  rounds-HasRead log [] r inc h = h
  rounds-HasRead log (new ∷ news) r inc h =
      rounds-HasRead (log ++ new) news (round l now key (log ++ new) r) inc
        (round-IsSettled l now key (log ++ new) r (IsIncreasing-whole (log ++ new) news inc)
          (HasRead-append l now key log new r h)).has_read

  -- However the writes to the two streams fall between the rounds of a reader that starts without a
  -- cached book, two more rounds after the last write leave in its cache the book that all messages
  -- amount to in the order of their ids: for ids that increase strictly, also across the streams, and
  -- a cache with room for at least one version.
  pub newest_book-rounds :
      (news : List (List Logged)) (s : DataStreamService OrderBook)
      → 0 < s.cache_size
      → newest_book key s ≡ none
      → IsIncreasing logged_id 0 (whole [] news)
      → let log = whole [] news in
        let r = rounds l now key [] news (new_reader s) in
        newest_book key (round l now key log (round l now key log r)).service ≡ replay l log none
  newest_book-rounds news s room fresh inc =
      let log = whole [] news in
      let r = rounds l now key [] news (new_reader s) in
      let start : HasRead l key [] (new_reader s) = record {
        seen = [];
        unseen = [];
        log_is = refl;
        holds = record { room = room; newest_is = fresh; id_is = refl };
      } in
      let settled =
        round-IsSettled l now key log r inc (rounds-HasRead [] news (new_reader s) inc start) in
      (settled-round l now key log (round l now key log r) inc settled.has_read settled.none_left
        settled.deltas_left).newest_is
