-- ===== src/Gatherer/Balances/Laws.antt =====
-- The stream of balances (packages/gatherer/src/worker.ts) and the balances that the gatherer has.
use faculty_auxie_mm.Gatherer.Balances.{
  Balances, BalanceFeed, BalanceEvent, on_events, on_event, on_balances, on_changes, finish_write,
  new_feed, fetched, watched, write_done, same_as, changed,
}
use faculty_auxie_mm.Prelude.Text.{text_Eq}
use faculty_auxie_mm.Prelude.{
  ◌≡◌, ◌∷◌, ◌++◌, [], none, some, true, List, Option, Bool, refl, ◌↔◌, ◌∙◌, inl, inr, ap,
  Bool-cases, sym, append_assoc,
}

-- the last of a list that begins behind another item
abbrev pub last_of : Option Balances → List Balances → Option Balances
last_of o [] = o
last_of o (b ∷ bs) = last_of (some b) bs

last_of-append :
    (o : Option Balances) (xs ys : List Balances) → last_of o (xs ++ ys) ≡ last_of (last_of o xs) ys
last_of-append o [] ys = refl
last_of-append o (x ∷ xs) ys = last_of-append (some x) xs ys

-- The writes that are done come before those under way, and the last of them is what the
-- gatherer has.
pub record Tracks (f : BalanceFeed) : Type 0 where
  pub finished : List Balances
  pub written_is : f.written ≡ finished ++ f.writing
  pub clone_is : f.balance_clone ≡ last_of none finished

module _ (is_equal : Balances → Balances → Bool)
    (is_equal_iff : (a b : Balances) → (is_equal a b ≡ true) ↔ (a ≡ b)) where
  same_as-some : (o : Option Balances) (b : Balances) → same_as is_equal o b ≡ true → o ≡ some b
  same_as-some none b h = cc
  same_as-some (some a) b h = ap some ((is_equal_iff a b).0 h)

  on_balances-Tracks :
      (b : Balances) (f : BalanceFeed) → Tracks f → Tracks (on_balances is_equal b f)
  unfolding on_balances
  on_balances-Tracks b f k = elim (Bool-cases (same_as is_equal f.balance_clone b)) [
    | inl same ↦ simp (same) (record {
      finished = k.finished;
      written_is = k.written_is;
      clone_is = sym (same_as-some f.balance_clone b same) ∙ k.clone_is;
    })
    | inr other ↦ simp (other) (record {
      finished = k.finished;
      written_is = rw (k.written_is) (append_assoc k.finished f.writing (b ∷ []));
      clone_is = k.clone_is;
    })
  ]

  on_changes-Tracks :
      (o : Option Balances) (f : BalanceFeed) → Tracks f → Tracks (on_changes is_equal o f)
  on_changes-Tracks none f k = k
  on_changes-Tracks (some b) f k = on_balances-Tracks b f k

  finish_write-Tracks :
      (writing : List Balances) (f : BalanceFeed)
      → f.writing ≡ writing
      → Tracks f
      → Tracks (finish_write is_equal writing f)
  finish_write-Tracks [] f is k = k
  finish_write-Tracks (b ∷ bs) f is k = record {
    finished = k.finished ++ b ∷ [];
    written_is = k.written_is ∙ rw (is) (sym (append_assoc k.finished (b ∷ []) bs));
    clone_is = sym (last_of-append none k.finished (b ∷ []));
  }

  on_event-Tracks : (e : BalanceEvent) (f : BalanceFeed) → Tracks f → Tracks (on_event is_equal e f)
  unfolding on_event
  on_event-Tracks (fetched b) f k = on_balances-Tracks b f k
  on_event-Tracks (watched b) f k = on_changes-Tracks (changed is_equal f.balance_clone b) f k
  on_event-Tracks write_done f k = finish_write-Tracks f.writing f refl k

  on_events-Tracks_from :
      (es : List BalanceEvent) (f : BalanceFeed) → Tracks f → Tracks (on_events is_equal es f)
  unfolding on_events
  on_events-Tracks_from [] f k = k
  on_events-Tracks_from (e ∷ es) f k =
      on_events-Tracks_from es (on_event is_equal e f) (on_event-Tracks e f k)

  -- Whatever the two subscribers receive and however their writes overlap: the writes that are done
  -- come first in the stream, those under way follow, and the balances that the gatherer has are the
  -- last of the writes that are done.
  pub on_events-Tracks : (es : List BalanceEvent) → Tracks (on_events is_equal es new_feed)
  on_events-Tracks es =
      on_events-Tracks_from es new_feed
        (record { finished = []; written_is = refl; clone_is = refl })
