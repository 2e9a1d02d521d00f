-- ===== src/MagicBox/Worker/Laws.antt =====
-- Which readers a worker of the magicbox (packages/magicbox/src/worker.ts) starts.
use faculty_auxie_mm.MagicBox.Cache.{DataStreamService}
use faculty_auxie_mm.MagicBox.Handlers.{get_observable}
use faculty_auxie_mm.MagicBox.Worker.{
  MagicBoxSubscription, Subscribed, watched_key, subscribe_key, subscribe_all, nothing_subscribed,
}
use faculty_auxie_mm.Prelude.Count.{count, contains, count-append}
use faculty_auxie_mm.Prelude.Text.{Text, text_eq, text_Eq, text_eq_iff}
use faculty_auxie_mm.Prelude.{
  ◌≡◌, ◌∷◌, ◌++◌, ◌||◌, [], none, some, true, false, List, Option, refl, if◌then◌else◌, arith, any,
  Bool-cases, inl, inr, ap,
}

-- a key in front of others, where there is one
abbrev pub with_key : Option Text → List Text → List Text
with_key none keys = keys
with_key (some key) keys = key ∷ keys

abbrev pub watched_keys : Text → List MagicBoxSubscription → List Text
watched_keys tenant [] = []
watched_keys tenant (r ∷ records) = with_key (watched_key tenant r) (watched_keys tenant records)

any_same :
    (k key : Text) (keys : List Text)
    → text_eq k key ≡ true
    → any (text_eq k) keys ≡ any (text_eq key) keys
any_same k key keys h = ap (λ t. any (text_eq t) keys) ((text_eq_iff k key).0 h)

pub contains-with_key :
    (o : Option Text) (keys : List Text) (k : Text)
    → contains (with_key o keys) k ≡ contains (with_key o []) k || contains keys k
contains-with_key none keys k = ground arith
contains-with_key (some key) keys k = ground arith

any-append :
    (k key : Text) (keys : List Text)
    → any (text_eq k) (keys ++ key ∷ []) ≡ any (text_eq k) keys || text_eq k key
any-append k key [] = ground arith
any-append k key (j ∷ keys) = ground (arith, any-append k key keys)

module _ {V : Type 0} where
  -- One reader runs for each subject.
  abbrev IsRead : Subscribed V → Type 0
  IsRead w =
      (k : Text) → count k w.readers ≡ (if any (text_eq k) w.service.observables then 1 else 0)

  subscribe_key-observables :
      (o : Option Text) (r : MagicBoxSubscription) (w : Subscribed V) (k : Text)
      → any (text_eq k) (subscribe_key o r w).service.observables
        ≡ any (text_eq k) w.service.observables || contains (with_key o []) k
  unfolding get_observable
  subscribe_key-observables none r w k = ground arith
  subscribe_key-observables (some key) r w k =
      elim (Bool-cases (any (text_eq key) w.service.observables)) [
        | inl old ↦ rw old (ground (arith, old, any_same k key w.service.observables))
        | inr new ↦ rw new (ground (arith, any-append k key w.service.observables))
      ]

  subscribe_key-IsRead :
      (o : Option Text) (r : MagicBoxSubscription) (w : Subscribed V)
      → IsRead w
      → IsRead (subscribe_key o r w)
  unfolding get_observable
  subscribe_key-IsRead none r w h k = h k
  subscribe_key-IsRead (some key) r w h k =
      elim (Bool-cases (any (text_eq key) w.service.observables)) [
        | inl old ↦ rw old (h k)
        | inr new ↦ rw new (
            ground (
              arith,
              new,
              h k,
              any_same k key w.service.observables,
              any-append k key w.service.observables,
              count-append k w.readers (key ∷ []),
            ))
      ]

  subscribe_all-observables :
      (tenant : Text) (records : List MagicBoxSubscription) (w : Subscribed V) (k : Text)
      → any (text_eq k) (subscribe_all tenant records w).service.observables
        ≡ any (text_eq k) w.service.observables || contains (watched_keys tenant records) k
  unfolding subscribe_all
  subscribe_all-observables tenant [] w k = ground arith
  subscribe_all-observables tenant (r ∷ records) w k =
      let o : Option Text = watched_key tenant r in
      ground (
        arith,
        subscribe_all-observables tenant records (subscribe_key o r w) k,
        subscribe_key-observables o r w k,
        contains-with_key o (watched_keys tenant records) k,
      )

  subscribe_all-IsRead :
      (tenant : Text) (records : List MagicBoxSubscription) (w : Subscribed V)
      → IsRead w
      → IsRead (subscribe_all tenant records w)
  unfolding subscribe_all
  subscribe_all-IsRead tenant [] w h = h
  subscribe_all-IsRead tenant (r ∷ records) w h =
      subscribe_all-IsRead tenant records (subscribe_key (watched_key tenant r) r w)
        (subscribe_key-IsRead (watched_key tenant r) r w h)

  -- A worker that starts afresh starts one reader for each subject that its records subscribe to,
  -- however many of them share it, and no other.
  pub count-subscribe_all :
      (tenant : Text) (records : List MagicBoxSubscription) (s : DataStreamService V) (k : Text)
      → s.observables ≡ []
      → count k (subscribe_all tenant records (nothing_subscribed s)).readers
        ≡ (if contains (watched_keys tenant records) k then 1 else 0)
  count-subscribe_all tenant records s k h =
      let w : Subscribed V = nothing_subscribed s in
      let fresh : any (text_eq k) s.observables ≡ false = ap (any (text_eq k)) h in
      ground (
        arith,
        fresh,
        subscribe_all-IsRead tenant records w (λ j. rw (ap (any (text_eq j)) h) refl) k,
        subscribe_all-observables tenant records w k,
      )
