-- ===== src/Gatherer/Loop/Laws.antt =====
-- When a loop gives up, and what a polling loop asks for.
use faculty_auxie_mm.Gatherer.Loop.{
  watch_rounds, ms_offset_between_errors, Round, received, Loop, nothing, watch_round, ltb, failed,
  on_error, fresh_loop,
}
use faculty_auxie_mm.Prelude.{
  ◌≡◌, ◌∷◌, ◌+◌, ◌-◌, ◌≤◌, ◌<◌, some, true, false, refl, [], List, ℕ, arith, ltb, length,
  Bool-cases, ◌∙◌, inl, inr,
}

-- Errors none of which comes five seconds or more after the one before.
abbrev pub IsBurstAfter : ℕ → List ℕ → Type 0
IsBurstAfter t [] = Unit
IsBurstAfter t (u ∷ ts) = (0 < u) × (u < t + ms_offset_between_errors) × IsBurstAfter u ts

abbrev pub IsBurst : List ℕ → Type 0
IsBurst [] = Unit
IsBurst (t ∷ ts) = (0 < t) × IsBurstAfter t ts

on_error_quits :
    (u : ℕ) (s : Loop) → ltb 10 s.error_count ≡ true → on_error u s ≡ record s { stopped = true }
unfolding on_error
on_error_quits u s h = rw h

on_error_counts :
    (u t : ℕ) (s : Loop)
    → ltb 10 s.error_count ≡ false
    → s.last_error ≡ some t
    → 0 < t
    → u < t + ms_offset_between_errors
    → on_error u s ≡ record s { error_count = s.error_count + 1; last_error = some u }
unfolding on_error
on_error_counts u t s h e p b = ground arith

first_error : (u : ℕ) → on_error u fresh_loop ≡ record fresh_loop { last_error = some u }
unfolding on_error
first_error u = refl

-- Errors five seconds or more apart never stop a loop.
abbrev pub IsSparse : ℕ → List ℕ → Type 0
IsSparse t [] = Unit
IsSparse t (u ∷ ts) = (t + ms_offset_between_errors ≤ u) × IsSparse u ts

on_error_resets :
    (u t : ℕ) (s : Loop)
    → s.error_count ≡ 0
    → s.last_error ≡ some t
    → t + ms_offset_between_errors ≤ u
    → on_error u s ≡ record s { error_count = 0; last_error = some u }
unfolding on_error
on_error_resets u t s c e b = ground arith

module _ {A : Type 0} where
  -- the times of the rounds that failed
  abbrev pub failures : List (Round A) → List ℕ
  failures [] = []
  failures (received a ∷ rs) = failures rs
  failures (nothing now ∷ rs) = failures rs
  failures (failed now ∷ rs) = now ∷ failures rs

  stays_stopped :
      (rs : List (Round A)) (s : Loop) → s.stopped ≡ true → (watch_rounds true rs s).0 ≡ s
  unfolding watch_rounds
  stays_stopped [] s h = refl
  stays_stopped (r ∷ rs) s h = rw h

  runs_on :
      (r : Round A) (rs : List (Round A)) (s : Loop)
      → s.stopped ≡ false
      → (watch_rounds true (r ∷ rs) s).0 ≡ (watch_rounds true rs (watch_round r s).0).0
  unfolding watch_rounds
  runs_on r rs s h = rw h

  stopped_after :
      (rs : List (Round A)) (s : Loop) (t : ℕ)
      → s.stopped ≡ false
      → s.last_error ≡ some t
      → 0 < t
      → s.error_count ≤ 11
      → IsBurstAfter t (failures rs)
      → (watch_rounds true rs s).0.stopped ≡ ltb (11 - s.error_count) (length (failures rs))
  unfolding watch_rounds
  stopped_after [] s t h e p c b = ground arith
  stopped_after (received a ∷ rs) s t h e p c b =
      rw (runs_on (received a) rs s h) (stopped_after rs s t h e p c b)
  stopped_after (nothing now ∷ rs) s t h e p c b =
      rw (runs_on (nothing now) rs s h) (stopped_after rs s t h e p c b)
  stopped_after (failed u ∷ rs) s t h e p c b =
      rw (runs_on (failed u) rs s h) (elim (Bool-cases (ltb 10 s.error_count)) [
        | inl full ↦
            rw (on_error_quits u s full)
              (rw (stays_stopped rs (record s { stopped = true }) refl) (ground arith))
        | inr below ↦ rw (on_error_counts u t s below e p b.1) (
            stopped_after rs (record s { error_count = s.error_count + 1; last_error = some u }) u h
              refl b.0 (ground arith) b.2
            ∙ ground arith)
      ])

  -- A watching loop whose errors form one burst stops at its thirteenth error and not before:
  -- whatever data comes in between, since only the distance of two errors resets the count.
  pub watch_rounds-stopped :
      (rs : List (Round A))
      → IsBurst (failures rs)
      → (watch_rounds true rs fresh_loop).0.stopped ≡ ltb 12 (length (failures rs))
  unfolding watch_rounds
  watch_rounds-stopped [] b = refl
  watch_rounds-stopped (received a ∷ rs) b = watch_rounds-stopped rs b
  watch_rounds-stopped (nothing now ∷ rs) b = watch_rounds-stopped rs b
  watch_rounds-stopped (failed u ∷ rs) b = rw (runs_on (failed u) rs fresh_loop refl) (
      rw (first_error u) (
        stopped_after rs (record fresh_loop { last_error = some u }) u refl refl b.0 (omega arith)
          b.1
        ∙ ground arith))

  runs_after :
      (rs : List (Round A)) (s : Loop) (t : ℕ)
      → s.stopped ≡ false
      → s.error_count ≡ 0
      → s.last_error ≡ some t
      → IsSparse t (failures rs)
      → (watch_rounds true rs s).0.stopped ≡ false
  unfolding watch_rounds
  runs_after [] s t h c e b = h
  runs_after (received a ∷ rs) s t h c e b =
      rw (runs_on (received a) rs s h) (runs_after rs s t h c e b)
  runs_after (nothing now ∷ rs) s t h c e b =
      rw (runs_on (nothing now) rs s h) (runs_after rs s t h c e b)
  runs_after (failed u ∷ rs) s t h c e b = rw (runs_on (failed u) rs s h) (
      rw (on_error_resets u t s c e b.0)
        (runs_after rs (record s { error_count = 0; last_error = some u }) u h refl refl b.1))

  -- A watching loop whose errors come five seconds or more apart is never left by its `break`.
  pub watch_rounds-runs :
      (t : ℕ) (rs : List (Round A))
      → IsSparse t (failures rs)
      → (watch_rounds true (failed t ∷ rs) fresh_loop).0.stopped ≡ false
  watch_rounds-runs t rs b = rw (runs_on (failed t) rs fresh_loop refl) (
      unfold watch_round in
      rw (first_error t)
        (runs_after rs (record fresh_loop { last_error = some t }) t refl refl refl b))
