-- ===== src/Gatherer/Loop/Tests.antt =====
-- Examples of loops.
use faculty_auxie_mm.Gatherer.Loop.Laws.{watch_rounds-stopped, watch_rounds-runs}
use faculty_auxie_mm.Gatherer.Loop.{watch_rounds, Round, fresh_loop, failed, received}
use faculty_auxie_mm.Prelude.{◌≡◌, ◌∷◌, true, false, [], List, ℕ, arith}

abbrev burst : List (Round ℕ)
burst =
    failed 1000
    ∷ failed 2000
    ∷ received 7
    ∷ failed 3000
    ∷ failed 4000
    ∷ failed 5000
    ∷ failed 6000
    ∷ failed 7000
    ∷ failed 8000
    ∷ failed 9000
    ∷ failed 10000
    ∷ failed 11000
    ∷ failed 12000
    ∷ failed 13000
    ∷ received 8
    ∷ []

watch_rounds-stopped_example : (watch_rounds true burst fresh_loop).0.stopped ≡ true
watch_rounds-stopped_example = watch_rounds-stopped burst (omega arith)

abbrev sparse : List (Round ℕ)
sparse = received 7 ∷ failed 6000 ∷ failed 20000 ∷ []

watch_rounds-runs_example : (watch_rounds true (failed 1000 ∷ sparse) fresh_loop).0.stopped ≡ false
watch_rounds-runs_example = watch_rounds-runs 1000 sparse (omega arith)
