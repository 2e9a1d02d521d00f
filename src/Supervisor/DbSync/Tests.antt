-- ===== src/Supervisor/DbSync/Tests.antt =====
-- dbsync with two workplans.
use faculty_auxie_mm.Supervisor.DbSync.Races.{begin-Reach_both}
use faculty_auxie_mm.Prelude.Text.{codes}
use faculty_auxie_mm.Supervisor.DbSync.Laws.{OnTheWay, ReachCalmly-OnTheWay}
use faculty_auxie_mm.Supervisor.{AgentPlans, planned, codes}
use faculty_auxie_mm.Prelude.{◌∷◌, some, refl, [], ℕ}
use faculty_auxie_mm.Supervisor.DbSync.{
  Reach, DbSync, AgentPlans, begin, planned, ReachCalmly, went_on, at_begin, worker_started,
}

abbrev plans : AgentPlans ℕ
plans = record { status = codes "started"; workplans = some (1 ∷ 2 ∷ []) }

abbrev fewer : AgentPlans ℕ
fewer = record { status = codes "started"; workplans = some (2 ∷ []) }

-- one of the two workers has started
abbrev half : DbSync ℕ
half = record { settings = plans; workers = 1 ∷ []; setups = (2 ∷ []) ∷ [] }

half_reached : ReachCalmly (begin plans) half
unfolding begin planned
half_reached = went_on at_begin (worker_started [] [] 1 (2 ∷ []) refl)

ReachCalmly-OnTheWay_example : OnTheWay half
ReachCalmly-OnTheWay_example = ReachCalmly-OnTheWay plans half_reached

begin-Reach_both_example :
    Reach (begin plans) (record { settings = fewer; workers = 1 ∷ 2 ∷ 2 ∷ []; setups = [] })
unfolding planned
begin-Reach_both_example = begin-Reach_both plans fewer
