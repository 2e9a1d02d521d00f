-- ===== src/Supervisor/Tests.antt =====
-- A service with two workplans.
use faculty_auxie_mm.Prelude.Text.{codes}
use faculty_auxie_mm.Supervisor.{AgentPlans, Service, codes, running, planned}
use faculty_auxie_mm.Prelude.{◌∷◌, some, [], ℕ}

abbrev plans : AgentPlans ℕ
plans = record { status = codes "started"; workplans = some (1 ∷ 2 ∷ []) }

abbrev fewer : AgentPlans ℕ
fewer = record { status = codes "started"; workplans = some (2 ∷ []) }

abbrev stale : Service ℕ
stale = record { settings = fewer; phase = running; workers = planned plans }
