-- ===== src/Supervisor/Laws.antt =====
-- Which workers run.
use faculty_auxie_mm.Supervisor.{
  next, connect, change, change_unheard, Phase, AgentPlans, connecting, Service, running, planned,
  connect, next, change_unheard, change,
}
use faculty_auxie_mm.Prelude.{◌≡◌, ◌⊎◌, []}

module _ {W : Type 0} where
  abbrev pub IsRunning : Phase W → Type 0
  IsRunning running = Unit
  IsRunning (connecting c) = ⊥

  -- What a service that started with the settings `first` does.
  pub record Follows (first : AgentPlans W) (s : Service W) : Type 0 where
    pub idle_before : (c : AgentPlans W) → s.phase ≡ connecting c → (s.workers ≡ []) × (c ≡ first)
    pub planned_after :
        s.phase ≡ running → (s.workers ≡ planned s.settings) ⊎ (s.workers ≡ planned first)

  -- A service that is running stays so, and has one worker for each workplan of its settings.
  abbrev IsCurrent : Service W → Type 0
  IsCurrent s = (s.phase ≡ running) × (s.workers ≡ planned s.settings)
