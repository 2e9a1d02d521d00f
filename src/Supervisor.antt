-- ===== src/Supervisor.antt =====
-- How the services follow their settings: ConfigurationService (packages/utils/src/
-- configuration-service.ts), and the entry points of the gatherer (packages/gatherer/src/index.ts)
-- and the magicbox (packages/magicbox/src/index.ts), whose set-up runs without a pause.
-- `W` is a workplan; a running worker is known by its workplan. The gatherer's settings are taken to
-- have exchanges: without them its set-up throws.
pub mod Laws
pub mod DbSync
pub mod Tests
use faculty_auxie_mm.ApiServer.Config.{Configuration, WorkPlan}
use faculty_auxie_mm.Prelude.Text.{Text, text_eq, codes}
use faculty_auxie_mm.Prelude.{◌≡◌, if◌then◌else◌, none, [], List, Option, or_default, is_some}

-- What a set-up reads of the settings.
pub record AgentPlans (W : Type 0) : Type 0 where
  pub status : Text
  pub workplans : Option (List W)

module _ {W : Type 0} where
  -- SetupWorker: the workers that it starts
  unfoldable pub planned : AgentPlans W → List W
  planned c = if text_eq c.status (codes "started") then or_default c.workplans [] else []

  -- The settings that ConfigurationService begins with: those stored, or an agent that is stopped.
  unfoldable pub initial_settings : Option (AgentPlans W) → AgentPlans W
  initial_settings stored =
      or_default stored (record { status = codes "stopped"; workplans = none })

-- Until redis is connected a service has the settings that it read at its start, and is not yet told
-- of changes.
pub data Phase (W : Type 0) : Type 0 where
  connecting : AgentPlans W → Phase W
  running : Phase W

-- `settings` are those of ConfigurationService, which every change reaches.
pub record Service (W : Type 0) : Type 0 where
  pub settings : AgentPlans W
  pub phase : Phase W
  pub workers : List W

module _ {W : Type 0} where
  unfoldable pub start : Option (AgentPlans W) → Service W
  unfolding initial_settings
  start stored = record {
    settings = initial_settings stored;
    phase = connecting (initial_settings stored);
    workers = [];
  }

  -- The callback of onInvalidate: all workers end, and a new set-up starts its own.
  abbrev pub invalidate : AgentPlans W → Service W → Service W
  invalidate c s = record s { settings = c; workers = planned c }

  pub data Step (s : Service W) : Service W → Type 0 where
    connect :
        (c : AgentPlans W)
        → s.phase ≡ connecting c
        → Step s (record s { phase = running; workers = planned c })
    change_unheard :
        (c d : AgentPlans W) → s.phase ≡ connecting d → Step s (record s { settings = c })
    change : (c : AgentPlans W) → s.phase ≡ running → Step s (invalidate c s)

  pub data Reach (s : Service W) : Service W → Type 0 where
    here : Reach s s
    next : {t u : Service W} → Reach s t → Step t u → Reach s u
