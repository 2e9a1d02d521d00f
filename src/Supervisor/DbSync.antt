-- ===== src/Supervisor/DbSync.antt =====
-- The entry point of dbsync (packages/dbsync/src/index.ts). Its set-up waits for the database before
-- its first worker and again before each worker, so that settings may change while set-ups are under
-- way. Each set-up is the list of the workplans that it has still to start.
pub mod Laws
pub mod Races
pub mod Tests
use faculty_auxie_mm.Supervisor.{AgentPlans, planned}
use faculty_auxie_mm.Prelude.{◌≡◌, ◌∷◌, ◌++◌, [], List}

pub record DbSync (W : Type 0) : Type 0 where
  pub settings : AgentPlans W
  pub workers : List W
  pub setups : List (List W)

module _ {W : Type 0} where
  -- The callback of onInvalidate: all workers that are there end, and a set-up begins.
  abbrev pub restart : AgentPlans W → DbSync W → DbSync W
  restart c s = record { settings = c; workers = []; setups = s.setups ++ planned c ∷ [] }

  unfoldable pub begin : AgentPlans W → DbSync W
  begin c = record { settings = c; workers = []; setups = planned c ∷ [] }

  -- One set-up goes on: its next worker starts, or it ends, after its last worker or because the
  -- database refused a schema.
  pub data Progress (s : DbSync W) : DbSync W → Type 0 where
    worker_started :
        (before after : List (List W)) (w : W) (ws : List W)
        → s.setups ≡ before ++ (w ∷ ws) ∷ after
        → Progress s (record s { workers = s.workers ++ w ∷ []; setups = before ++ ws ∷ after })
    setup_ended :
        (before after : List (List W)) (ws : List W)
        → s.setups ≡ before ++ ws ∷ after
        → Progress s (record s { setups = before ++ after })

  pub data Reach (s : DbSync W) : DbSync W → Type 0 where
    at_begin : Reach s s
    changed : {t : DbSync W} (c : AgentPlans W) → Reach s t → Reach s (restart c t)
    went_on : {t u : DbSync W} → Reach s t → Progress t u → Reach s u

  -- The same, where settings change only while no set-up is under way.
  pub data ReachCalmly (s : DbSync W) : DbSync W → Type 0 where
    at_begin : ReachCalmly s s
    changed :
        {t : DbSync W} (c : AgentPlans W)
        → ReachCalmly s t
        → t.setups ≡ []
        → ReachCalmly s (restart c t)
    went_on : {t u : DbSync W} → ReachCalmly s t → Progress t u → ReachCalmly s u
