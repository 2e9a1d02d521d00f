-- ===== src/Supervisor/DbSync/Races.antt =====
-- What happens where settings change while a set-up of dbsync is under way.
use faculty_auxie_mm.Supervisor.{AgentPlans, planned}
use faculty_auxie_mm.Supervisor.DbSync.{
  DbSync, begin, AgentPlans, Reach, went_on, changed, setup_ended, worker_started, at_begin,
}
use faculty_auxie_mm.Prelude.{◌∷◌, ◌++◌, refl, [], List, append-nil, sym, append_assoc}

module _ {W : Type 0} (s : DbSync W) where
  -- The first set-up goes on until it has started all its workers.
  drain :
      (c : AgentPlans W) (workers ws : List W) (rest : List (List W))
      → Reach s (record { settings = c; workers = workers; setups = ws ∷ rest })
      → Reach s (record { settings = c; workers = workers ++ ws; setups = rest })
  drain c workers [] rest r = rw (append-nil workers) (went_on r (setup_ended [] rest [] refl))
  drain c workers (w ∷ ws) rest r =
      rw (sym (append_assoc workers (w ∷ []) ws))
        (drain c (workers ++ w ∷ []) ws rest (went_on r (worker_started [] rest w ws refl)))

-- Where settings change before the first set-up has started a worker, dbsync can come to rest with
-- the workers of the old settings running beside those of the new ones.
pub begin-Reach_both :
    {W : Type 0} (c d : AgentPlans W)
    → Reach (begin c) (record { settings = d; workers = planned c ++ planned d; setups = [] })
unfolding begin
begin-Reach_both c d =
    drain (begin c) d (planned c) (planned d) []
      (drain (begin c) d [] (planned c) (planned d ∷ []) (changed d at_begin))
