-- ===== src/Supervisor/DbSync/Laws.antt =====
-- Which workers of dbsync run where its settings change calmly.
use faculty_auxie_mm.Supervisor.{planned, AgentPlans}
use faculty_auxie_mm.Supervisor.DbSync.{
  DbSync, Progress, worker_started, ReachCalmly, changed, setup_ended, went_on, begin, at_begin,
}
use faculty_auxie_mm.Prelude.{◌≡◌, ◌∷◌, ◌++◌, ◌∙◌, refl, [], List, sym, append_assoc, ap}

module _ {W : Type 0} where
  -- The workers are the first workplans of the settings, and one set-up at most is under way, with
  -- the workplans that follow.
  pub data OnTheWay (s : DbSync W) : Type 0 where
    under_way :
        (ws : List W) → s.setups ≡ ws ∷ [] → s.workers ++ ws ≡ planned s.settings → OnTheWay s
    over : (ws : List W) → s.setups ≡ [] → s.workers ++ ws ≡ planned s.settings → OnTheWay s

  -- A list of one item is split in one way.
  singleton_split :
      (x y : List W) (before after : List (List W))
      → x ∷ [] ≡ before ++ y ∷ after
      → (before ≡ []) × (x ≡ y) × (after ≡ [])
  singleton_split x y [] after h = (refl, cc, cc)
  singleton_split x y (b ∷ []) after h = cc
  singleton_split x y (b ∷ c ∷ bs) after h = cc

  nothing_to_split : (y : List W) (before after : List (List W)) → ¬ ([] ≡ before ++ y ∷ after)
  nothing_to_split y [] after h = cc
  nothing_to_split y (b ∷ bs) after h = cc

  Progress-OnTheWay : {s u : DbSync W} → Progress s u → OnTheWay s → OnTheWay u
  Progress-OnTheWay {s} (worker_started before after w ws e) (under_way p one all) =
      let split = singleton_split p (w ∷ ws) before after (sym one ∙ e) in
      under_way ws (rw (split.0, split.2) refl)
        (append_assoc s.workers (w ∷ []) ws ∙ ap (λ q. s.workers ++ q) (sym split.1) ∙ all)
  Progress-OnTheWay (worker_started before after w ws e) (over p none_left all) =
      absurd (nothing_to_split (w ∷ ws) before after (sym none_left ∙ e))
  Progress-OnTheWay (setup_ended before after ws e) (under_way p one all) =
      let split = singleton_split p ws before after (sym one ∙ e) in
      over p (rw (split.0, split.2) refl) all
  Progress-OnTheWay (setup_ended before after ws e) (over p none_left all) =
      absurd (nothing_to_split ws before after (sym none_left ∙ e))

  -- Where settings change only while no set-up is under way, the workers are at all times the first
  -- workplans of the current settings, each with one worker, and a set-up has the others still to
  -- start, or has ended.
  pub ReachCalmly-OnTheWay :
      (c : AgentPlans W) {s : DbSync W} → ReachCalmly (begin c) s → OnTheWay s
  unfolding begin
  ReachCalmly-OnTheWay c at_begin = under_way (planned c) refl refl
  ReachCalmly-OnTheWay c (changed d r none_left) =
      under_way (planned d) (ap (λ t. t ++ planned d ∷ []) none_left) refl
  ReachCalmly-OnTheWay c (went_on r p) = Progress-OnTheWay p (ReachCalmly-OnTheWay c r)
