-- ===== src/Scheduler/Loops.antt =====
-- The loops of a scheduler node, as long as they run.
use ework_runner.Prelude.{String, Bool, true, false, List, [], ◌∷◌}
use ework_runner.Action.{pure, ◌>>=◌, ◌>>◌}
use ework_runner.Env.{Env, Act}
use ework_runner.Scheduler.{Config, schedule_round, renew_round}

-- What the select of renewLoop meets.
pub data Signal : Type 0 where
  context_done : Signal
  tick : Signal

module _ (env : Env) where
  -- scheduleLoop; each turn begins with whether the context has ended.
  unfoldable pub schedule_loop : String → Config → List Bool → Act (Unit {0})
  schedule_loop node c [] = pure tt
  schedule_loop node c (true ∷ turns) = pure tt
  schedule_loop node c (false ∷ turns) = do
    started ← schedule_round env node c
    schedule_loop node c turns

  -- renewLoop
  unfoldable pub renew_loop : String → List Signal → Act (Unit {0})
  renew_loop node [] = pure tt
  renew_loop node (context_done ∷ signals) = pure tt
  renew_loop node (tick ∷ signals) = do renew_round env node; renew_loop node signals
