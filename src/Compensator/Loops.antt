-- ===== src/Compensator/Loops.antt =====
-- internal/compensator: the loops of the compensators, as long as they run.
use ework_runner.Prelude.{ℤ, String, List, [], ◌∷◌}
use ework_runner.Action.{on_result, pure, ◌>>◌}
use ework_runner.Env.{Env, Act}
use ework_runner.Compensator.{retry_round, reschedule_round, interrupt_round}

-- What a loop meets around its rounds: the context ends before a round, or while it waits for the
-- minimal duration to pass after one, or not at all.
pub data Pass : Type 0 where
  done_before : Pass
  done_after : Pass
  goes_on : Pass

-- `for { select { … } }` with a round of errors that are only logged
unfoldable pub loop : Act (Unit {0}) → List Pass → Act (Unit {0})
loop round [] w = (pure tt) w
loop round (done_before ∷ passes) w = (pure tt) w
loop round (done_after ∷ passes) w = (on_result round pure (λ e. pure tt)) w
loop round (goes_on ∷ passes) w = (on_result round pure (λ e. pure tt) >> loop round passes) w

module _ (env : Env) where
  -- RetryCompensator.Start
  unfoldable pub start_retry : String → ℤ → List Pass → Act (Unit {0})
  unfolding loop
  start_retry node batch_size = loop (retry_round env node batch_size)

  -- RescheduleCompensator.Start
  unfoldable pub start_reschedule : String → ℤ → List Pass → Act (Unit {0})
  unfolding loop
  start_reschedule node batch_size = loop (reschedule_round env node batch_size)

  -- InterruptCompensator.Start
  unfoldable pub start_interrupt : ℤ → List Pass → Act (Unit {0})
  unfolding loop
  start_interrupt batch_size = loop (interrupt_round env batch_size)
