-- ===== src/Tests/Executions.antt =====
-- Reports of executors, on the sample world.
use ework_runner.Prelude.{pos, ◌==ℤ◌, ◌≡◌, refl, ◌⊎◌, some, List, [], ◌∷◌, find, arith}
use ework_runner.Domain.Errors.{execution_not_found}
use ework_runner.Domain.Status.{running, failed, failed_retryable, failed_rescheduled}
use ework_runner.Domain.Execution.{Report}
use ework_runner.Action.{ok, err}
use ework_runner.Database.{row_at}
use ework_runner.Rows.{ExecutionRow}
use ework_runner.Schema.{execution_key}
use ework_runner.Service.Execution.{update_state, handle_reports}
use ework_runner.Service.Execution.Reports.{handle_reports-ended, read}
use ework_runner.Service.Execution.Retries.{retry_exhausted}
use ework_runner.Service.Execution.Machine.{handle_reports-Steps}
use ework_runner.Service.Execution.Steps.{Steps}
use ework_runner.Service.Execution.Effects.{retry_refused}
use ework_runner.Tests.Samples.{
  env, env-EnvLaws, world, running_row, ended_row, report, retry_thrice,
}

-- A late failure of the execution that has succeeded, and the end of another.
abbrev reports : List Report
reports =
    record { execution_state = report (pos 2) failed }
    ∷ record { execution_state = report (pos 1) failed_rescheduled }
    ∷ record { execution_state = report (pos 1) running }
    ∷ []

ended_found : row_at execution_key (pos 2) world.executions ≡ some ended_row
unfolding find ◌==ℤ◌
ended_found = refl

running_found : row_at execution_key (pos 1) world.executions ≡ some running_row
unfolding find ◌==ℤ◌
running_found = refl

handle_reports-ended_example :
    row_at execution_key (pos 2) (handle_reports env reports world).1.executions ≡ some ended_row
handle_reports-ended_example =
    handle_reports-ended env env-EnvLaws reports world (pos 2) ended_row ended_found refl

handle_reports-Steps_example :
    (r' : ExecutionRow) × (row_at execution_key
        (pos 1)
        (handle_reports env reports world).1.executions
      ≡ some r')
    × Steps running r'.status
handle_reports-Steps_example =
    handle_reports-Steps env env-EnvLaws reports world (pos 1) running_row running_found

retry_exhausted_example :
    let state = report (pos 1) failed_retryable in
    (update_state env state world ≡ (err execution_not_found, read world))
    ⊎ (update_state env state world ≡ (ok tt, read world))
retry_exhausted_example =
    retry_exhausted env env-EnvLaws (report (pos 1) failed_retryable) world running_row retry_thrice
      running_found refl refl (omega arith) (omega arith) (omega arith) refl

retry_refused_example :
    (update_state env (report (pos 3) failed_retryable) world).1.executions ≡ world.executions
retry_refused_example =
    retry_refused env env-EnvLaws (report (pos 3) failed_retryable) world (λ m. refl) refl
