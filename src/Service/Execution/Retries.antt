-- ===== src/Service/Execution/Retries.antt =====
-- What a report of a retryable failure does.
use ework_runner.Prelude.{
  ℤ, pos, ◌+ℤ◌, ◌≤ℤ◌, ◌<ℤ◌, int32, int64, true, false, ◌≡◌, refl, ◌⊎◌, inl, inr, some, arith,
  int_laws, +ℤ_parts, ◌∙◌, ap,
}
use ework_runner.Domain.Errors.{execution_not_found}
use ework_runner.Domain.Status.{TaskExecutionStatus, failed_retryable, is_terminal_status}
use ework_runner.Domain.Task.{RetryConfig, to_retry_component_config}
use ework_runner.Domain.Execution.{TaskExecution, ExecutionState}
use ework_runner.Action.{ok, err}
use ework_runner.Database.{row_at}
use ework_runner.Rows.{ExecutionRow}
use ework_runner.Env.{Env, World}
use ework_runner.Schema.{EnvLaws, execution_key}
use ework_runner.Retry.{exponential}
use ework_runner.Retry.Backoff.{next_with_retries-may, int32-small, int64-small}
use ework_runner.Repository.Execution.{to_domain}
use ework_runner.Service.Execution.{
  dispatch, update_state, update_retry_state, send_completed_event, next_retry,
}
use ework_runner.Service.Execution.Reports.{update_state-cases, read}

count_next : (n : ℤ) → pos 0 ≤ℤ n → n <ℤ pos 0x7fffffff → int32 (int64 (n +ℤ pos 1)) ≡ n +ℤ pos 1
count_next n h k =
    ap int32 (int64-small (n +ℤ pos 1) (omega int_laws) (omega int_laws))
    ∙ int32-small (n +ℤ pos 1) (omega int_laws) (omega int_laws)

module _ (env : Env) where
  next_retry-exhausted :
      (c : RetryConfig) (e : TaskExecution)
      → pos 0 <ℤ c.max_retries
      → c.max_retries ≤ℤ e.retry_count
      → e.retry_count <ℤ pos 0x7fffffff
      → (next_retry env c e).1 ≡ false
  unfolding exponential to_retry_component_config
  next_retry-exhausted c e positive spent small =
      next_with_retries-may env.out_of_range _ _
      ∙ rw (count_next e.retry_count (omega arith) small)
          (ground (arith, +ℤ_parts e.retry_count (pos 1)))

  -- With no retries left the report is answered with the marker error, which UpdateState handles
  -- by an event that is not sent, since the reported status is no terminal one.
  dispatch-exhausted :
      (s : TaskExecutionStatus) (c : RetryConfig) (e : TaskExecution) (state : ExecutionState)
      (w : World)
      → s ≡ failed_retryable
      → e.task.retry_config ≡ some c
      → state.status ≡ s
      → (next_retry env c e).1 ≡ false
      → dispatch env s e state w ≡ (ok tt, w)
  unfolding dispatch update_retry_state send_completed_event
  dispatch-exhausted s c e state w retryable has_config status spent =
      simp (has_config, spent, status, retryable)

module _ (env : Env) (laws : EnvLaws env) where
  -- If an open execution has a positive retry limit, and as many retries as that or more (fewer
  -- than 2^31 - 1), then a report of a retryable failure changes no row, starts nothing and sends
  -- no event: the answer is success, unless the row is not read.
  pub retry_exhausted :
      (state : ExecutionState) (w : World) (r : ExecutionRow) (c : RetryConfig)
      → row_at execution_key state.id w.executions ≡ some r
      → is_terminal_status r.status ≡ false
      → r.task_retry_config ≡ record { val = c; valid = true }
      → pos 0 <ℤ c.max_retries
      → c.max_retries ≤ℤ r.retry_count
      → r.retry_count <ℤ pos 0x7fffffff
      → state.status ≡ failed_retryable
      → (update_state env state w ≡ (err execution_not_found, read w))
        ⊎ (update_state env state w ≡ (ok tt, read w))
  unfolding to_domain
  retry_exhausted state w r c found open_ has_config positive spent small status =
      elim (update_state-cases env laws state w) [
        | inl e ↦ inl e
        | inr (inl (s, found_s, ended, e)) ↦ cc
        | inr (inr (s, found_s, _, e)) ↦
            let here : s ≡ r = ground arith in
            inr (
              e
              ∙ ap (λ x. dispatch env state.status (to_domain x) state (read w)) here
              ∙ dispatch-exhausted env state.status c (to_domain r) state (read w) status
                  (rw has_config) refl
                  (next_retry-exhausted env c (to_domain r) positive spent small))
      ]
