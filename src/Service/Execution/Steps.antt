-- ===== src/Service/Execution/Steps.antt =====
-- The steps that one report may take the status of an execution.
use ework_runner.Prelude.{
  suc, ℤ, pos, ◌+ℤ◌, int64, Bool, true, false, ◌≡◌, refl, sym, ap, ◌∙◌, Option, none, some, arith,
  inl, inr, Bool-cases,
}
use ework_runner.Domain.Status.{
  TaskExecutionStatus, running, success, failed, failed_retryable, failed_rescheduled, unknown,
  prepare, no_status, is_running, is_terminal_status,
}
use ework_runner.Domain.Task.{RetryConfig}
use ework_runner.Domain.Execution.{TaskExecution, ExecutionState}
use ework_runner.Action.{Result, handle_result, pure}
use ework_runner.Database.{row_at}
use ework_runner.Rows.{ExecutionRow}
use ework_runner.Env.{Env, World}
use ework_runner.Schema.{EnvLaws, execution_key}
use ework_runner.Dao.Execution as dao
use ework_runner.Dao.Execution.{can_start, deadline_at, has_id}
use ework_runner.Dao.Execution.Outcomes.{
  Outcome, update_progress-Outcome, update_schedule_result-Outcome, set_running_state-Outcome,
  update_retry_result-Outcome,
}
use ework_runner.Repository.Execution as repo
use ework_runner.Repository.Execution.{to_domain}
use ework_runner.Service.Execution.{
  dispatch, update_retry_state, update_schedule_state, send_completed_event, rescheduled,
  write_retry, retry_with, next_retry, after_retry_error, time_after,
}

-- What one report may do to the status of an execution.
pub data Step : TaskExecutionStatus → TaskExecutionStatus → Type 0 where
  stays : {s : TaskExecutionStatus} → Step s s
  starts : {s : TaskExecutionStatus} → can_start s ≡ true → Step s running
  fails_retryable :
      {s : TaskExecutionStatus} → is_terminal_status s ≡ false → Step s failed_retryable
  fails_rescheduled :
      {s : TaskExecutionStatus} → is_terminal_status s ≡ false → Step s failed_rescheduled

pub data Steps : TaskExecutionStatus → TaskExecutionStatus → Type 0 where
  here : {s : TaskExecutionStatus} → Steps s s
  next : {s s' s'' : TaskExecutionStatus} → Step s s' → Steps s' s'' → Steps s s''

-- No step ends an execution.
Step-open :
    (s s' : TaskExecutionStatus)
    → Step s s'
    → is_terminal_status s ≡ false
    → is_terminal_status s' ≡ false
Step-open s s' stays open_ = open_
Step-open s s' (starts _) open_ = refl
Step-open s s' (fails_retryable _) open_ = refl
Step-open s s' (fails_rescheduled _) open_ = refl

pub Steps-open :
    (s s' : TaskExecutionStatus)
    → Steps s s'
    → is_terminal_status s ≡ false
    → is_terminal_status s' ≡ false
Steps-open s s' here open_ = open_
Steps-open s s' (next {s' = t} step steps) open_ = Steps-open t s' steps (Step-open s t step open_)

-- The row under `id` after the call, one step further than `r`.
abbrev pub Stepped : ℤ → ExecutionRow → Result (Unit {0}) × World → Type 0
Stepped id r (_, w') =
    (r' : ExecutionRow) × (row_at execution_key id w'.executions ≡ some r')
    × Step r.status r'.status

Outcome-Stepped :
    (id : ℤ) (p : ExecutionRow → Bool) (f : ExecutionRow → ExecutionRow) (w : World)
    (after : Result (Unit {0}) × World) (r : ExecutionRow)
    → row_at execution_key id w.executions ≡ some r
    → (p r ≡ true → Step r.status (f r).status)
    → Outcome id p f w after
    → Stepped id r after
Outcome-Stepped id p f w (result, w') r found step (inl (x, _, same)) = (r, rw same found, stays)
Outcome-Stepped id p f w (result, w') r found step (inr (old, old_found, hit, _, row)) =
    let e : old ≡ r = ground (arith, old_found, found) in
    (f r, row ∙ ap (λ x. some (f x)) e, step (sym (ap p e) ∙ hit))

module _ (env : Env) where
  -- The handling of the retry's error writes no row.
  pub after_retry-executions :
      (execution : TaskExecution) (state : ExecutionState) (o : Result (Unit {0})) (w : World)
      → (handle_result o pure (after_retry_error env state execution) w).1.executions ≡ w.executions
  unfolding send_completed_event
  after_retry-executions execution state o w = ground arith

module _ (env : Env) (laws : EnvLaws env) where
  write_retry-Stepped :
      (execution : TaskExecution) (state : ExecutionState) (duration : ℤ) (w : World)
      (r : ExecutionRow)
      → state.status ≡ failed_retryable
      → row_at execution_key state.id w.executions ≡ some r
      → is_terminal_status r.status ≡ false
      → Stepped state.id r (write_retry env execution state duration w)
  unfolding repo.update_retry_result
  write_retry-Stepped execution state duration w r status found open_ =
      elim (update_retry_result-Outcome env laws state.id count later state.status
        state.running_progress end_time execution.task.schedule_params state.executor_node_id w₃) [
          | inl (_, _, same) ↦ (r, rw same found, stays)
          | inr (column, _, outcome) ↦
              Outcome-Stepped state.id (has_id state.id) _ w₃
                (dao.update_retry_result env state.id count later state.status
                  state.running_progress end_time execution.task.schedule_params
                  state.executor_node_id w₃)
                r found (λ _. rw status (fails_retryable open_)) outcome
        ]
    where
      count : ℤ
      count = int64 (execution.retry_count +ℤ pos 1)

      later : ℤ
      later = time_after (env.clock w.tick) (env.nanos (suc w.tick)) duration

      end_time : ℤ
      end_time = env.clock (suc (suc w.tick))

      w₃ : World
      w₃ = record w { tick = suc (suc (suc w.tick)) }

  retry_with-Stepped :
      (execution : TaskExecution) (state : ExecutionState) (c : Option RetryConfig) (w : World)
      (r : ExecutionRow)
      → state.status ≡ failed_retryable
      → row_at execution_key state.id w.executions ≡ some r
      → is_terminal_status r.status ≡ false
      → Stepped state.id r (retry_with env execution state c w)
  retry_with-Stepped execution state none w r status found open_ = (r, found, stays)
  retry_with-Stepped execution state (some c) w r status found open_ =
      elim (Bool-cases (next_retry env c execution).1) [
        | inl more ↦ rw more (
            write_retry-Stepped execution state (next_retry env c execution).0 w r status found
              open_)
        | inr spent ↦ rw spent (r, found, stays)
      ]

  pub dispatch-Stepped :
      (s : TaskExecutionStatus) (execution : TaskExecution) (state : ExecutionState) (w : World)
      (r : ExecutionRow)
      → state.status ≡ s
      → row_at execution_key state.id w.executions ≡ some r
      → is_terminal_status r.status ≡ false
      → Stepped state.id r (dispatch env s execution state w)
  unfolding dispatch repo.update_running_progress repo.set_running_state update_retry_state
      update_schedule_state send_completed_event repo.update_schedule_result
  dispatch-Stepped running execution state w r status found open_ =
      elim (Bool-cases (is_running execution.status)) [
        | inl y ↦ rw y (
            Outcome-Stepped state.id _ _ w
              (dao.update_progress env state.id state.running_progress w) r found (λ _. stays)
              (update_progress-Outcome env laws state.id _ w))
        | inr n ↦ rw n (
            Outcome-Stepped state.id _ _ w
              (dao.set_running_state env state.id state.running_progress state.executor_node_id w) r
              found (λ h. starts (ground arith))
              (set_running_state-Outcome env laws state.id _ _ w))
      ]
  dispatch-Stepped failed_retryable execution state w r status found open_ =
      let (o, w') = retry_with env execution state execution.task.retry_config w in
      let (r', found', step) =
        retry_with-Stepped execution state execution.task.retry_config w r status found open_ in
      (r', rw (after_retry-executions env execution state o w') found', step)
  dispatch-Stepped failed_rescheduled execution state w r status found open_ =
      let w₁ = record w { tick = suc w.tick } in
      let params = (rescheduled env execution state).task.schedule_params in
      Outcome-Stepped state.id _ _ w₁
        (dao.update_schedule_result env state.id state.status state.running_progress
          (env.clock w.tick) params state.executor_node_id w₁)
        r found (λ _. rw status (fails_rescheduled open_))
        (update_schedule_result-Outcome env laws state.id state.status state.running_progress
          (env.clock w.tick) params state.executor_node_id w₁)
  dispatch-Stepped success execution state w r status found open_ =
      (r, ground (arith, found), stays)
  dispatch-Stepped failed execution state w r status found open_ = (r, ground (arith, found), stays)
  dispatch-Stepped unknown execution state w r status found open_ = (r, found, stays)
  dispatch-Stepped prepare execution state w r status found open_ = (r, found, stays)
  dispatch-Stepped no_status execution state w r status found open_ = (r, found, stays)
