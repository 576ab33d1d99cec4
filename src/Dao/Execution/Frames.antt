-- ===== src/Dao/Execution/Frames.antt =====
-- A write of one execution touches nothing but the row under its id.
use ework_runner.Prelude.{
  ℕ, suc, ℤ, ◌==ℤ◌, String, NilParams, Bool, true, ◌≡◌, ◌≢◌, refl, ◌&&◌, arith, ==ℤ_iff, inl, inr,
  Option-cases,
}
use ework_runner.Domain.Status.{TaskExecutionStatus, is_running}
use ework_runner.Database.{row_at, update_elsewhere}
use ework_runner.Rows.{ExecutionRow}
use ework_runner.Env.{Env, World}
use ework_runner.Schema.{EnvLaws, execution_key, stored_execution}
use ework_runner.Dao.Execution.{
  has_id, can_start, deadline_at, started, schedule_result, retry_result, update_retry_result,
  set_running_state, update_progress, update_schedule_result,
}

pub record Elsewhere (id : ℤ) (w w' : World) : Type 0 where
  pub tasks : w'.tasks ≡ w.tasks
  pub events : w'.events ≡ w.events
  pub invocations : w'.invocations ≡ w.invocations
  pub others :
      (j : ℤ) → j ≢ id → row_at execution_key j w'.executions ≡ row_at execution_key j w.executions

module _ (env : Env) (laws : EnvLaws env) where
  updates :
      (t : ℕ) (p : ExecutionRow → Bool) (f : ExecutionRow → ExecutionRow) (id j : ℤ) (w : World)
      → ((r : ExecutionRow) → p r ≡ true → r.id ≡ id)
      → ((r : ExecutionRow) → (f r).id ≡ r.id)
      → j ≢ id
      → row_at execution_key j (env.execution_table.update t p f w.executions).1
        ≡ row_at execution_key j w.executions
  updates t p f id j w =
      update_elsewhere execution_key stored_execution env.execution_table laws.executions t p f id j
        w.executions

  pub update_progress-Elsewhere :
      (id progress : ℤ) (w : World) → Elsewhere id w (update_progress env id progress w).1
  unfolding update_progress
  update_progress-Elsewhere id progress w = record {
    tasks = ground arith;
    events = ground arith;
    invocations = ground arith;
    others = λ j other. ground (
      arith,
      updates (suc w.tick) (λ r. r.id ==ℤ id && is_running r.status)
          (λ r. record r { running_progress = progress; utime = env.clock w.tick }) id j w
          (λ r h. (==ℤ_iff r.id id).0 (ground arith)) (λ r. refl) other,
    );
  }

  pub update_schedule_result-Elsewhere :
      (id : ℤ) (status : TaskExecutionStatus) (progress end_time : ℤ) (params : NilParams)
      (node : String) (w : World)
      → Elsewhere id w (update_schedule_result env id status progress end_time params node w).1
  unfolding update_schedule_result
  update_schedule_result-Elsewhere id status progress end_time params node w = record {
    tasks = ground arith;
    events = ground arith;
    invocations = ground arith;
    others = λ j other. ground (
      arith,
      updates (suc w.tick) (has_id id)
          (schedule_result status progress end_time params node (env.clock w.tick)) id j w
          (λ r h. (==ℤ_iff r.id id).0 h) (λ r. refl) other,
    );
  }

  pub update_retry_result-Elsewhere :
      (id count next : ℤ) (status : TaskExecutionStatus) (progress end_time : ℤ)
      (params : NilParams) (node : String) (w : World)
      → Elsewhere id w
          (update_retry_result env id count next status progress end_time params node w).1
  unfolding update_retry_result
  update_retry_result-Elsewhere id count next status progress end_time params node w =
      elim (Option-cases (env.driver_map params)) [
        | inl refused ↦ record {
          tasks = ground arith;
          events = ground arith;
          invocations = ground arith;
          others = λ j other. ground arith;
        }
        | inr (column, taken) ↦ record {
          tasks = ground arith;
          events = ground arith;
          invocations = ground arith;
          others = λ j other. ground (
            arith,
            updates (suc w.tick) (has_id id)
                (retry_result count next status progress end_time column node (env.clock w.tick)) id
                j w (λ r h. (==ℤ_iff r.id id).0 h) (λ r. refl) other,
          );
        }
      ]

  pub set_running_state-Elsewhere :
      (id progress : ℤ) (node : String) (w : World)
      → Elsewhere id w (set_running_state env id progress node w).1
  unfolding set_running_state
  set_running_state-Elsewhere id progress node w =
      elim (laws.executions.first_law (suc w.tick) (has_id id) w.executions) [
        | inl e ↦ record {
          tasks = ground arith;
          events = ground arith;
          invocations = ground arith;
          others = λ j other. ground arith;
        }
        | inr (r, e, found) ↦ record {
          tasks = ground arith;
          events = ground arith;
          invocations = ground arith;
          others = λ j other. ground (
            arith,
            updates (suc (suc w.tick)) (λ s. s.id ==ℤ id && can_start s.status)
                (started progress node (env.clock w.tick)
                  (deadline_at (env.clock w.tick) r.task_max_execution_seconds))
                id j w (λ s h. (==ℤ_iff s.id id).0 (ground arith)) (λ s. refl) other,
          );
        }
      ]
