-- ===== src/Dao/Execution/Outcomes.antt =====
-- A write of one execution ends in one of two ways.
use ework_runner.Prelude.{
  suc, ℤ, ◌==ℤ◌, String, NilParams, Bool, true, ◌≡◌, refl, ◌∙◌, ◌⊎◌, ◌&&◌, none, some, arith,
  ==ℤ_iff, inl, inr, Option-cases,
}
use ework_runner.Domain.Errors.{
  Error, set_execution_state_running_failed, update_execution_retry_result_failed,
}
use ework_runner.Domain.Status.{TaskExecutionStatus, is_running}
use ework_runner.Action.{Result, ok, err, ◌>>=◌}
use ework_runner.Database.{row_at, row_at-update_where, update_cases}
use ework_runner.Rows.{ExecutionRow, JsonColumn}
use ework_runner.Env.{Env, World, update_executions, affected}
use ework_runner.Schema.{EnvLaws, execution_key, stored_execution}
use ework_runner.Dao.Execution.{
  has_id, can_start, deadline_at, started, schedule_result, retry_result, update_retry_result,
  set_running_state, update_progress, update_schedule_result,
}

-- An error that leaves the table as it was, or the row under `id` passes the test and is rewritten.
abbrev pub Outcome :
    ℤ
    → (ExecutionRow → Bool)
    → (ExecutionRow → ExecutionRow)
    → World
    → Result (Unit {0}) × World
    → Type 0
Outcome id p f w (result, w') =
    ((x : Error) × (result ≡ err x) × (w'.executions ≡ w.executions))
    ⊎ ((old : ExecutionRow) × (row_at execution_key id w.executions ≡ some old)
        × (p old ≡ true)
        × (result ≡ ok tt)
        × (row_at execution_key id w'.executions ≡ some (f old)))

module _ (env : Env) (laws : EnvLaws env) where
  write-Outcome :
      (p : ExecutionRow → Bool) (f : ExecutionRow → ExecutionRow) (e e' : Error) (id : ℤ)
      (w : World)
      → ((r : ExecutionRow) → p r ≡ true → r.id ≡ id)
      → ((r : ExecutionRow) → (f r).id ≡ r.id)
      → Outcome id p f w ((update_executions env p f >>= affected e e') w)
  write-Outcome p f e e' id w selects keeps =
      elim (update_cases execution_key stored_execution env.execution_table laws.executions w.tick p
        f id w.executions selects) [
          | inl down ↦ inl (e, rw down refl, rw down refl)
          | inr (inl (n, done_n, z, same)) ↦ inl (e', rw (done_n, z) refl, rw (done_n, z) same)
          | inr (inr (n, old, done_n, nz, found, hit)) ↦ inr (
            old,
            found,
            hit,
            rw (done_n, nz) refl,
            rw (done_n, nz)
                (row_at-update_where execution_key p f keeps id w.executions
                  ∙ rw (found, hit) refl),
          )
        ]

  pub update_progress-Outcome :
      (id progress : ℤ) (w : World)
      → Outcome id
          (λ r. r.id ==ℤ id && is_running r.status)
          (λ r. record r { running_progress = progress; utime = env.clock w.tick })
          w
          (update_progress env id progress w)
  unfolding update_progress
  update_progress-Outcome id progress w =
      write-Outcome _ _ _ _ id (record w { tick = suc w.tick })
        (λ r h. (==ℤ_iff r.id id).0 (ground arith)) (λ r. refl)

  pub update_schedule_result-Outcome :
      (id : ℤ) (status : TaskExecutionStatus) (progress end_time : ℤ) (params : NilParams)
      (node : String) (w : World)
      → Outcome id
          (has_id id)
          (schedule_result status progress end_time params node (env.clock w.tick))
          w
          (update_schedule_result env id status progress end_time params node w)
  unfolding update_schedule_result
  update_schedule_result-Outcome id s progress end_time params node w =
      write-Outcome _ _ _ _ id (record w { tick = suc w.tick }) (λ r h. (==ℤ_iff r.id id).0 h)
        (λ r. refl)

  -- SetRunningState is an error that writes no execution; or the row was there in a status from
  -- which a run may start, and has the status RUNNING, the progress, the node, the moment as its
  -- start time and a deadline by its own limit.
  pub set_running_state-Outcome :
      (id progress : ℤ) (node : String) (w : World)
      → Outcome id
          (λ r. r.id ==ℤ id && can_start r.status)
          (λ r.
            started progress node
              (env.clock w.tick)
              (deadline_at (env.clock w.tick) r.task_max_execution_seconds)
              r)
          w
          (set_running_state env id progress node w)
  unfolding set_running_state
  set_running_state-Outcome id progress node w =
      let t = env.clock w.tick in
      elim (laws.executions.first_law (suc w.tick) (has_id id) w.executions) [
        | inl e ↦ inl (set_execution_state_running_failed, rw e refl, rw e refl)
        | inr (r, e, found) ↦
            let written =
              write-Outcome (λ s. s.id ==ℤ id && can_start s.status)
                (started progress node t (deadline_at t r.task_max_execution_seconds))
                set_execution_state_running_failed set_execution_state_running_failed id
                (record w { tick = suc (suc w.tick) }) (λ s h. (==ℤ_iff s.id id).0 (ground arith))
                (λ s. refl) in
            elim written [
              | inl (x, result, same) ↦ inl (x, rw e result, rw e same)
              | inr (old, old_found, hit, result, row) ↦
                  let here : old ≡ r = ground (arith, old_found, found) in
                  inr (old, old_found, hit, rw e result, rw e (row ∙ rw here refl))
            ]
      ]

  pub update_retry_result-Outcome :
      (id count next : ℤ) (s : TaskExecutionStatus) (progress end_time : ℤ) (params : NilParams)
      (node : String) (w : World)
      → ((env.driver_map params ≡ none)
          × ((update_retry_result env id count next s progress end_time params node w).0
              ≡ err update_execution_retry_result_failed)
          × ((update_retry_result env id count next s progress end_time params node w).1.executions
              ≡ w.executions))
        ⊎ ((column : JsonColumn NilParams) × (env.driver_map params ≡ some column)
            × Outcome id
                (has_id id)
                (retry_result count next s progress end_time column node (env.clock w.tick))
                w
                (update_retry_result env id count next s progress end_time params node w))
  unfolding update_retry_result
  update_retry_result-Outcome id count next s progress end_time params node w =
      elim (Option-cases (env.driver_map params)) [
        | inl refused ↦ inl (refused, rw refused refl, rw refused refl)
        | inr (column, taken) ↦ inr (
          column,
          taken,
          rw taken (
              write-Outcome (has_id id)
                (retry_result count next s progress end_time column node (env.clock w.tick)) _ _ id
                (record w { tick = suc w.tick }) (λ r h. (==ℤ_iff r.id id).0 h) (λ r. refl)),
        )
      ]
