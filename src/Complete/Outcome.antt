-- ===== src/Complete/Outcome.antt =====
-- What the end of an execution does to its row and to its task.
use ework_runner.Prelude.{
  suc, ℤ, pos, String, false, ◌≡◌, refl, ap, ◌∙◌, none, some, arith, inl, inr, ◌⊎◌, Bool-cases,
  if◌then◌else◌,
}
use ework_runner.Domain.Errors.{Error}
use ework_runner.Domain.Status.{TaskExecutionStatus, success, failed, is_success}
use ework_runner.Action.{err}
use ework_runner.Database.{row_at}
use ework_runner.Rows.{ExecutionRow, null_string}
use ework_runner.Env.{Env, World, Event}
use ework_runner.Schema.{EnvLaws, execution_key}
use ework_runner.Dao.Execution.{has_id, schedule_result}
use ework_runner.Dao.Execution.Outcomes.{Outcome, update_schedule_result-Outcome}
use ework_runner.Dao.Task as task_dao
use ework_runner.Repository.Execution as repo
use ework_runner.Repository.Task as task_repo
use ework_runner.Service.Task as tasks
use ework_runner.Complete.{handle_task, record_result}

abbrev pub verdict : Event → TaskExecutionStatus
verdict e = if is_success e.exec_status then success else failed

abbrev pub progress_of : Event → ℤ
progress_of e = if is_success e.exec_status then pos 100 else pos 0

module _ (env : Env) where
  next_time-executions :
      (id : ℤ) (w : World) → (tasks.update_next_time env id w).1.executions ≡ w.executions
  unfolding tasks.update_next_time task_repo.get_by_id task_repo.update_status
      task_repo.update_next_time task_dao.get_by_id task_dao.update_status task_dao.update_next_time
      task_dao.write_task
  next_time-executions id w = ground arith

  release-executions :
      (id : ℤ) (node : String) (w : World)
      → (tasks.release env id node w).1.executions ≡ w.executions
  unfolding tasks.release task_repo.release task_dao.release task_dao.write_task
  release-executions id node w = ground arith

  record_result-Outcome :
      (laws : EnvLaws env) (e : Event) (w : World)
      → Outcome e.exec_id
          (has_id e.exec_id)
          (schedule_result
            (verdict e)
            (progress_of e)
            (env.clock w.tick)
            none
            ""
            (env.clock (suc w.tick)))
          w
          (record_result env e w)
  unfolding repo.update_schedule_result
  record_result-Outcome laws e w = elim (Bool-cases (is_success e.exec_status)) [
    | inl y ↦ rw y (
        update_schedule_result-Outcome env laws e.exec_id success (pos 100) _ none ""
          (record w { tick = suc w.tick }))
    | inr n ↦ rw n (
        update_schedule_result-Outcome env laws e.exec_id failed (pos 0) _ none ""
          (record w { tick = suc w.tick }))
  ]

  handle_task-executions :
      (e : Event) (w : World)
      → (handle_task env e w).1.executions ≡ (record_result env e w).1.executions
  unfolding handle_task
  handle_task-executions e w =
      let (o, w₁) = record_result env e w in
      let w₂ = (tasks.update_next_time env e.task_id w₁).1 in
      ground (
        arith,
        next_time-executions e.task_id w₁,
        release-executions e.task_id e.schedule_node_id w₂,
      )

module _ (env : Env) (laws : EnvLaws env) where
  -- The handling of an event that names an execution in the table is an error that writes no
  -- execution, or gives its row the status SUCCESS with progress 100 if the event says success and
  -- else FAILED with progress 0, whatever status the row had, and sets its end time and clears its
  -- schedule parameters and its executor node.
  pub handle_task-verdict :
      (e : Event) (w : World) (r : ExecutionRow)
      → row_at execution_key e.exec_id w.executions ≡ some r
      → ((x : Error) × ((handle_task env e w).0 ≡ err x)
          × ((handle_task env e w).1.executions ≡ w.executions))
        ⊎ (row_at execution_key e.exec_id (handle_task env e w).1.executions
            ≡ some (record r {
              status = verdict e;
              running_progress = progress_of e;
              etime = env.clock w.tick;
              task_schedule_params = record { val = none; valid = false };
              executor_node_id = null_string;
              utime = env.clock (suc w.tick);
            }))
  unfolding handle_task
  handle_task-verdict e w r found =
      let same = handle_task-executions env e w in
      elim (record_result-Outcome env laws e w) [
        | inl (x, result, kept) ↦ inl (x, rw result refl, same ∙ kept)
        | inr (old, old_found, _, _, row) ↦
            let here : old ≡ r = ground (arith, old_found, found) in
            inr (
              rw same (
                row
                ∙ ap
                    (λ x. some (
                      schedule_result (verdict e) (progress_of e) (env.clock w.tick) none ""
                        (env.clock (suc w.tick)) x))
                    here))
      ]
