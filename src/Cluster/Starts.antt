-- ===== src/Cluster/Starts.antt =====
-- The task runner: executions are written down and started.
use ework_runner.Prelude.{
  suc, ℤ, pos, ◌==ℤ◌, false, ◌≡◌, refl, ap, ◌∙◌, [], ◌∷◌, find, find_sound, find-append, arith,
  Bool-cases, inl, inr, ==ℤ_iff, ==ℤ_refl,
}
use ework_runner.Domain.Status.{is_terminal_status}
use ework_runner.Domain.Task.{Task}
use ework_runner.Domain.Execution.{TaskExecution}
use ework_runner.Action.{ok, result_cases}
use ework_runner.Database.{row_at}
use ework_runner.Rows.{ExecutionRow}
use ework_runner.Env.{Env, World}
use ework_runner.Schema.{EnvLaws, task_key, stored_execution}
use ework_runner.Dao.Execution as dao
use ework_runner.Dao.Execution.{deadline_at}
use ework_runner.Dao.Task as task_dao
use ework_runner.Dao.Task.{has_id}
use ework_runner.Repository.Execution as repo
use ework_runner.Repository.Task as task_repo
use ework_runner.Cluster.Kept.{HasTask, HasExecution, Kept, Kept-refl}
use ework_runner.Cluster.Executions as executions
use ework_runner.Cluster.Tasks.{bind-Kept, pure-Kept, get_by_id-Kept}

stored-open :
    (k : ℤ) (r : ExecutionRow)
    → is_terminal_status r.status ≡ false
    → is_terminal_status (stored_execution k r).status ≡ false
stored-open k r open_ = ground arith

module _ (env : Env) (laws : EnvLaws env) where
  -- A task that was read is in the table.
  get_by_id-HasTask :
      (id : ℤ) (w : World) (t : Task)
      → (task_repo.get_by_id env id w).0 ≡ ok t
      → HasTask t.id (task_repo.get_by_id env id w).1
  unfolding task_repo.get_by_id task_dao.get_by_id task_repo.to_domain
  get_by_id-HasTask id w t h = elim (laws.tasks.first_law w.tick (has_id id) w.tasks) [
    | inl down ↦ ground (arith, down, h)
    | inr (r, read, found) ↦
        let under : r.id ≡ id = (==ℤ_iff r.id id).0 (find_sound _ w.tasks r found) in
        let same : t.id ≡ r.id = ground (arith, read, h) in
        (r, rw read (ap (λ j. row_at task_key j w.tasks) (same ∙ under) ∙ found))
  ]

  -- An execution that was written down is in the table.
  create-HasExecution :
      (new r : ExecutionRow) (w : World)
      → (dao.create env new w).0 ≡ ok r
      → HasExecution r.id r.task_id (dao.create env new w).1
  unfolding dao.create find
  create-HasExecution new r w h =
      let t = env.clock w.tick in
      let new' = record new {
        utime = t;
        ctime = t;
        deadline = deadline_at t new.task_max_execution_seconds;
      } in
      elim (laws.executions.insert_law (suc w.tick) new' w.executions) [
        | inl down ↦ ground (arith, down, h)
        | inr (k, e, free) ↦
            let r' = stored_execution k new' in
            let same : r' ≡ r = ground (arith, e, h) in
            rw (← same) (
              r',
              rw e (
                  ground (
                    arith,
                    free,
                    find-append (λ s. s.id ==ℤ r'.id) w.executions (r' ∷ []),
                    ==ℤ_refl r'.id,
                  )),
              refl,
            )
      ]

  create_of-Kept :
      (new : TaskExecution) (t : Task) (w : World)
      → is_terminal_status new.status ≡ false
      → HasTask t.id w
      → Kept w (repo.create_of env new t w).1
  unfolding repo.to_entity
  create_of-Kept new t w open_ of_task =
      let row = repo.to_entity (record new { task = t }) in
      pure-Kept (dao.create env row) w
        (executions.create-Kept env laws row w of_task (λ k. stored-open k row open_))
        repo.to_domain

  create_of-HasExecution :
      (new e : TaskExecution) (t : Task) (w : World)
      → (repo.create_of env new t w).0 ≡ ok e
      → HasExecution e.id e.task.id (repo.create_of env new t w).1
  unfolding repo.to_domain
  create_of-HasExecution new e t w h =
      let row = repo.to_entity (record new { task = t }) in
      elim (result_cases (dao.create env row w).0) [
        | inl (r, ran) ↦
            let same : repo.to_domain r ≡ e = ground (arith, ran, h) in
            rw (← same, ran) (create-HasExecution row r w ran)
        | inr (inl (x, ran)) ↦ ground (arith, ran, h)
        | inr (inr ran) ↦ ground (arith, ran, h)
      ]

  pub create-Kept :
      (new : TaskExecution) (w : World)
      → is_terminal_status new.status ≡ false
      → Kept w (repo.create env new w).1
  unfolding repo.create task_repo.get_by_id repo.to_entity
  create-Kept new w open_ = elim (Bool-cases (new.task.id ==ℤ pos 0)) [
    | inl bad ↦ rw bad (Kept-refl w)
    | inr good ↦ rw good (
        bind-Kept (task_repo.get_by_id env new.task.id) w (get_by_id-Kept env laws new.task.id w)
          (repo.create_of env new)
          (λ t e. create_of-Kept new t _ open_ (get_by_id-HasTask new.task.id w t e)))
  ]

  pub created :
      (new e : TaskExecution) (w : World)
      → (repo.create env new w).0 ≡ ok e
      → HasExecution e.id e.task.id (repo.create env new w).1
  unfolding repo.create
  created new e w h = elim (Bool-cases (new.task.id ==ℤ pos 0)) [
    | inl bad ↦ ground (arith, bad, h)
    | inr good ↦ elim (result_cases (task_repo.get_by_id env new.task.id w).0) [
      | inl (t, read) ↦
          let w₁ = (task_repo.get_by_id env new.task.id w).1 in
          rw (good, read) (create_of-HasExecution new e t w₁ (ground (arith, good, read, h)))
      | inr (inl (x, read)) ↦ ground (arith, good, read, h)
      | inr (inr read) ↦ ground (arith, good, read, h)
    ]
  ]
