-- ===== src/Service/Runner/Once.antt =====
-- How often a task is started, over all scheduler nodes.
use ework_runner.Prelude.{suc, ℤ, String, ◌≡◌, refl, ◌⊎◌, inl, inr, List, arith}
use ework_runner.Domain.Errors.{Error, database_failed, task_preempt_failed}
use ework_runner.Domain.Task.{Task}
use ework_runner.Domain.Execution.{TaskExecution}
use ework_runner.Action.{ok, err, result_cases}
use ework_runner.Rows.{TaskRow}
use ework_runner.Env.{Env, World, Routing}
use ework_runner.Schema.{EnvLaws}
use ework_runner.Dao.Task as task_dao
use ework_runner.Dao.Execution as dao
use ework_runner.Dao.Task.Calls.{Call, perform_all, perform_all-Grows}
use ework_runner.Dao.Task.Writes.{write_task_frame}
use ework_runner.Dao.Task.Lock.{acquire-ok, acquire_stale, past}
use ework_runner.Repository.Task as task_repo
use ework_runner.Repository.Execution as repo
use ework_runner.Service.Task as tasks
use ework_runner.Service.Runner.{run, handle_normal_task, release_task, new_execution}

module _ (env : Env) where
  pub create-frame :
      (e : TaskExecution) (w : World)
      → ((repo.create env e w).1.tasks ≡ w.tasks)
        × ((repo.create env e w).1.events ≡ w.events)
        × ((repo.create env e w).1.invocations ≡ w.invocations)
  unfolding repo.create dao.create task_repo.get_by_id task_dao.get_by_id
  create-frame e w = ground arith

  -- A start that is written down leaves the tasks as they are.
  handle_normal_task-tasks :
      (node : String) (routing : Routing) (t : Task) (w : World)
      → (handle_normal_task env node routing t w).0 ≡ ok tt
      → (handle_normal_task env node routing t w).1.tasks ≡ w.tasks
  unfolding handle_normal_task release_task
  handle_normal_task-tasks node routing t w h =
      let start = env.clock w.tick in
      ground (arith, h, create-frame (new_execution t start) (record w { tick = suc w.tick }))

  run-ok :
      (node : String) (routing : Routing) (t : Task) (w : World)
      → (run env node routing t w).0 ≡ ok tt
      → (r : TaskRow) × ((task_dao.acquire env t.id t.version node w).0 ≡ ok r)
        × ((run env node routing t w).1.tasks
            ≡ (task_dao.acquire env t.id t.version node w).1.tasks)
  unfolding run tasks.acquire task_repo.acquire
  run-ok node routing t w h = elim (result_cases (task_dao.acquire env t.id t.version node w).0) [
    | inl (r, e) ↦
        let w' = (task_dao.acquire env t.id t.version node w).1 in
        (
          r,
          e,
          ground (arith, e, h, handle_normal_task-tasks node routing (task_repo.to_domain r) w'),
        )
    | inr (inl (x, e)) ↦ cc e
    | inr (inr e) ↦ cc e
  ]

  -- A task that is not acquired is not started.
  pub run-refused :
      (node : String) (routing : Routing) (t : Task) (id version : ℤ) (w : World) (x : Error)
      → t.id ≡ id
      → t.version ≡ version
      → (task_dao.acquire env id version node w).0 ≡ err x
      → run env node routing t w ≡ (err x, (task_dao.acquire env id version node w).1)
  unfolding run tasks.acquire task_repo.acquire
  run-refused node routing t id version w x same_id same_version e = rw (same_id, same_version, e)

  pub acquire-frame :
      (id version : ℤ) (node : String) (w : World)
      → ((task_dao.acquire env id version node w).1.executions ≡ w.executions)
        × ((task_dao.acquire env id version node w).1.events ≡ w.events)
        × ((task_dao.acquire env id version node w).1.invocations ≡ w.invocations)
  unfolding task_dao.acquire
  acquire-frame id version node w = write_task_frame env _ _ _ id w

module _ (env : Env) (laws : EnvLaws env) where
  -- Once a node has started a task from a copy at a version, an attempt of any node to start it
  -- from a copy at that version, after any calls of the task DAO by any nodes, is an error, writes
  -- no table, sends no event and calls no executor.
  pub run_once :
      (w : World) (node other : String) (routing routing' : Routing) (t t' : Task)
      (calls : List Call)
      → t'.id ≡ t.id
      → t'.version ≡ t.version
      → (run env node routing t w).0 ≡ ok tt
      → let later = perform_all env calls (run env node routing t w).1 in
        let again = run env other routing' t' later in
        (((again.0 ≡ err database_failed) ⊎ (again.0 ≡ err task_preempt_failed)))
        × (again.1.tasks ≡ later.tasks)
        × (again.1.executions ≡ later.executions)
        × (again.1.events ≡ later.events)
        × (again.1.invocations ≡ later.invocations)
  run_once w node other routing routing' t t' calls same_id same_version h =
      let (r, taken, kept) = run-ok env node routing t w h in
      let (held, raised, _, _) = acquire-ok env laws t.id t.version node w r taken in
      let w' = (run env node routing t w).1 in
      let later = perform_all env calls w' in
      let (r', found, le) = perform_all-Grows env laws calls w' t.id r (rw kept held) in
      let (result, unchanged) =
        acquire_stale env laws t.id t.version other later r' found
          (past t.version r.version r'.version raised le) in
      let (executions, events, invocations) = acquire-frame env t.id t.version other later in
      let refused = λ (x : Error).
        run-refused env other routing' t' t.id t.version later x same_id same_version in
      elim result [
        | inl e ↦ rw (refused _ e) (inl refl, unchanged, executions, events, invocations)
        | inr e ↦ rw (refused _ e) (inr refl, unchanged, executions, events, invocations)
      ]
