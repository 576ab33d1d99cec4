-- ===== src/Tests/Locks.antt =====
-- The lock and the lease of tasks, on the sample world.
use ework_runner.Prelude.{pos, ◌+ℤ◌, ◌==ℤ◌, ◌≡◌, refl, ◌⊎◌, some, [], ◌∷◌, find}
use ework_runner.Domain.Errors.{database_failed, task_preempt_failed}
use ework_runner.Domain.Task.{Task}
use ework_runner.Action.{ok, err}
use ework_runner.Database.{row_at, update_where}
use ework_runner.Rows.{TaskRow, column_is}
use ework_runner.Schema.{task_key}
use ework_runner.Dao.Task.{acquire, renew, release, released, holds, acquired, write_task}
use ework_runner.Dao.Task as task_dao
use ework_runner.Dao.Execution as dao
use ework_runner.Dao.Execution.{deadline_at}
use ework_runner.Dao.Task.Calls.{renews, releases, finds, perform_all}
use ework_runner.Dao.Task.Lease.{answered, lease_of, lease_steps}
use ework_runner.Dao.Task.Lease.Refinement.{perform_all-lease}
use ework_runner.Dao.Task.Lock.{acquire_once, renew_protects}
use ework_runner.Repository.Task as task_repo
use ework_runner.Repository.Execution as repo
use ework_runner.Service.Task as tasks
use ework_runner.Service.Runner.{run, handle_normal_task, release_task, no_routing}
use ework_runner.Service.Runner.Once.{run_once}
use ework_runner.Tests.Memory.{selected, any}
use ework_runner.Tests.Samples.{env, env-EnvLaws, world, free_task, held_task, now_ms}

-- Node a finds task 1 at version 7 and acquires it.
taken : (acquire env (pos 1) (pos 7) "a" world).0 ≡ ok (acquired "a" now_ms free_task)
unfolding acquire write_task update_where find ◌==ℤ◌ selected any
taken = refl

acquire_once_example :
    let later =
      perform_all env
        (renews "a" ∷ finds (pos 1) (pos 10) ∷ [])
        (acquire env (pos 1) (pos 7) "a" world).1 in
    (((acquire env (pos 1) (pos 7) "b" later).0 ≡ err database_failed)
      ⊎ ((acquire env (pos 1) (pos 7) "b" later).0 ≡ err task_preempt_failed))
    × ((acquire env (pos 1) (pos 7) "b" later).1.tasks ≡ later.tasks)
acquire_once_example =
    acquire_once env env-EnvLaws world (pos 1) (pos 7) "a" "b" (acquired "a" now_ms free_task)
      (renews "a" ∷ finds (pos 1) (pos 10) ∷ []) taken

held_row : row_at task_key (pos 2) world.tasks ≡ some held_task
unfolding find ◌==ℤ◌
held_row = refl

renewed_ok : (renew env "a" world).0 ≡ ok tt
unfolding renew selected any find ◌==ℤ◌ column_is
renewed_ok = refl

renew_protects_example :
    let w' = (renew env "a" world).1 in
    (row_at task_key (pos 2) w'.tasks
      ≡ some (record held_task { version = held_task.version +ℤ pos 1; utime = now_ms }))
    × (((acquire env (pos 2) (pos 7) "b" w').0 ≡ err database_failed)
        ⊎ ((acquire env (pos 2) (pos 7) "b" w').0 ≡ err task_preempt_failed))
    × ((acquire env (pos 2) (pos 7) "b" w').1.tasks ≡ w'.tasks)
unfolding column_is
renew_protects_example =
    renew_protects env env-EnvLaws world (pos 2) "a" "b" held_task held_row refl renewed_ok

-- The copy of task 1 that two nodes have read.
abbrev read_task : Task
unfolding task_repo.to_domain
read_task = task_repo.to_domain free_task

started : (run env "a" no_routing read_task world).0 ≡ ok tt
unfolding run handle_normal_task release_task tasks.acquire task_repo.acquire acquire write_task
    update_where find ◌==ℤ◌ selected any repo.create dao.create task_repo.get_by_id
    task_dao.get_by_id deadline_at read_task
started = refl

run_once_example :
    let later = perform_all env (renews "a" ∷ []) (run env "a" no_routing read_task world).1 in
    let again = run env "b" no_routing read_task later in
    ((again.0 ≡ err database_failed) ⊎ (again.0 ≡ err task_preempt_failed))
    × (again.1.tasks ≡ later.tasks)
    × (again.1.executions ≡ later.executions)
    × (again.1.events ≡ later.events)
    × (again.1.invocations ≡ later.invocations)
run_once_example =
    run_once env env-EnvLaws world "a" "b" no_routing no_routing read_task read_task
      (renews "a" ∷ []) refl refl started

perform_all-lease_example :
    let calls = renews "a" ∷ releases (pos 2) "b" ∷ releases (pos 2) "a" ∷ [] in
    (r' : TaskRow) × (row_at task_key (pos 2) (perform_all env calls world).tasks ≡ some r')
    × (lease_of r' ≡ lease_steps (pos 2) (answered env calls world) (lease_of held_task))
perform_all-lease_example =
    perform_all-lease env env-EnvLaws
      (renews "a" ∷ releases (pos 2) "b" ∷ releases (pos 2) "a" ∷ []) world (pos 2) held_task
      held_row
