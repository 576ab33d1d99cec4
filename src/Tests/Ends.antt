-- ===== src/Tests/Ends.antt =====
-- The end of executions, on the sample world.
use ework_runner.Prelude.{ℤ, pos, ◌==ℤ◌, ◌≡◌, refl, ◌⊎◌, some, none, false, find, arith}
use ework_runner.Domain.Errors.{Error}
use ework_runner.Domain.Status.{success, failed, inactive, TaskExecutionStatus}
use ework_runner.Domain.Task.{calculate_next_time}
use ework_runner.Action.{ok, err}
use ework_runner.Database.{row_at, update_where}
use ework_runner.Rows.{TaskRow, null_string, column_is}
use ework_runner.Env.{Event}
use ework_runner.Schema.{task_key, execution_key}
use ework_runner.Dao.Execution as dao
use ework_runner.Dao.Task as task_dao
use ework_runner.Repository.Execution as repo
use ework_runner.Repository.Task as task_repo
use ework_runner.Service.Task as tasks
use ework_runner.Dao.Task.{is_schedulable}
use ework_runner.Complete.{handle_task}
use ework_runner.Complete.Outcome.{handle_task-verdict}
use ework_runner.Complete.Rescheduling.{handle_task-one_time}
use ework_runner.Tests.Memory.{selected}
use ework_runner.Tests.Samples.{env, env-EnvLaws, world, ended_row, held_task, last_task, now_ms}

abbrev ended : ℤ → ℤ → TaskExecutionStatus → Event
ended task execution status = record {
  task_id = task;
  exec_id = execution;
  version = pos 0;
  schedule_node_id = "a";
  exec_status = status;
  name = "backup";
}

-- A second end of execution 2, which has succeeded.
handle_task-verdict_example :
    ((x : Error) × ((handle_task env (ended (pos 2) (pos 2) failed) world).0 ≡ err x)
      × ((handle_task env (ended (pos 2) (pos 2) failed) world).1.executions ≡ world.executions))
    ⊎ (row_at execution_key
          (pos 2)
          (handle_task env (ended (pos 2) (pos 2) failed) world).1.executions
        ≡ some (record ended_row {
          status = failed;
          running_progress = pos 0;
          etime = now_ms;
          task_schedule_params = record { val = none; valid = false };
          executor_node_id = null_string;
          utime = now_ms;
        }))
unfolding find ◌==ℤ◌
handle_task-verdict_example =
    handle_task-verdict env env-EnvLaws (ended (pos 2) (pos 2) failed) world ended_row refl

last_found : row_at task_key (pos 3) world.tasks ≡ some last_task
unfolding find ◌==ℤ◌
last_found = refl

held_found : row_at task_key (pos 2) world.tasks ≡ some held_task
unfolding find ◌==ℤ◌
held_found = refl

last_handled : (handle_task env (ended (pos 3) (pos 1) success) world).0 ≡ ok tt
unfolding handle_task repo.update_schedule_result dao.update_schedule_result selected find ◌==ℤ◌
    tasks.update_next_time task_repo.get_by_id task_dao.get_by_id task_repo.to_domain
    task_repo.update_status task_dao.update_status task_dao.write_task update_where
last_handled = refl

handle_task-one_time_example :
    (r' : TaskRow) × (row_at task_key
        (pos 3)
        (handle_task env (ended (pos 3) (pos 1) success) world).1.tasks
      ≡ some r')
    × (r'.status ≡ inactive)
    × ((t timeout : ℤ) → is_schedulable t timeout r' ≡ false)
handle_task-one_time_example =
    handle_task-one_time env env-EnvLaws (ended (pos 3) (pos 1) success) world last_task last_found
      refl (omega arith) (λ t. omega arith) last_handled

held_handled : (handle_task env (ended (pos 2) (pos 1) success) world).0 ≡ ok tt
unfolding handle_task repo.update_schedule_result dao.update_schedule_result selected find ◌==ℤ◌
    tasks.update_next_time task_repo.get_by_id task_dao.get_by_id task_repo.to_domain
    task_repo.update_status task_dao.update_status task_dao.write_task update_where
    calculate_next_time task_repo.update_next_time task_dao.update_next_time tasks.release
    task_repo.release task_dao.release column_is
held_handled = refl
