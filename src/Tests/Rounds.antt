-- ===== src/Tests/Rounds.antt =====
-- Rounds of the scheduler and the compensators, on the sample world.
use ework_runner.Prelude.{pos, ◌+◌, ◌≤ℤ◌, ◌==ℤ◌, ◌-ℤ◌, ◌≡◌, refl, true, find, length, arith}
use ework_runner.Domain.Status.{is_failed_rescheduled, is_failed_retryable}
use ework_runner.Action.{ok}
use ework_runner.Database.{update_where}
use ework_runner.Dao.Task as task_dao
use ework_runner.Dao.Execution as dao
use ework_runner.Dao.Execution.{deadline_at}
use ework_runner.Repository.Task as task_repo
use ework_runner.Repository.Execution as repo
use ework_runner.Service.Task as tasks
use ework_runner.Service.Runner.{
  no_routing, with_specific_node_id, with_excluded_node_id, run, handle_normal_task, release_task,
}
use ework_runner.Scheduler.{Config, schedule_round, schedule_from, new_context, pick}
use ework_runner.Scheduler.Rounds.{schedule_round_count}
use ework_runner.Compensator.{retry_round, reschedule_round}
use ework_runner.Compensator.Rounds.{Starts, retry_round-Starts, reschedule_round-Starts}
use ework_runner.Tests.Memory.{selected, any, take}
use ework_runner.Tests.Samples.{env, env-EnvLaws, world, now_ms}

abbrev pub config : Config
config = record { batch_size = pos 10; preempted_timeout = pos 60000 }

-- Task 1 is the only one that is due and free.
round_over : (schedule_round env "a" config world).0 ≡ ok 1
unfolding schedule_round schedule_from tasks.schedulable_tasks task_repo.schedulable_tasks
    task_repo.to_domain task_dao.find_schedule_tasks new_context pick with_specific_node_id run
    handle_normal_task release_task tasks.acquire task_repo.acquire task_dao.acquire
    task_dao.write_task update_where find ◌==ℤ◌ ◌-ℤ◌ selected any repo.create dao.create
    task_repo.get_by_id task_dao.get_by_id deadline_at take
round_over = refl

schedule_round_count_example :
    (pos 1 ≤ℤ pos 10)
    × (length (schedule_round env "a" config world).1.invocations ≡ length world.invocations + 1)
schedule_round_count_example =
    schedule_round_count env env-EnvLaws "a" config world 1 (omega arith) round_over

reschedule_round-Starts_example :
    Starts
      (λ e. with_specific_node_id no_routing e.executor_node_id)
      (λ r. is_failed_rescheduled r.status ≡ true)
      (pos 10)
      world
      (reschedule_round env "a" (pos 10) world)
reschedule_round-Starts_example =
    reschedule_round-Starts env env-EnvLaws "a" (pos 10) world (omega arith)

retry_round-Starts_example :
    Starts
      (λ e. with_excluded_node_id no_routing e.executor_node_id)
      (λ r. (is_failed_retryable r.status ≡ true) × (r.next_retry_time ≤ℤ now_ms))
      (pos 10)
      world
      (retry_round env "a" (pos 10) world)
retry_round-Starts_example = retry_round-Starts env env-EnvLaws "a" (pos 10) world (omega arith)
