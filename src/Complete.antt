-- ===== src/Complete.antt =====
-- internal/event/complete/consumer.go: what the consumer of completion events does.
pub mod Outcome
pub mod NextTime
pub mod Rescheduling
use ework_runner.Prelude.{ℤ, pos, String, Option, none, some, Bool, true, false, if◌then◌else◌}
use ework_runner.Domain.Errors.{json_failed}
use ework_runner.Domain.Status.{success, failed, is_success, is_preempted}
use ework_runner.Action.{pure, raise, ◌>>=◌, ◌>>◌}
use ework_runner.Env.{Env, Act, Event, now}
use ework_runner.Service.Execution as executions
use ework_runner.Service.Task as tasks

module _ (env : Env) where
  abbrev pub record_result : Event → Act (Unit {0})
  record_result e = do
    end_time ← now env
    if is_success e.exec_status
        then executions.update_schedule_result env e.exec_id success (pos 100) end_time none ""
        else executions.update_schedule_result env e.exec_id failed (pos 0) end_time none ""

  unfoldable pub handle_task : Event → Act (Unit {0})
  handle_task e = do
    record_result e
    t ← tasks.update_next_time env e.task_id
    if is_preempted t.status then tasks.release env e.task_id e.schedule_node_id else pure tt

  abbrev pub decoded : Option Event → Act (Unit {0})
  decoded none = raise json_failed
  decoded (some e) = handle_task e

  -- Consume, over json.Unmarshal
  unfoldable pub consume : (String → Option Event) → String → Act (Unit {0})
  consume unmarshal message = decoded (unmarshal message)
