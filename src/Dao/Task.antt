-- ===== src/Dao/Task.antt =====
-- internal/repository/dao/task.go
pub mod Writes
pub mod Versions
pub mod Calls
pub mod Lock
pub mod Lease
use ework_runner.Prelude.{
  ℤ, pos, ◌+ℤ◌, ◌-ℤ◌, ◌==ℤ◌, leb_ℤ, String, NilParams, Option, none, some, Bool, true, false, ◌&&◌,
  ◌||◌, List,
}
use ework_runner.Domain.Errors.{
  Error, database_failed, task_preempt_failed, task_renew_failed, task_release_failed,
  task_update_next_time_failed, task_update_schedule_params_failed, task_update_status_failed,
}
use ework_runner.Domain.Status.{TaskStatus, active, preempted, is_active, is_preempted}
use ework_runner.Action.{pure, raise, ◌>>=◌, ◌>>◌}
use ework_runner.Rows.{TaskRow, JsonColumn, NullString, null_string, column_is}
use ework_runner.Env.{
  Env, Act, now, transaction, update_tasks, first_task, select_tasks, insert_task, or_error,
  affected,
}

abbrev pub has_id : ℤ → TaskRow → Bool
has_id id r = r.id ==ℤ id

-- WHERE id = ? AND version = ?
abbrev pub has_version : ℤ → ℤ → TaskRow → Bool
has_version id version r = r.id ==ℤ id && r.version ==ℤ version

-- version = version + 1, utime = now
abbrev pub bump : ℤ → TaskRow → TaskRow
bump t r = record r { version = r.version +ℤ pos 1; utime = t }

-- JSONColumn{Val: params, Valid: params != nil}
abbrev pub json_params : NilParams → JsonColumn NilParams
json_params none = record { val = none; valid = false }
json_params (some m) = record { val = some m; valid = true }

abbrev pub acquired : String → ℤ → TaskRow → TaskRow
acquired node t r = record (bump t r) {
  status = preempted;
  schedule_node_id = record { text = node; valid = true };
}

abbrev pub released : ℤ → TaskRow → TaskRow
released t r = record (bump t r) { status = active; schedule_node_id = null_string }

-- The rows that `node` may renew, and one of which it may release.
abbrev pub holds : String → TaskRow → Bool
holds node r = is_preempted r.status && column_is r.schedule_node_id node

-- next_time <= now AND (status = ACTIVE OR (status = PREEMPTED AND utime <= now - timeout))
abbrev pub is_schedulable : ℤ → ℤ → TaskRow → Bool
is_schedulable t timeout r =
    leb_ℤ r.next_time t
    && (is_active r.status || (is_preempted r.status && leb_ℤ r.utime (t -ℤ timeout)))

module _ (env : Env) where
  unfoldable pub create : TaskRow → Act TaskRow
  create r = do
    t ← now env
    reply ← insert_task env (record r { utime = t; ctime = t })
    or_error database_failed reply

  unfoldable pub get_by_id : ℤ → Act TaskRow
  get_by_id id = do reply ← first_task env (has_id id); or_error database_failed reply

  unfoldable pub find_schedule_tasks : ℤ → ℤ → Act (List TaskRow)
  find_schedule_tasks preempted_timeout_ms limit = do
    t ← now env
    reply ← select_tasks env (is_schedulable t preempted_timeout_ms) (λ r. r.next_time) limit
    or_error database_failed reply

  -- The transaction that every guarded write of one task is made of: an UPDATE under the condition
  -- `p`, the error `e` if it affects no row, and a SELECT of the row.
  unfoldable pub write_task : (TaskRow → Bool) → (ℤ → TaskRow → TaskRow) → Error → ℤ → Act TaskRow
  write_task p f e id = transaction env do
    t ← now env
    reply ← update_tasks env p (f t)
    affected database_failed e reply
    row ← first_task env (has_id id)
    or_error database_failed row

  unfoldable pub acquire : ℤ → ℤ → String → Act TaskRow
  acquire id version node =
      write_task (has_version id version) (acquired node) task_preempt_failed id

  unfoldable pub renew : String → Act (Unit {0})
  renew node = do
    t ← now env
    reply ← update_tasks env (holds node) (bump t)
    or_error task_renew_failed reply
    pure tt

  unfoldable pub release : ℤ → String → Act TaskRow
  release id node = write_task (λ r. r.id ==ℤ id && holds node r) released task_release_failed id

  unfoldable pub update_next_time : ℤ → ℤ → ℤ → Act TaskRow
  update_next_time id version next_time =
      write_task (has_version id version) (λ t r. record (bump t r) { next_time = next_time })
        task_update_next_time_failed id

  unfoldable pub update_schedule_params : ℤ → ℤ → NilParams → Act TaskRow
  update_schedule_params id version params =
      write_task (has_version id version)
        (λ t r. record (bump t r) { schedule_params = json_params params })
        task_update_schedule_params_failed id

  unfoldable pub update_status : ℤ → TaskStatus → Act TaskRow
  update_status id status =
      write_task (has_id id) (λ t r. record (bump t r) { status = status })
        task_update_status_failed id
