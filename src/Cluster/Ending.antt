-- ===== src/Cluster/Ending.antt =====
-- The end of an execution, from the report to the next time of its task.
use ework_runner.Prelude.{
  ℕ, ℤ, pos, ◌+ℤ◌, ◌==ˢ◌, true, false, ◌≡◌, refl, sym, ap, ◌∙◌, some, [], ◌∷◌, ◌++◌, inl, inr,
  find_sound, ==ℤ_iff,
}
use ework_runner.Domain.Status.{
  TaskExecutionStatus, is_terminal_status, success, failed, running, failed_retryable,
  failed_rescheduled, unknown, prepare, no_status, active, recurring,
}
use ework_runner.Domain.Task.{Time, at}
use ework_runner.Domain.Execution.{ExecutionState}
use ework_runner.Action.{ok}
use ework_runner.Database.{row_at}
use ework_runner.Rows.{TaskRow, ExecutionRow, null_string}
use ework_runner.Env.{Env, World, Event}
use ework_runner.Schema.{EnvLaws, task_key, execution_key}
use ework_runner.Dao.Task.{holds}
use ework_runner.Service.Execution.{update_state}
use ework_runner.Service.Execution.Effects.{end_event, terminal_report}
use ework_runner.Complete.{handle_task}
use ework_runner.Complete.Outcome.{handle_task-verdict, verdict}
use ework_runner.Complete.Rescheduling.{handle_task-recurring}

verdict-end_event :
    (s : TaskExecutionStatus) (r : ExecutionRow)
    → is_terminal_status s ≡ true
    → verdict (end_event s r) ≡ s
verdict-end_event success r h = refl
verdict-end_event failed r h = refl
verdict-end_event running r h = cc
verdict-end_event failed_retryable r h = cc
verdict-end_event failed_rescheduled r h = cc
verdict-end_event unknown r h = cc
verdict-end_event prepare r h = cc
verdict-end_event no_status r h = cc

module _ (env : Env) (laws : EnvLaws env) where
  -- If the broker takes every message, and an executor reports the success or the failure of an
  -- open execution without an error, whose task is recurring, is held by the scheduler node that
  -- the execution names, and has a cron expression that parses and always has a next time, then
  -- one event of this end is added; and if its handling succeeds, then the execution has the
  -- reported status, and the task is active and free, two versions later, and its next time is the
  -- one that the expression gives for a moment of the clock.
  pub update_state-handle_task :
      (state : ExecutionState) (w : World) (r : ExecutionRow) (t : TaskRow) (next : ℤ → Time)
      (after : ℤ → ℤ)
      → ((n : ℕ) (e : Event) → env.delivers n e ≡ true)
      → row_at execution_key state.id w.executions ≡ some r
      → is_terminal_status r.status ≡ false
      → is_terminal_status state.status ≡ true
      → row_at task_key r.task_id w.tasks ≡ some t
      → t.type ≡ recurring
      → holds r.task_schedule_node_id t ≡ true
      → (t.cron_expr ==ˢ "") ≡ false
      → env.cron t.cron_expr ≡ some next
      → ((m : ℤ) → next m ≡ at (after m))
      → (update_state env state w).0 ≡ ok tt
      → let w' = (update_state env state w).1 in
        let e = end_event state.status r in
        (w'.events ≡ w.events ++ e ∷ [])
        × ((handle_task env e w').0 ≡ ok tt
            → (r' : ExecutionRow) × (t' : TaskRow) × (k : ℕ) × (row_at execution_key state.id
                  (handle_task env e w').1.executions
                ≡ some r')
              × (r'.status ≡ state.status)
              × (row_at task_key r.task_id (handle_task env e w').1.tasks ≡ some t')
              × (t'.status ≡ active)
              × (t'.schedule_node_id ≡ null_string)
              × (t'.next_time ≡ after (env.clock k))
              × (t'.version ≡ t.version +ℤ pos 1 +ℤ pos 1))
  update_state-handle_task state w r t next after delivers found open_ ends of_task again held
        has_cron parses fires reported =
      elim (terminal_report env laws state w r found open_ ends) [
        | inl e ↦ cc (ap (λ x. x.0) e, reported)
        | inr e ↦ (
          rw (e, delivers) refl,
          λ handled.
              let event = end_event state.status r in
              let w' = (update_state env state w).1 in
              let under : r.id ≡ state.id =
                (==ℤ_iff r.id state.id).0 (find_sound _ w.executions r found) in
              let here : row_at execution_key r.id w'.executions ≡ some r =
                rw e (ap (λ j. row_at execution_key j w.executions) under ∙ found) in
              let there : row_at task_key r.task_id w'.tasks ≡ some t = rw e of_task in
              let (t', k, row, status, free, time, version) =
                handle_task-recurring env laws event w' t next after there again held has_cron
                  parses fires handled in
              elim (handle_task-verdict env laws event w' r here) [
                | inl (x, refused, _) ↦ cc (refused, handled)
                | inr written ↦ (
                  _,
                  t',
                  k,
                  ap (λ j. row_at execution_key j (handle_task env event w').1.executions)
                        (sym under)
                      ∙ written,
                  verdict-end_event state.status r ends,
                  row,
                  status,
                  free,
                  time,
                  version,
                )
              ],
        )
      ]
