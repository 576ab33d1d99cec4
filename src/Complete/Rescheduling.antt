-- ===== src/Complete/Rescheduling.antt =====
-- Whether the task of an execution that has ended is scheduled again.
use ework_runner.Prelude.{
  ℕ, ℤ, pos, ◌+ℤ◌, ◌<ℤ◌, ◌==ˢ◌, true, false, ◌≡◌, refl, some, arith, inl, inr,
}
use ework_runner.Domain.Status.{inactive, active, one_time, recurring, is_preempted}
use ework_runner.Domain.Task.{Time, at}
use ework_runner.Action.{ok, result_cases}
use ework_runner.Database.{row_at}
use ework_runner.Rows.{TaskRow, null_string}
use ework_runner.Env.{Env, World, Event}
use ework_runner.Schema.{EnvLaws, task_key}
use ework_runner.Dao.Task.{bump, is_schedulable, holds, released}
use ework_runner.Dao.Task.Lock.{release_by_holder}
use ework_runner.Repository.Task as task_repo
use ework_runner.Service.Task as tasks
use ework_runner.Complete.{handle_task, record_result}
use ework_runner.Complete.NextTime.{record_result-tasks, next_time-one_time, next_time-recurring}

module _ (env : Env) (laws : EnvLaws env) where
  -- If the handling of an event succeeds, and its task is a one-time task whose next time is set
  -- and lies before every moment of the clock, then the task is inactive afterwards, and no query
  -- for schedulable tasks selects its row, whatever the moment and the timeout.
  pub handle_task-one_time :
      (e : Event) (w : World) (r : TaskRow)
      → row_at task_key e.task_id w.tasks ≡ some r
      → r.type ≡ one_time
      → pos 0 <ℤ r.next_time
      → ((t : ℕ) → r.next_time <ℤ env.clock t)
      → (handle_task env e w).0 ≡ ok tt
      → (r' : TaskRow) × (row_at task_key e.task_id (handle_task env e w).1.tasks ≡ some r')
        × (r'.status ≡ inactive)
        × ((t timeout : ℤ) → is_schedulable t timeout r' ≡ false)
  unfolding handle_task task_repo.to_domain
  handle_task-one_time e w r found once positive past h =
      let w₁ = (record_result env e w).1 in
      let kept = record_result-tasks env e w in
      elim (result_cases (record_result env e w).0) [
        | inl (_, e₁) ↦
            elim (next_time-one_time env laws e.task_id w₁ r (rw kept found) once positive past) [
              | inl (x, result, same) ↦ ground (arith, e₁, result, h)
              | inr (r', result, row, over) ↦
                  let free : is_preempted r'.status ≡ false = rw over refl in
                  (r', rw (e₁, result, free) row, over, λ t timeout. ground (arith, over))
            ]
        | inr (inl (x, e₁)) ↦ ground (arith, e₁, h)
        | inr (inr e₁) ↦ ground (arith, e₁, h)
      ]

  -- If the handling of an event succeeds, and its task is recurring, held by the scheduler node
  -- that the event names, and has a cron expression that parses and always has a next time, then
  -- the task is active and free afterwards, two versions later, and its next time is the one that
  -- the expression gives for a moment of the clock.
  pub handle_task-recurring :
      (e : Event) (w : World) (r : TaskRow) (next : ℤ → Time) (after : ℤ → ℤ)
      → row_at task_key e.task_id w.tasks ≡ some r
      → r.type ≡ recurring
      → holds e.schedule_node_id r ≡ true
      → (r.cron_expr ==ˢ "") ≡ false
      → env.cron r.cron_expr ≡ some next
      → ((t : ℤ) → next t ≡ at (after t))
      → (handle_task env e w).0 ≡ ok tt
      → (r' : TaskRow) × (k : ℕ) × (row_at task_key e.task_id (handle_task env e w).1.tasks
          ≡ some r')
        × (r'.status ≡ active)
        × (r'.schedule_node_id ≡ null_string)
        × (r'.next_time ≡ after (env.clock k))
        × (r'.version ≡ r.version +ℤ pos 1 +ℤ pos 1)
  unfolding handle_task task_repo.to_domain tasks.release task_repo.release
  handle_task-recurring e w r next after found again held has_cron parses fires h =
      let w₁ = (record_result env e w).1 in
      let kept = record_result-tasks env e w in
      elim (result_cases (record_result env e w).0) [
        | inl (_, e₁) ↦
            elim (next_time-recurring env laws e.task_id w₁ r next after (rw kept found) again
              has_cron parses fires) [
                | inl (x, result) ↦ ground (arith, e₁, result, h)
                | inr (k, k', result, row) ↦
                    let r₂ = record (bump (env.clock k') r) { next_time = after (env.clock k) } in
                    let w₂ = (tasks.update_next_time env e.task_id w₁).1 in
                    let busy : is_preempted r.status ≡ true = ground (arith, held) in
                    elim (release_by_holder env laws w₂ e.task_id e.schedule_node_id r₂ row) [
                      | inl (down, _) ↦ ground (arith, e₁, result, busy, down, h)
                      | inr (inl (free, _, _)) ↦ ground (arith, free, held)
                      | inr (inr (_, done, row')) ↦ (
                        released (env.clock w₂.tick) r₂,
                        k,
                        rw (e₁, result, busy, done) row',
                        refl,
                        refl,
                        refl,
                        refl,
                      )
                    ]
              ]
        | inr (inl (x, e₁)) ↦ ground (arith, e₁, h)
        | inr (inr e₁) ↦ ground (arith, e₁, h)
      ]
