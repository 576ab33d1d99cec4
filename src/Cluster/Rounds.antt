-- ===== src/Cluster/Rounds.antt =====
-- The compensators and the consumer of completion events.
use ework_runner.Prelude.{
  suc, ℤ, pos, String, Bool, true, false, ◌≡◌, refl, Option, none, some, List, [], ◌∷◌, All, map,
  Bool-cases, inl, inr, if◌then◌else◌, ◌&&◌, leb_ℤ,
}
use ework_runner.Domain.Status.{
  is_failed_retryable, is_failed_rescheduled, is_running, success, failed, is_success, is_preempted,
}
use ework_runner.Domain.Task.{Task, GrpcConfig}
use ework_runner.Domain.Execution.{TaskExecution, ProtoState, execution_state_from_proto}
use ework_runner.Action.{pure, on_result, ◌>>=◌}
use ework_runner.Database.{row_at}
use ework_runner.Rows.{ExecutionRow}
use ework_runner.Env.{Env, World, Act, Event}
use ework_runner.Schema.{EnvLaws, execution_key}
use ework_runner.Dao.Execution as dao
use ework_runner.Repository.Execution as repo
use ework_runner.Repository.Execution.{to_domain}
use ework_runner.Service.Task as tasks
use ework_runner.Service.Runner.{retry, reschedule}
use ework_runner.Compensator.{
  for_each, retry_round, reschedule_round, interrupt_round, interrupt_task_execution, interrupt_at,
  interrupted,
}
use ework_runner.Complete.{handle_task, record_result}
use ework_runner.Cluster.Kept.{
  completed, HasExecution, Announced, Kept, Kept-refl, Kept-same, Kept-spawn, Kept-trans,
  All-weaken,
}
use ework_runner.Cluster.Executions.{update_schedule_result-Kept}
use ework_runner.Cluster.Reports.{update_state-Kept}
use ework_runner.Cluster.Tasks.{
  bind-Kept, on_result-Kept, release-Kept, update_next_time-Kept, ticked,
}

abbrev Listed : World → TaskExecution → Type 0
Listed w e = HasExecution e.id e.task.id w

for_each-Kept :
    (m : TaskExecution → Act (Unit {0}))
    → ((e : TaskExecution) (w : World) → Listed w e → Kept w (m e w).1)
    → (es : List TaskExecution) (w : World) → All (Listed w) es
    → Kept w (for_each m es w).1
unfolding for_each
for_each-Kept m keeps [] w listed = Kept-refl w
for_each-Kept m keeps (e ∷ es) w (listed, others) =
    let kept =
      on_result-Kept (m e) w (keeps e w listed) pure (λ x. pure tt) (λ a ran. Kept-refl _)
        (λ x. Kept-refl _) in
    bind-Kept (on_result (m e) pure (λ x. pure tt)) w kept (λ _. for_each m es)
      (λ a ran.
        for_each-Kept m keeps es _
          (All-weaken (λ x known. kept.executions x.id x.task.id known) es others))

rows-Listed :
    (w : World) (Q : ExecutionRow → Type 0) (rows : List ExecutionRow)
    → All (λ r. (row_at execution_key r.id w.executions ≡ some r) × Q r) rows
    → All (Listed w) (map to_domain rows)
unfolding to_domain
rows-Listed w Q [] all = tt
rows-Listed w Q (r ∷ rows) ((here, _), all) = ((r, here, refl), rows-Listed w Q rows all)

module _ (env : Env) (laws : EnvLaws env) where
  pub retry_round-Kept :
      (node : String) (batch_size : ℤ) (w : World) → Kept w (retry_round env node batch_size w).1
  unfolding retry_round repo.find_retryable_executions dao.find_retryable_executions retry
  retry_round-Kept node batch_size w =
      let t = env.clock w.tick in
      elim (laws.executions.select_law (suc w.tick)
        (λ r.
          is_failed_retryable r.status && leb_ℤ r.next_retry_time t && leb_ℤ r.next_retry_time t)
        (λ r. pos 0) batch_size w.executions) [
          | inl down ↦ rw down (Kept-same w _ refl refl refl refl)
          | inr (rows, found, all, _) ↦
              let w' = record w { tick = suc (suc w.tick) } in
              rw found (
                Kept-trans {b = w'} (Kept-same w w' refl refl refl refl) (
                  for_each-Kept (retry env node) (λ e x known. Kept-spawn x _ known)
                    (map to_domain rows) w' (rows-Listed w' _ rows all)))
        ]

  pub reschedule_round-Kept :
      (node : String) (batch_size : ℤ) (w : World)
      → Kept w (reschedule_round env node batch_size w).1
  unfolding reschedule_round repo.find_reschedulable_executions dao.find_reschedulable_executions
      reschedule
  reschedule_round-Kept node batch_size w =
      elim (laws.executions.select_law w.tick (λ r. is_failed_rescheduled r.status) (λ r. r.utime)
        batch_size w.executions) [
          | inl down ↦ rw down (Kept-same w _ refl refl refl refl)
          | inr (rows, found, all, _) ↦
              let w' = record w { tick = suc w.tick } in
              rw found (
                Kept-trans {b = w'} (Kept-same w w' refl refl refl refl) (
                  for_each-Kept (reschedule env node) (λ e x known. Kept-spawn x _ known)
                    (map to_domain rows) w' (rows-Listed w' _ rows all)))
        ]

  interrupted-Kept :
      (reply : Option (Bool × Option ProtoState)) (w : World) → Kept w (interrupted env reply w).1
  interrupted-Kept none w = Kept-refl w
  interrupted-Kept (some (true, state)) w =
      update_state-Kept env laws (execution_state_from_proto state) w
  interrupted-Kept (some (false, state)) w = Kept-refl w

  interrupt_at-Kept :
      (e : TaskExecution) (c : Option GrpcConfig) (w : World) → Kept w (interrupt_at env e c w).1
  interrupt_at-Kept e none w = Kept-refl w
  interrupt_at-Kept e (some c) w =
      Kept-trans (ticked w) (interrupted-Kept (env.interrupt w.tick c.service_name e.id) _)

  pub interrupt_round-Kept :
      (batch_size : ℤ) (w : World) → Kept w (interrupt_round env batch_size w).1
  unfolding interrupt_round repo.find_timeout_executions dao.find_timeout_executions
      interrupt_task_execution
  interrupt_round-Kept batch_size w =
      let t = env.clock w.tick in
      elim (laws.executions.select_law (suc w.tick) (λ r. leb_ℤ r.deadline t && is_running r.status)
        (λ r. r.deadline) batch_size w.executions) [
          | inl down ↦ rw down (Kept-same w _ refl refl refl refl)
          | inr (rows, found, all, _) ↦
              let w' = record w { tick = suc (suc w.tick) } in
              rw found (
                Kept-trans {b = w'} (Kept-same w w' refl refl refl refl) (
                  for_each-Kept (interrupt_task_execution env)
                    (λ e x known. interrupt_at-Kept e e.task.grpc_config x) (map to_domain rows) w'
                    (rows-Listed w' _ rows all)))
        ]

  record_result-Kept :
      (e : Event) (w : World) → Announced e.exec_id w.events → Kept w (record_result env e w).1
  unfolding repo.update_schedule_result
  record_result-Kept e w announced = elim (Bool-cases (is_success e.exec_status)) [
    | inl y ↦ rw y (
        Kept-trans (ticked w) (
          update_schedule_result-Kept env laws e.exec_id success (pos 100) _ none ""
            (record w { tick = suc w.tick }) (λ over. announced) (λ r found. completed refl)))
    | inr n ↦ rw n (
        Kept-trans (ticked w) (
          update_schedule_result-Kept env laws e.exec_id failed (pos 0) _ none ""
            (record w { tick = suc w.tick }) (λ over. announced) (λ r found. completed refl)))
  ]

  abbrev finish : Event → Task → Act (Unit {0})
  finish e t =
      if is_preempted t.status then tasks.release env e.task_id e.schedule_node_id else pure tt

  finish-Kept : (e : Event) (t : Task) (w : World) → Kept w (finish e t w).1
  finish-Kept e t w = elim (Bool-cases (is_preempted t.status)) [
    | inl y ↦ rw y (release-Kept env laws e.task_id e.schedule_node_id w)
    | inr n ↦ rw n (Kept-refl w)
  ]

  pub handle_task-Kept :
      (e : Event) (w : World) → Announced e.exec_id w.events → Kept w (handle_task env e w).1
  unfolding handle_task
  handle_task-Kept e w announced =
      bind-Kept (record_result env e) w (record_result-Kept e w announced)
        (λ _. tasks.update_next_time env e.task_id >>= finish e)
        (λ _ _.
          bind-Kept (tasks.update_next_time env e.task_id) _
            (update_next_time-Kept env laws e.task_id _) (finish e) (λ t _. finish-Kept e t _))
