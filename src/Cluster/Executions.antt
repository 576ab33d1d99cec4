-- ===== src/Cluster/Executions.antt =====
-- The DAO of the executions.
use ework_runner.Prelude.{
  suc, ℤ, ◌==ℤ◌, ◌&&◌, String, NilParams, Bool, true, false, ◌≡◌, refl, inl, inr, some, arith,
  Option-cases, ==ℤ_iff,
}
use ework_runner.Domain.Status.{TaskExecutionStatus, is_running, is_terminal_status}
use ework_runner.Rows.{ExecutionRow}
use ework_runner.Env.{Env, World}
use ework_runner.Schema.{EnvLaws, execution_key, stored_execution}
use ework_runner.Dao.Execution.{
  has_id, can_start, deadline_at, started, schedule_result, retry_result, update_retry_result,
  set_running_state, update_progress, update_schedule_result, create,
}
use ework_runner.Database.{row_at, row_at_key}
use ework_runner.Service.Execution.Steps.{stays, starts}
use ework_runner.Cluster.Kept.{Move, reported, HasTask, Announced, Kept, Kept-same}
use ework_runner.Cluster.Writes.{Kept-update, Kept-insert}

module _ (env : Env) (laws : EnvLaws env) where
  pub update_progress-Kept :
      (id progress : ℤ) (w : World) → Kept w (update_progress env id progress w).1
  unfolding update_progress
  update_progress-Kept id progress w =
      let p : (ExecutionRow → Bool) = λ r. r.id ==ℤ id && is_running r.status in
      let f : (ExecutionRow → ExecutionRow) =
        λ r. record r { running_progress = progress; utime = env.clock w.tick } in
      let w' = record w {
        executions = (env.execution_table.update (suc w.tick) p f w.executions).1;
        tick = suc (suc w.tick);
      } in
      let e : (update_progress env id progress w).1 ≡ w' = ground arith in
      rw e (
        Kept-update env laws w (suc w.tick) (suc (suc w.tick)) p f (record {
          id = λ r. refl;
          task_id = λ r. refl;
          status = λ r hit over. inl over;
          moves = λ r found hit. reported stays;
        }))

  pub update_schedule_result-Kept :
      (id : ℤ) (status : TaskExecutionStatus) (progress end_time : ℤ) (params : NilParams)
      (node : String) (w : World)
      → (is_terminal_status status ≡ true → Announced id w.events)
      → ((r : ExecutionRow) → row_at execution_key id w.executions ≡ some r → Move r.status status)
      → Kept w (update_schedule_result env id status progress end_time params node w).1
  unfolding update_schedule_result
  update_schedule_result-Kept id status progress end_time params node w announced moves =
      let f = schedule_result status progress end_time params node (env.clock w.tick) in
      let w' = record w {
        executions = (env.execution_table.update (suc w.tick) (has_id id) f w.executions).1;
        tick = suc (suc w.tick);
      } in
      let e : (update_schedule_result env id status progress end_time params node w).1 ≡ w' =
        ground arith in
      rw e (
        Kept-update env laws w (suc w.tick) (suc (suc w.tick)) (has_id id) f (record {
          id = λ r. refl;
          task_id = λ r. refl;
          status = λ r hit over. inr (rw ((==ℤ_iff r.id id).0 hit) (announced over));
          moves = λ r found hit.
              moves r
                (row_at_key execution_key r.id id r w.executions found ((==ℤ_iff r.id id).0 hit));
        }))

  pub update_retry_result-Kept :
      (id count next : ℤ) (status : TaskExecutionStatus) (progress end_time : ℤ)
      (params : NilParams) (node : String) (w : World)
      → is_terminal_status status ≡ false
      → ((r : ExecutionRow) → row_at execution_key id w.executions ≡ some r → Move r.status status)
      → Kept w (update_retry_result env id count next status progress end_time params node w).1
  unfolding update_retry_result
  update_retry_result-Kept id count next status progress end_time params node w open_ moves =
      elim (Option-cases (env.driver_map params)) [
        | inl refused ↦ rw refused (Kept-same w _ refl refl refl refl)
        | inr (column, taken) ↦
            let f =
              retry_result count next status progress end_time column node (env.clock w.tick) in
            let w' = record w {
              executions = (env.execution_table.update (suc w.tick) (has_id id) f w.executions).1;
              tick = suc (suc w.tick);
            } in
            let e : (update_retry_result env id count next status progress end_time params node w).1
                ≡ w' =
              ground (arith, taken) in
            rw e (
              Kept-update env laws w (suc w.tick) (suc (suc w.tick)) (has_id id) f (record {
                id = λ r. refl;
                task_id = λ r. refl;
                status = λ r hit over. ground (arith, open_, over);
                moves = λ r found hit. moves r (
                    row_at_key execution_key r.id id r w.executions found
                      ((==ℤ_iff r.id id).0 hit));
              }))
      ]

  pub set_running_state-Kept :
      (id progress : ℤ) (node : String) (w : World)
      → Kept w (set_running_state env id progress node w).1
  unfolding set_running_state
  set_running_state-Kept id progress node w =
      elim (laws.executions.first_law (suc w.tick) (has_id id) w.executions) [
        | inl down ↦ rw down (Kept-same w _ refl refl refl refl)
        | inr (row, read, found) ↦
            let p : (ExecutionRow → Bool) = λ r. r.id ==ℤ id && can_start r.status in
            let f =
              started progress node (env.clock w.tick)
                (deadline_at (env.clock w.tick) row.task_max_execution_seconds) in
            let w' = record w {
              executions = (env.execution_table.update (suc (suc w.tick)) p f w.executions).1;
              tick = suc (suc (suc w.tick));
            } in
            let e : (set_running_state env id progress node w).1 ≡ w' = ground (arith, read) in
            rw e (
              Kept-update env laws w (suc (suc w.tick)) (suc (suc (suc w.tick))) p f (record {
                id = λ r. refl;
                task_id = λ r. refl;
                status = λ r hit over. cc;
                moves = λ r found hit. reported (starts (ground arith));
              }))
      ]

  pub create-Kept :
      (new : ExecutionRow) (w : World)
      → HasTask new.task_id w
      → ((k : ℤ) → is_terminal_status (stored_execution k new).status ≡ false)
      → Kept w (create env new w).1
  unfolding create
  create-Kept new w of_task open_ =
      let t = env.clock w.tick in
      let new' = record new {
        utime = t;
        ctime = t;
        deadline = deadline_at t new.task_max_execution_seconds;
      } in
      let w' = record w {
        executions = (env.execution_table.insert (suc w.tick) new' w.executions).1;
        tick = suc (suc w.tick);
      } in
      let e : (create env new w).1 ≡ w' = ground arith in
      rw e (Kept-insert env laws w (suc w.tick) (suc (suc w.tick)) new' of_task open_)
