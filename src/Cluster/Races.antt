-- ===== src/Cluster/Races.antt =====
-- What may happen between the check and the write of UpdateState.
use ework_runner.Prelude.{
  ◌≡◌, ◌≢◌, refl, sym, ap, ◌∙◌, ℕ, ℤ, suc, Bool, true, false, String, NilParams, some, List, inl,
  inr, find_sound, ==ℤ_iff,
}
use ework_runner.Domain.Status.{TaskExecutionStatus, failed_rescheduled, is_terminal_status}
use ework_runner.Domain.Errors.{execution_not_found}
use ework_runner.Domain.Execution.{ExecutionState}
use ework_runner.Action.{ok, err}
use ework_runner.Database.{row_at, row_at-update_where, update_cases, failed}
use ework_runner.Rows.{ExecutionRow}
use ework_runner.Env.{Env, World}
use ework_runner.Schema.{EnvLaws, execution_key, stored_execution}
use ework_runner.Dao.Execution as dao
use ework_runner.Dao.Execution.{has_id, schedule_result}
use ework_runner.Service.Execution.Reports.{update_state-cases, read}
use ework_runner.Repository.Execution as repo
use ework_runner.Repository.Execution.{to_domain}
use ework_runner.Service.Execution.{update_state, dispatch, update_schedule_state, rescheduled}
use ework_runner.Cluster.{Turn, take_turns}

-- The database does not fail on a table as it is: it makes every UPDATE of it.
abbrev pub Updates : Env → World → Type 0
Updates env w =
    (t : ℕ) (p : ExecutionRow → Bool) (f : ExecutionRow → ExecutionRow)
    → (env.execution_table.update t p f w.executions).0 ≢ failed

ended-rescheduled : (s : TaskExecutionStatus) → is_terminal_status s ≡ true → failed_rescheduled ≢ s
ended-rescheduled s ended same = cc (ended, ap is_terminal_status same)

status_of : {r s : ExecutionRow} → some r ≡ some s → r.status ≡ s.status
status_of e = cc e

module _ (env : Env) (laws : EnvLaws env) where
  -- The UPDATE of an ended execution to FAILED_RESCHEDULED is made.
  update_schedule_result-ended :
      (id : ℤ) (status : TaskExecutionStatus) (progress end_time : ℤ) (params : NilParams)
      (node : String) (w : World) (old : ExecutionRow)
      → status ≡ failed_rescheduled
      → row_at execution_key id w.executions ≡ some old
      → is_terminal_status old.status ≡ true
      → Updates env w
      → let (result, w') =
          dao.update_schedule_result env id status progress end_time params node w in
        (result ≡ ok tt)
        × (r' : ExecutionRow) × (row_at execution_key id w'.executions ≡ some r')
        × (r'.status ≡ failed_rescheduled)
  unfolding dao.update_schedule_result
  update_schedule_result-ended id status progress end_time params node w old waits found ended
        answers =
      let f = schedule_result status progress end_time params node (env.clock w.tick) in
      let hit = find_sound _ w.executions old found in
      let written =
        row_at-update_where execution_key (has_id id) f (λ r. refl) id w.executions
        ∙ rw (found, hit) refl in
      elim (update_cases execution_key stored_execution env.execution_table laws.executions
        (suc w.tick) (has_id id) f id w.executions (λ r h. (==ℤ_iff r.id id).0 h)) [
          | inl down ↦ absurd (answers (suc w.tick) (has_id id) f (ap (λ x. x.0) down))
          | inr (inl (n, done_n, z, same)) ↦ absurd (
              ended-rescheduled old.status ended
                (sym waits ∙ status_of (sym written ∙ ap (row_at execution_key id) same ∙ found)))
          | inr (inr (n, old', done_n, nz, found', _)) ↦
              (rw (done_n, nz) refl, f old, rw (done_n, nz) written, waits)
        ]

  -- Two reports that cross. A report of a rescheduling has read its execution while this was open;
  -- other turns follow, after which the execution has ended; then the report goes on, on a
  -- database that does not fail. It succeeds, and the execution that had ended waits for a
  -- rescheduling. Without the turns in between, the two halves are UpdateState.
  pub dispatch-take_turns :
      (state : ExecutionState) (r old : ExecutionRow) (turns : List Turn) (w : World)
      → state.status ≡ failed_rescheduled
      → row_at execution_key state.id w.executions ≡ some r
      → is_terminal_status r.status ≡ false
      → (update_state env state w).0 ≢ err execution_not_found
      → let between = take_turns env turns (read w) in
        row_at execution_key state.id between.executions ≡ some old
        → is_terminal_status old.status ≡ true
        → Updates env between
        → let after = dispatch env failed_rescheduled (to_domain r) state between in
          (update_state env state w ≡ dispatch env failed_rescheduled (to_domain r) state (read w))
          × (after.0 ≡ ok tt)
          × (r' : ExecutionRow) × (row_at execution_key state.id after.1.executions ≡ some r')
          × (r'.status ≡ failed_rescheduled)
  unfolding dispatch update_schedule_state repo.update_schedule_result
  dispatch-take_turns state r old turns w status found open_ readable found' ended answers =
      let between = take_turns env turns (read w) in
      let (done, r', at, waits) =
        update_schedule_result-ended state.id state.status state.running_progress
          (env.clock between.tick) (rescheduled env (to_domain r) state).task.schedule_params
          state.executor_node_id (record between { tick = suc between.tick }) old status found'
          ended answers in
      (halves, done, r', at, waits)
    where
      same_row : {s : ExecutionRow} → some r ≡ some s → s ≡ r
      same_row e = cc e

      halves :
          update_state env state w ≡ dispatch env failed_rescheduled (to_domain r) state (read w)
      halves = elim (update_state-cases env laws state w) [
        | inl e ↦ absurd (readable (ap (λ x. x.0) e))
        | inr (inl (s, found_s, ended_s, e)) ↦ absurd (cc (found, found_s, open_, ended_s))
        | inr (inr (s, found_s, open_s, e)) ↦
            e
            ∙ ap (λ x. dispatch env x (to_domain s) state (read w)) status
            ∙ ap (λ x. dispatch env failed_rescheduled (to_domain x) state (read w))
                (same_row (sym found ∙ found_s))
      ]
