-- ===== src/Tests/Turns.antt =====
-- Turns of the whole system, on the sample world.
use ework_runner.Prelude.{
  ℕ, pos, ℤ, ◌+ℤ◌, ◌==ℤ◌, ◌≡◌, refl, true, false, some, none, ◌≢◌, All, List, [], ◌∷◌, ◌++◌, find,
}
use ework_runner.Domain.Status.{success, failed_rescheduled, active, is_terminal_status}
use ework_runner.Domain.Task.{at, calculate_next_time}
use ework_runner.Action.{ok, err}
use ework_runner.Database.{row_at, update_where}
use ework_runner.Rows.{ExecutionRow, TaskRow, null_string, column_is}
use ework_runner.Env.{World}
use ework_runner.Schema.{task_key, execution_key, stored_execution}
use ework_runner.Dao.Execution as dao
use ework_runner.Dao.Task as task_dao
use ework_runner.Repository.Execution as repo
use ework_runner.Repository.Task as task_repo
use ework_runner.Service.Task as tasks
use ework_runner.Tests.Memory.{selected, any, memory-answers}
use ework_runner.Service.Execution.{
  update_state, update_schedule_state, handle_reports, handle_from, dispatch, send_completed_event,
}
use ework_runner.Service.Execution.Effects.{end_event}
use ework_runner.Service.Execution.Reports.{read}
use ework_runner.Domain.Errors.{execution_not_found}
use ework_runner.Complete.{handle_task}
use ework_runner.Dao.Task.Versions.{Grows}
use ework_runner.Cluster.{
  Turn, schedules, renews, invokes, reports, consumes, reschedules, interrupts, retries, take_turn,
  take_turns,
}
use ework_runner.Compensator.Loops.{
  Pass, goes_on, done_after, start_retry, start_reschedule, start_interrupt,
}
use ework_runner.Cluster.Loops.{Makes, start-take_turns}
use ework_runner.Cluster.Races.{dispatch-take_turns}
use ework_runner.Cluster.Kept.{Moves, IsSound}
use ework_runner.Cluster.Sound.{take_turns-IsSound}
use ework_runner.Cluster.Interleaved.{
  Deed, reads, takes, goes_on, do_deed, do_deeds, AllTimely, do_deeds-Moves,
}
use ework_runner.Scheduler.{renew_round}
use ework_runner.Cluster.Ending.{update_state-handle_task}
use ework_runner.Tests.Samples.{env, env-EnvLaws, world, held_task, fresh_row, report}
use ework_runner.Tests.Rounds.{config}

-- Node a starts task 1, its executor answers, both report, and the broker delivers twice.
abbrev turns : List Turn
turns =
    schedules "a" config
    ∷ invokes "a" 0
    ∷ renews "a"
    ∷ reports ((record { execution_state = report (pos 1) success }) ∷ [])
    ∷ consumes 0
    ∷ interrupts (pos 10)
    ∷ retries "b" (pos 10)
    ∷ consumes 0
    ∷ []

abbrev no_executions : World
no_executions = record world { executions = [] }

take_turns-IsSound_example : IsSound (take_turns env turns no_executions)
take_turns-IsSound_example = take_turns-IsSound env env-EnvLaws turns no_executions refl refl refl

-- A report of execution 3 is read, node a renews its tasks, and the report goes on.
abbrev deeds : List Deed
deeds =
    reads
    ∷ takes (renews "a")
    ∷ goes_on fresh_row (report (pos 3) failed_rescheduled)
    ∷ takes (consumes 0)
    ∷ []

still_open :
    {r r' : ExecutionRow}
    → some r ≡ some r'
    → is_terminal_status r.status ≡ false
    → is_terminal_status r'.status ≡ false
still_open e open_ = cc (e, open_)

deeds_timely : AllTimely env deeds world
unfolding do_deed take_turn renew_round find ◌==ℤ◌ selected any tasks.renew task_repo.renew
    task_dao.renew column_is
deeds_timely = (tt, (tt, (((fresh_row, refl, refl), λ r' found. still_open found refl), (tt, tt))))

do_deeds-Moves_example :
    Grows world.tasks (do_deeds env deeds world).tasks
    × ((id : ℤ) (r : ExecutionRow)
        → row_at execution_key id world.executions ≡ some r
        → (r' : ExecutionRow) × (row_at execution_key id (do_deeds env deeds world).executions
            ≡ some r')
          × (r'.task_id ≡ r.task_id)
          × Moves r.status r'.status
          × (is_terminal_status r.status ≡ true → is_terminal_status r'.status ≡ true))
do_deeds-Moves_example = do_deeds-Moves env env-EnvLaws deeds world deeds_timely

ends_well : (update_state env (report (pos 3) success) world).0 ≡ ok tt
unfolding update_state repo.get_by_id dao.get_by_id repo.to_domain dispatch send_completed_event
    find ◌==ℤ◌
ends_well = refl

ends_handled :
    (handle_task env
      (end_event success fresh_row)
      (update_state env (report (pos 3) success) world).1).0
    ≡ ok tt
unfolding update_state repo.get_by_id dao.get_by_id repo.to_domain dispatch send_completed_event
    find ◌==ℤ◌ handle_task repo.update_schedule_result dao.update_schedule_result selected any
    tasks.update_next_time task_repo.get_by_id task_dao.get_by_id task_repo.to_domain
    task_repo.update_status task_dao.update_status task_dao.write_task update_where
    calculate_next_time task_repo.update_next_time task_dao.update_next_time tasks.release
    task_repo.release task_dao.release column_is
ends_handled = refl

update_state-handle_task_example :
    let w' = (update_state env (report (pos 3) success) world).1 in
    let e = end_event success fresh_row in
    (w'.events ≡ world.events ++ e ∷ [])
    × ((handle_task env e w').0 ≡ ok tt
        → (r' : ExecutionRow) × (t' : TaskRow) × (k : ℕ) × (row_at execution_key
              (pos 3)
              (handle_task env e w').1.executions
            ≡ some r')
          × (r'.status ≡ success)
          × (row_at task_key (pos 2) (handle_task env e w').1.tasks ≡ some t')
          × (t'.status ≡ active)
          × (t'.schedule_node_id ≡ null_string)
          × (t'.next_time ≡ pos 65000)
          × (t'.version ≡ pos 7 +ℤ pos 1 +ℤ pos 1))
unfolding find ◌==ℤ◌ column_is
update_state-handle_task_example =
    update_state-handle_task env env-EnvLaws (report (pos 3) success) world fresh_row held_task
      (λ m. at (pos 65000)) (λ m. pos 65000) (λ n e. refl) refl refl refl refl refl refl refl refl
      (λ m. refl) ends_well

-- The context ends while the loops wait after their second round.
abbrev passes : List Pass
passes = goes_on ∷ done_after ∷ goes_on ∷ []

start-take_turns_example :
    Makes env (retries "a" (pos 10)) 2 world (start_retry env "a" (pos 10) passes world)
    × Makes env (reschedules "a" (pos 10)) 2 world (start_reschedule env "a" (pos 10) passes world)
    × Makes env (interrupts (pos 10)) 2 world (start_interrupt env (pos 10) passes world)
start-take_turns_example = start-take_turns env "a" (pos 10) passes world

-- Execution 3 is read as running; then it ends; then the report of a rescheduling goes on.
abbrev meanwhile : List Turn
meanwhile = reports ((record { execution_state = report (pos 3) success }) ∷ []) ∷ consumes 0 ∷ []

abbrev between : World
between = take_turns env meanwhile (read world)

-- Its row after that.
abbrev old_row : ExecutionRow
unfolding dispatch update_schedule_state repo.update_schedule_result dao.update_schedule_result
    take_turns take_turn handle_reports handle_from update_state repo.get_by_id dao.get_by_id
    repo.to_domain send_completed_event find ◌==ℤ◌ handle_task selected any tasks.update_next_time
    task_repo.get_by_id task_dao.get_by_id task_repo.to_domain task_repo.update_status
    task_dao.update_status task_dao.write_task update_where calculate_next_time
    task_repo.update_next_time task_dao.update_next_time tasks.release task_repo.release
    task_dao.release column_is
old_row = elim (row_at execution_key (pos 3) between.executions) [ none ↦ fresh_row | some r ↦ r ]

has_ended :
    (row_at execution_key (pos 3) between.executions ≡ some old_row)
    × (is_terminal_status old_row.status ≡ true)
unfolding dispatch update_schedule_state repo.update_schedule_result dao.update_schedule_result
    take_turns take_turn handle_reports handle_from update_state repo.get_by_id dao.get_by_id
    repo.to_domain send_completed_event find ◌==ℤ◌ handle_task selected any tasks.update_next_time
    task_repo.get_by_id task_dao.get_by_id task_repo.to_domain task_repo.update_status
    task_dao.update_status task_dao.write_task update_where calculate_next_time
    task_repo.update_next_time task_dao.update_next_time tasks.release task_repo.release
    task_dao.release column_is old_row
has_ended = (refl, refl)

keyed : All (λ r. row_at execution_key r.id between.executions ≡ some r) between.executions
unfolding dispatch update_schedule_state repo.update_schedule_result dao.update_schedule_result
    take_turns take_turn handle_reports handle_from update_state repo.get_by_id dao.get_by_id
    repo.to_domain send_completed_event find ◌==ℤ◌ handle_task selected any tasks.update_next_time
    task_repo.get_by_id task_dao.get_by_id task_repo.to_domain task_repo.update_status
    task_dao.update_status task_dao.write_task update_where calculate_next_time
    task_repo.update_next_time task_dao.update_next_time tasks.release task_repo.release
    task_dao.release column_is
keyed = (refl, (refl, (refl, tt)))

readable : (update_state env (report (pos 3) failed_rescheduled) world).0 ≢ err execution_not_found
unfolding dispatch update_schedule_state repo.update_schedule_result dao.update_schedule_result
    take_turns take_turn handle_reports handle_from update_state repo.get_by_id dao.get_by_id
    repo.to_domain send_completed_event find ◌==ℤ◌ handle_task selected any tasks.update_next_time
    task_repo.get_by_id task_dao.get_by_id task_repo.to_domain task_repo.update_status
    task_dao.update_status task_dao.write_task update_where calculate_next_time
    task_repo.update_next_time task_dao.update_next_time tasks.release task_repo.release
    task_dao.release column_is
readable e = cc e

dispatch-take_turns_example :
    let state = report (pos 3) failed_rescheduled in
    let after = dispatch env failed_rescheduled (repo.to_domain fresh_row) state between in
    (update_state env state world
      ≡ dispatch env failed_rescheduled (repo.to_domain fresh_row) state (read world))
    × (after.0 ≡ ok tt)
    × (r' : ExecutionRow) × (row_at execution_key (pos 3) after.1.executions ≡ some r')
    × (r'.status ≡ failed_rescheduled)
unfolding find ◌==ℤ◌
dispatch-take_turns_example =
    dispatch-take_turns env env-EnvLaws (report (pos 3) failed_rescheduled) fresh_row old_row
      meanwhile world refl refl refl readable has_ended.0 has_ended.1
      (λ t p f.
        memory-answers execution_key stored_execution (λ k r. refl) t p f between.executions keyed)
