-- ===== src/Tests/Schedulers.antt =====
-- A scheduler node from its start to its stop, on the sample world.
use ework_runner.Prelude.{pos, ◌≡◌, refl, true, false, List, [], ◌∷◌, find, ◌==ℤ◌}
use ework_runner.Domain.Task.{Task}
use ework_runner.Action.{ok}
use ework_runner.Rows.{TaskRow}
use ework_runner.Env.{World}
use ework_runner.Dao.Task as task_dao
use ework_runner.Repository.Task as task_repo
use ework_runner.Service.Task as tasks
use ework_runner.Scheduler.Node.{
  Scheduler, Moment, new_scheduler, start, stop, starts, schedule_turn, ticks, sees_done, stops,
  run, step, crash,
}
use ework_runner.Scheduler.Crash.{step-panic}
use ework_runner.Cluster.Nodes.{RunTurns, run-take_turns}
use ework_runner.Cluster.Stopped.{RunStopped, run-stopped}
use ework_runner.Tests.Memory.{selected, any, take}
use ework_runner.Tests.Samples.{env, world, free_task}
use ework_runner.Tests.Rounds.{config}

abbrev node : Scheduler
unfolding new_scheduler start
node = start (new_scheduler "a" config)

abbrev life : List Moment
life = starts ∷ schedule_turn ∷ ticks true ∷ stops ∷ ticks false ∷ sees_done ∷ schedule_turn ∷ []

run-take_turns_example :
    let s = new_scheduler "a" config in RunTurns env s false life world (run env life s world).1
unfolding new_scheduler
run-take_turns_example = run-take_turns env life (new_scheduler "a" config) world

abbrev last_moments : List Moment
last_moments = ticks true ∷ schedule_turn ∷ ticks false ∷ sees_done ∷ []

run-stopped_example :
    RunStopped env last_moments (stop node) world (run env last_moments (stop node) world)
unfolding stop
run-stopped_example = run-stopped env last_moments (stop node) world refl refl

-- A task that is started over HTTP alone.
abbrev http_task : TaskRow
http_task = record free_task { grpc_config = record free_task.grpc_config { valid = false } }

abbrev http_world : World
http_world = record world { tasks = http_task ∷ [] }

abbrev http_copy : Task
unfolding task_repo.to_domain
http_copy = task_repo.to_domain http_task

abbrev after_query : World
unfolding tasks.schedulable_tasks task_repo.schedulable_tasks task_dao.find_schedule_tasks selected
    any
after_query = (tasks.schedulable_tasks env (pos 60000) (pos 10) http_world).1

found_task :
    tasks.schedulable_tasks env (pos 60000) (pos 10) http_world ≡ (ok (http_copy ∷ []), after_query)
unfolding tasks.schedulable_tasks task_repo.schedulable_tasks task_dao.find_schedule_tasks selected
    any ◌==ℤ◌ take find http_copy task_repo.to_domain
found_task = refl

step-panic_example : step env schedule_turn node http_world ≡ (crash node, after_query)
unfolding node http_copy
step-panic_example =
    step-panic env node 0 http_copy [] http_world after_query refl refl found_task refl
