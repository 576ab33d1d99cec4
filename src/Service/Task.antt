-- ===== src/Service/Task.antt =====
-- internal/service/task/service.go and internal/service/acquirer/task_acquirer.go
use ework_runner.Prelude.{
  ℤ, pos, ltb_ℤ, String, NilParams, ◌&&◌, List, Option, none, some, if◌then◌else◌,
}
use ework_runner.Domain.Errors.{invalid_task_cron_expr}
use ework_runner.Domain.Status.{inactive, is_one_time}
use ework_runner.Domain.Task.{Task, Time, zero_time, at, calculate_next_time}
use ework_runner.Domain.Task as domain
use ework_runner.Action.{pure, raise, ◌>>=◌, ◌>>◌}
use ework_runner.Env.{Env, Act, now}
use ework_runner.Repository.Task as repo

-- An error of the cron parser, wrapped.
abbrev pub or_invalid_cron : Option Time → Act Time
or_invalid_cron none = raise invalid_task_cron_expr
or_invalid_cron (some t) = pure t

module _ (env : Env) where
  abbrev create_at : Task → Time → Act Task
  create_at t zero_time = raise invalid_task_cron_expr
  create_at t (at next) = repo.create env (record t { next_time = next })

  unfoldable pub create : Task → Act Task
  create t = do
    moment ← now env
    next ← or_invalid_cron (calculate_next_time env.cron moment t)
    create_at t next

  unfoldable pub schedulable_tasks : ℤ → ℤ → Act (List Task)
  schedulable_tasks = repo.schedulable_tasks env

  unfoldable pub get_by_id : ℤ → Act Task
  get_by_id = repo.get_by_id env

  abbrev pub set_next : Task → Time → Act Task
  set_next t zero_time = pure t
  set_next t (at next) = repo.update_next_time env t.id t.version next

  abbrev pub reschedule : Task → Act Task
  reschedule t = do
    moment ← now env
    next ← or_invalid_cron (calculate_next_time env.cron moment t)
    set_next t next

  -- A one-time task whose time has passed becomes inactive; any other gets its next time.
  unfoldable pub update_next_time : ℤ → Act Task
  update_next_time id = do
    t ← repo.get_by_id env id
    moment ← now env
    if is_one_time t.type && ltb_ℤ (pos 0) t.next_time && ltb_ℤ t.next_time moment
        then repo.update_status env id inactive
        else reschedule t

  unfoldable pub update_schedule_params : Task → NilParams → Act Task
  update_schedule_params t params =
      let t' = domain.update_schedule_params t params in
      repo.update_schedule_params env t'.id t'.version t'.schedule_params

  -- TaskAcquirer
  unfoldable pub acquire : ℤ → ℤ → String → Act Task
  acquire = repo.acquire env

  unfoldable pub release : ℤ → String → Act (Unit {0})
  release id node = do repo.release env id node; pure tt

  unfoldable pub renew : String → Act (Unit {0})
  renew = repo.renew env
