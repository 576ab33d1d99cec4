-- ===== src/Repository/Task.antt =====
-- internal/repository/task.go
use ework_runner.Prelude.{ℤ, pos, String, NilParams, List, map, if◌then◌else◌}
use ework_runner.Domain.Status.{TaskStatus}
use ework_runner.Domain.Task.{Task}
use ework_runner.Action.{pure, ◌>>=◌}
use ework_runner.Rows.{TaskRow, nullable, no_grpc, no_http, no_retry}
use ework_runner.Env.{Env, Act}
use ework_runner.Dao.Task as dao
use ework_runner.Dao.Task.{json_params}
use ework_runner.Repository.{to_column, from_column, params_from}

unfoldable pub to_entity : Task → TaskRow
to_entity t = record {
  id = t.id;
  biz_id = pos 0;
  name = t.name;
  type = t.type;
  cron_expr = t.cron_expr;
  grpc_config = to_column no_grpc t.grpc_config;
  http_config = to_column no_http t.http_config;
  retry_config = to_column no_retry t.retry_config;
  schedule_params = json_params t.schedule_params;
  max_execution_seconds = t.max_execution_seconds;
  schedule_node_id = nullable t.schedule_node_id;
  next_time = t.next_time;
  status = t.status;
  version = t.version;
  ctime = t.ctime;
  utime = t.utime;
}

unfoldable pub to_domain : TaskRow → Task
to_domain r = record {
  id = r.id;
  name = r.name;
  type = r.type;
  cron_expr = r.cron_expr;
  grpc_config = from_column r.grpc_config;
  http_config = from_column r.http_config;
  retry_config = from_column r.retry_config;
  max_execution_seconds = r.max_execution_seconds;
  schedule_node_id = if r.schedule_node_id.valid then r.schedule_node_id.text else "";
  schedule_params = params_from r.schedule_params.valid r.schedule_params.val;
  next_time = r.next_time;
  status = r.status;
  version = r.version;
  ctime = r.ctime;
  utime = r.utime;
}

module _ (env : Env) where
  unfoldable pub create : Task → Act Task
  create t = do r ← dao.create env (to_entity t); pure (to_domain r)

  unfoldable pub get_by_id : ℤ → Act Task
  get_by_id id = do r ← dao.get_by_id env id; pure (to_domain r)

  unfoldable pub schedulable_tasks : ℤ → ℤ → Act (List Task)
  schedulable_tasks preempted_timeout_ms limit = do
    rows ← dao.find_schedule_tasks env preempted_timeout_ms limit
    pure (map to_domain rows)

  unfoldable pub acquire : ℤ → ℤ → String → Act Task
  acquire id version node = do r ← dao.acquire env id version node; pure (to_domain r)

  unfoldable pub release : ℤ → String → Act Task
  release id node = do r ← dao.release env id node; pure (to_domain r)

  unfoldable pub renew : String → Act (Unit {0})
  renew node = dao.renew env node

  unfoldable pub update_next_time : ℤ → ℤ → ℤ → Act Task
  update_next_time id version next_time = do
    r ← dao.update_next_time env id version next_time
    pure (to_domain r)

  unfoldable pub update_schedule_params : ℤ → ℤ → NilParams → Act Task
  update_schedule_params id version params = do
    r ← dao.update_schedule_params env id version params
    pure (to_domain r)

  unfoldable pub update_status : ℤ → TaskStatus → Act Task
  update_status id status = do r ← dao.update_status env id status; pure (to_domain r)
