-- ===== src/Runner.antt =====
-- internal/runner: the registration of runners, which is an event.
use ework_runner.Prelude.{ℕ, String, Option, none, some, List}
use ework_runner.Action.{Action, Result, ok, err, panic}

pub record Runner : Type 0 where
  pub codebook_uid : String
  pub codebook_secret : String
  pub name : String
  pub tags : List String
  pub desc : String

-- The request has the fields of a runner.
pub record RegisterRunnerReq : Type 0 where
  pub codebook_uid : String
  pub codebook_secret : String
  pub name : String
  pub tags : List String
  pub desc : String

pub data RunnerAction : Type 0 where
  register_action unregister_action : RunnerAction

unfoldable pub to_uint8 : RunnerAction → ℕ
to_uint8 register_action = 1
to_uint8 unregister_action = 2

pub record TaskRunnerEvent : Type 0 where
  pub codebook_uid : String
  pub codebook_secret : String
  pub worker_name : String
  pub topic : String
  pub name : String
  pub tags : List String
  pub desc : String
  pub action : RunnerAction

unfoldable pub to_domain : RegisterRunnerReq → Runner
to_domain req = record {
  codebook_uid = req.codebook_uid;
  codebook_secret = req.codebook_secret;
  name = req.name;
  tags = req.tags;
  desc = req.desc;
}

abbrev pub runner_event : String → Runner → TaskRunnerEvent
runner_event worker_name r = record {
  codebook_uid = r.codebook_uid;
  codebook_secret = r.codebook_secret;
  worker_name = worker_name;
  topic = "";
  name = r.name;
  tags = r.tags;
  desc = "";
  action = register_action;
}

module _ {S : Type 0} (produce : TaskRunnerEvent → Action S (Unit {0})) where
  -- An error of the producer is logged, and the registration succeeds all the same.
  abbrev pub drop_error : Result (Unit {0}) × S → Result (Unit {0}) × S
  drop_error (ok _, s) = (ok tt, s)
  drop_error (err e, s) = (ok tt, s)
  drop_error (panic, s) = (panic, s)

  -- Register of the service; `worker_name` is read from the configuration, and a configuration
  -- that cannot be decoded panics.
  unfoldable pub register : Option String → Runner → Action S (Unit {0})
  register none r s = (panic, s)
  register (some worker_name) r s = drop_error (produce (runner_event worker_name r) s)

  -- Register of the web handler
  unfoldable pub handle_register : Option String → RegisterRunnerReq → Action S (Unit {0})
  handle_register worker_name req = register worker_name (to_domain req)
