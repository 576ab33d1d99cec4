-- ===== src/Sdk.antt =====
-- sdk/executor/executor.go: the executions of one executor node.
pub mod Once
pub mod Context
pub mod Tasks
use ework_runner.Prelude.{
  ℕ, suc, ◌+◌, ◌==◌, ℤ, pos, ◌==ℤ◌, String, Bool, true, false, Option, none, some, List, [], ◌∷◌,
  ◌++◌, length, if◌then◌else◌,
}
use ework_runner.Domain.Status.{
  ExecutionStatus, proto_unknown, proto_running, proto_success, proto_failed,
  proto_failed_reschedulable,
}
use ework_runner.Domain.Execution.{ProtoState}
use ework_runner.Env.{ExecuteRequest}

-- A goroutine that executeTask runs in; `context` numbers its cancellable context.
pub record Job : Type 0 where
  pub context : ℕ
  pub request : ExecuteRequest

pub record Executor : Type 0 where
  pub service_id : String
  pub states : ℤ → Option ProtoState
  pub cancels : ℤ → Option ℕ  -- the context that the cancel function is of
  pub cancelled : ℕ → Bool  -- by the number of the context
  pub jobs : List Job  -- the goroutines started, oldest first
  pub reported : List ProtoState  -- the final states sent to the scheduler, oldest first

module _ {A : Type 0} where
  abbrev pub store : ℤ → A → (ℤ → Option A) → ℤ → Option A
  store k a m j = if j ==ℤ k then some a else m j

  abbrev pub delete : ℤ → (ℤ → Option A) → ℤ → Option A
  delete k m j = if j ==ℤ k then none else m j

abbrev pub initial_state : String → ExecuteRequest → ProtoState
initial_state service_id req = record {
  id = req.eid;
  task_id = req.task_id;
  task_name = req.task_name;
  status = proto_running;
  running_progress = pos 0;
  request_reschedule = false;
  rescheduled_params = none;
  executor_node_id = service_id;
}

abbrev pub start : ExecuteRequest → Executor → Option ProtoState → ProtoState × Executor
start req e (some state) = (state, e)
start req e none =
    let state = initial_state e.service_id req in
    (
      state,
      record e {
        states = store req.eid state e.states;
        cancels = store req.eid (length e.jobs) e.cancels;
        jobs = e.jobs ++ (record { context = length e.jobs; request = req }) ∷ [];
      },
    )

unfoldable pub execute : ExecuteRequest → Executor → ProtoState × Executor
execute req e = start req e (e.states req.eid)

-- The end of executeTask: `failed` says whether the handler is missing or returned an error.
abbrev pub final_status : Bool → Bool → ExecutionStatus
final_status true failed = proto_failed_reschedulable
final_status false true = proto_failed
final_status false false = proto_success

abbrev pub final_state : ExecutionStatus → ProtoState → ProtoState
final_state proto_success state = record state {
  status = proto_success;
  running_progress = pos 100;
}
final_state status state = record state { status = status }

abbrev pub report_final_result : ℤ → ExecutionStatus → Option ProtoState → Executor → Executor
report_final_result eid status none e = e
report_final_result eid status (some state) e = record e {
  states = store eid (final_state status state) e.states;
  reported = e.reported ++ final_state status state ∷ [];
}

unfoldable pub finish_task : Job → Bool → Executor → Executor
finish_task job failed e =
    let eid = job.request.eid in
    let reported =
      report_final_result eid (final_status (e.cancelled job.context) failed) (e.states eid) e in
    record reported { cancels = delete eid reported.cancels }

abbrev pub state_of : ℤ → Option ProtoState → ProtoState
state_of eid (some state) = state
state_of eid none = record {
  id = eid;
  task_id = pos 0;
  task_name = "";
  status = proto_unknown;
  running_progress = pos 0;
  request_reschedule = false;
  rescheduled_params = none;
  executor_node_id = "";
}

unfoldable pub query : ℤ → Executor → ProtoState
query eid e = state_of eid (e.states eid)

-- Whether the request has succeeded, with the state.
abbrev pub interrupted :
    Option ℕ → Option ProtoState → Executor → (Bool × Option ProtoState) × Executor
interrupted none state e = ((false, none), e)
interrupted (some c) none e =
    ((false, none), record e { cancelled = λ k. if k == c then true else e.cancelled k })
interrupted (some c) (some state) e =
    ((true, some state), record e { cancelled = λ k. if k == c then true else e.cancelled k })

unfoldable pub interrupt : ℤ → Executor → (Bool × Option ProtoState) × Executor
interrupt eid e = interrupted (e.cancels eid) (e.states eid) e
