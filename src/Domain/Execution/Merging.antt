-- ===== src/Domain/Execution/Merging.antt =====
-- Which of several parameters of the same name an executor sees.
use ework_runner.Prelude.{
  ℤ, String, NilParams, entries, lookup, merge, lookup-insert, lookup-merge, ◌==ˢ◌, ◌≡◌, Option,
  none, some, [], if◌then◌else◌, arith,
}
use ework_runner.Domain.Execution.{
  TaskExecution, grpc_params, business_params, merge_task_schedule_params,
}

-- The value of `a`, or else that of `b`.
abbrev pub first_of : Option String → Option String → Option String
first_of none b = b
first_of (some v) b = some v

-- The parameters of a gRPC call: "max_execution_seconds" is the task's own limit, and any other
-- value is that of the schedule parameter of that name, if there is one, and else that of the
-- business parameter.
pub lookup-grpc_params :
    (format_int : ℤ → String) (te : TaskExecution) (k : String)
    → lookup k (grpc_params format_int te) ≡ (
        if "max_execution_seconds" ==ˢ k
        then some (format_int te.task.max_execution_seconds)
        else first_of
            (lookup k (entries te.task.schedule_params))
            (lookup k (business_params te.task.grpc_config)))
unfolding grpc_params lookup
lookup-grpc_params format_int te k =
    let business = merge [] (business_params te.task.grpc_config) in
    let schedule = entries te.task.schedule_params in
    let seconds = format_int te.task.max_execution_seconds in
    ground (
      arith,
      lookup-insert "max_execution_seconds" k seconds (merge business schedule),
      lookup-merge k business schedule,
      lookup-merge k [] (business_params te.task.grpc_config),
    )

-- After a merge of schedule parameters, the value under each key is the new one if there is one,
-- and else the old one.
pub lookup-merge_task_schedule_params :
    (te : TaskExecution) (params : NilParams) (k : String)
    → lookup k (entries (merge_task_schedule_params te params).task.schedule_params)
      ≡ first_of (lookup k (entries params)) (lookup k (entries te.task.schedule_params))
unfolding merge_task_schedule_params lookup
lookup-merge_task_schedule_params te params k =
    ground (arith, lookup-merge k (entries te.task.schedule_params) (entries params))
