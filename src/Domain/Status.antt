-- ===== src/Domain/Status.antt =====
-- The status and type constants of internal/domain/task.go and task_execution.go.
use ework_runner.Prelude.{Bool, true, false, ◌||◌, String}

pub data TaskStatus : Type 0 where
  active preempted inactive : TaskStatus
  -- the empty string, Go's zero value
  no_task_status : TaskStatus

-- A TaskType is a string: a request may bring one that is neither constant.
pub data TaskType : Type 0 where
  recurring one_time : TaskType
  unlisted : String → TaskType

abbrev pub is_one_time : TaskType → Bool
is_one_time one_time = true
is_one_time _ = false

abbrev pub is_recurring : TaskType → Bool
is_recurring recurring = true
is_recurring _ = false

abbrev pub is_preempted : TaskStatus → Bool
is_preempted preempted = true
is_preempted _ = false

abbrev pub is_active : TaskStatus → Bool
is_active active = true
is_active _ = false

abbrev pub is_inactive : TaskStatus → Bool
is_inactive inactive = true
is_inactive _ = false

pub data TaskExecutionStatus : Type 0 where
  unknown prepare running success failed failed_retryable failed_rescheduled : TaskExecutionStatus
  -- the empty string, Go's zero value
  no_status : TaskExecutionStatus

abbrev pub is_valid : TaskExecutionStatus → Bool
is_valid unknown = false
is_valid failed_rescheduled = false
is_valid no_status = false
is_valid _ = true

abbrev pub is_prepare : TaskExecutionStatus → Bool
is_prepare prepare = true
is_prepare _ = false

abbrev pub is_running : TaskExecutionStatus → Bool
is_running running = true
is_running _ = false

abbrev pub is_success : TaskExecutionStatus → Bool
is_success success = true
is_success _ = false

abbrev pub is_failed : TaskExecutionStatus → Bool
is_failed failed = true
is_failed _ = false

abbrev pub is_failed_retryable : TaskExecutionStatus → Bool
is_failed_retryable failed_retryable = true
is_failed_retryable _ = false

abbrev pub is_failed_rescheduled : TaskExecutionStatus → Bool
is_failed_rescheduled failed_rescheduled = true
is_failed_rescheduled _ = false

abbrev pub is_terminal_status : TaskExecutionStatus → Bool
is_terminal_status s = is_success s || is_failed s

-- The enum of the executor protocol; `unrecognized` stands for every other number on the wire.
pub data ExecutionStatus : Type 0 where
  proto_unknown proto_running proto_failed_retryable proto_failed_reschedulable : ExecutionStatus
  proto_failed proto_success unrecognized : ExecutionStatus

unfoldable pub status_from_proto : ExecutionStatus → TaskExecutionStatus
status_from_proto proto_running = running
status_from_proto proto_success = success
status_from_proto proto_failed = failed
status_from_proto proto_failed_retryable = failed_retryable
status_from_proto proto_failed_reschedulable = failed_rescheduled
status_from_proto _ = unknown
