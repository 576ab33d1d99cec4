-- ===== src/Domain/Errors.antt =====
-- internal/errs/error.go. A wrapped error (`%w`) is the sentinel that it wraps.
pub data Error : Type 0 where
  -- sentinels of package errs
  task_preempt_failed task_renew_failed task_release_failed : Error
  task_update_next_time_failed task_update_schedule_params_failed : Error
  task_update_status_failed : Error
  execution_not_found invalid_task_execution_status interrupt_task_execution_failed : Error
  invalid_task_cron_expr : Error
  set_execution_state_running_failed update_execution_status_failed : Error
  update_execution_status_and_end_time_failed update_execution_running_progress_failed : Error
  update_execution_retry_result_failed execution_max_retries_exceeded : Error
  -- errors made on the spot, and errors of the database, the broker and the executors
  database_failed task_id_missing no_grpc_config not_registered call_failed : Error
  no_executor_node code_missing vars_failed file_failed script_failed : Error
  etcd_failed json_failed unsupported_source listen_failed bad_address no_ip : Error
  missing_metadata missing_token invalid_token token_expired invalid_signature : Error
  topic_exists topic_missing broker_failed : Error
