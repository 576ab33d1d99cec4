-- ===== src/Repository/RoundTrip.antt =====
-- What a task and an execution keep on the way into a row and back.
use ework_runner.Prelude.{
  pos, String, NilParams, ◌≡◌, refl, Option, none, some, eq_iff, arith, if◌then◌else◌,
}
use ework_runner.Domain.Status.{no_task_status}
use ework_runner.Domain.Task.{Task}
use ework_runner.Domain.Execution.{TaskExecution}
use ework_runner.Rows.{nullable}
use ework_runner.Dao.Task.{json_params}
use ework_runner.Repository.{to_column, from_column, params_from}
use ework_runner.Repository.Task as tasks
use ework_runner.Repository.Execution as executions

from-to_column : {A : Type 0} (zero : A) (o : Option A) → from_column (to_column zero o) ≡ o
from-to_column zero none = refl
from-to_column zero (some a) = refl

from-json_params : (m : NilParams) → params_from (json_params m).valid (json_params m).val ≡ m
from-json_params none = refl
from-json_params (some m) = refl

from-nullable : (s : String) → (if (nullable s).valid then s else "") ≡ s
from-nullable s = ground (arith, eq_iff s "")

-- A task comes back from its row as it was.
pub task_round_trip : (t : Task) → tasks.to_domain (tasks.to_entity t) ≡ t
unfolding tasks.to_domain tasks.to_entity
task_round_trip t = simp (from-to_column, from-json_params, from-nullable)

-- An execution comes back from its row as it was, but for its task's next time, status, creation
-- time and update time, which come back as zero values.
pub execution_round_trip :
    (e : TaskExecution)
    → executions.to_domain (executions.to_entity e) ≡ record e {
      task = record e.task {
        next_time = pos 0;
        status = no_task_status;
        ctime = pos 0;
        utime = pos 0;
      };
    }
unfolding executions.to_domain executions.to_entity
execution_round_trip e = simp (from-to_column, from-json_params, from-nullable)
