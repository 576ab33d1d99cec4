-- ===== src/Cluster/Sound.antt =====
-- What holds after any turns of the system.
use ework_runner.Prelude.{
  ℕ, String, true, ◌≡◌, refl, Option, none, some, List, [], ◌∷◌, get_elem?, find, arith,
}
use ework_runner.Domain.Status.{TaskExecutionStatus, is_terminal_status}
use ework_runner.Dao.Execution.{can_start}
use ework_runner.Service.Execution.Steps.{stays, starts, fails_retryable, fails_rescheduled}
use ework_runner.Env.{Env, World, Event, Invocation}
use ework_runner.Schema.{EnvLaws}
use ework_runner.Cluster.{
  Turn, adds, schedules, renews, retries, reschedules, interrupts, invokes, reports, consumes,
  take_turn, take_turns, invoked, consumed,
}
use ework_runner.Cluster.Kept.{
  Move, reported, completed, Moves, here, next, IsSound, Kept, Kept-refl, Kept-trans,
}
use ework_runner.Cluster.Reports.{handle_reports-Kept}
use ework_runner.Cluster.Tasks.{create-Kept}
use ework_runner.Cluster.Runs.{schedule_round-Kept, renew_round-Kept, run_invocation-Kept}
use ework_runner.Cluster.Rounds.{
  retry_round-Kept, reschedule_round-Kept, interrupt_round-Kept, handle_task-Kept,
}

startable-open : (s : TaskExecutionStatus) → can_start s ≡ true → is_terminal_status s ≡ true → ⊥
startable-open s can ended = ground arith

Move-ended :
    {s s' : TaskExecutionStatus}
    → Move s s'
    → is_terminal_status s ≡ true
    → is_terminal_status s' ≡ true
Move-ended (completed over) ended = over
Move-ended (reported stays) ended = ended
Move-ended (reported (starts {s} can)) ended = absurd (startable-open s can ended)
Move-ended (reported (fails_retryable open_)) ended = cc
Move-ended (reported (fails_rescheduled open_)) ended = cc

pub Moves-ended :
    {s s' : TaskExecutionStatus}
    → Moves s s'
    → is_terminal_status s ≡ true
    → is_terminal_status s' ≡ true
Moves-ended here ended = ended
Moves-ended (next m ms) ended = Moves-ended ms (Move-ended m ended)

module _ (env : Env) (laws : EnvLaws env) where
  invoked-Kept : (node : String) (i : Option Invocation) (w : World) → Kept w (invoked env node i w)
  invoked-Kept node none w = Kept-refl w
  invoked-Kept node (some i) w = run_invocation-Kept env laws node i w

  consumed-Kept :
      (n : ℕ) (e : Option Event) (w : World) → get_elem? w.events n ≡ e → Kept w (consumed env e w)
  consumed-Kept n none w at = Kept-refl w
  consumed-Kept n (some e) w at = handle_task-Kept env laws e w (n, e, at, refl)

  pub take_turn-Kept : (t : Turn) (w : World) → Kept w (take_turn env t w)
  unfolding take_turn
  take_turn-Kept (adds t) w = create-Kept env laws t w
  take_turn-Kept (schedules node c) w = schedule_round-Kept env laws node c w
  take_turn-Kept (renews node) w = renew_round-Kept env laws node w
  take_turn-Kept (retries node batch_size) w = retry_round-Kept env laws node batch_size w
  take_turn-Kept (reschedules node batch_size) w = reschedule_round-Kept env laws node batch_size w
  take_turn-Kept (interrupts batch_size) w = interrupt_round-Kept env laws batch_size w
  take_turn-Kept (invokes node n) w = invoked-Kept node (get_elem? w.invocations n) w
  take_turn-Kept (reports rs) w = handle_reports-Kept env laws rs w
  take_turn-Kept (consumes n) w = consumed-Kept n (get_elem? w.events n) w refl

  take_turns-Kept : (ts : List Turn) (w : World) → Kept w (take_turns env ts w)
  unfolding take_turns
  take_turns-Kept [] w = Kept-refl w
  take_turns-Kept (t ∷ ts) w =
      Kept-trans (take_turn-Kept t w) (take_turns-Kept ts (take_turn env t w))

  -- Whatever turns are taken from a state with no execution, event and call of an executor: every
  -- execution belongs to a task of the table and, if it is SUCCESS or FAILED, the broker has an
  -- event of its end; every event is of the end of an execution of its task; and every call of an
  -- executor that was begun is for an execution of its task.
  pub take_turns-IsSound :
      (ts : List Turn) (w : World)
      → w.executions ≡ []
      → w.events ≡ []
      → w.invocations ≡ []
      → IsSound (take_turns env ts w)
  unfolding find
  take_turns-IsSound ts w executions events invocations = (take_turns-Kept ts w).sound (record {
    owned = λ id r found. cc;
    ended = λ id r found over. cc;
    events = rw events tt;
    invocations = rw invocations tt;
  })
