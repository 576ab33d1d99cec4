-- ===== src/Scheduler/Node.antt =====
-- internal/service/scheduler/scheduler.go: a scheduler node, its two goroutines and its stop.
use ework_runner.Prelude.{
  ℕ, zero, suc, String, Bool, true, false, not, List, [], ◌∷◌, if◌then◌else◌,
}
use Prim.Native.String.{◌++◌}
use ework_runner.Action.{Result, ok, err, panic}
use ework_runner.Env.{Env, World}
use ework_runner.Scheduler.{Config, schedule_round, renew_round}

-- The context is canceled by a stop; the goroutines are counted while they run their loop. A panic
-- in one of them ends the process.
pub record Scheduler : Type 0 where
  pub node_id : String
  pub config : Config
  pub canceled : Bool
  pub schedule_loops : ℕ
  pub renew_loops : ℕ
  pub crashed : Bool

-- What happens next on the node. A tick that the select takes although the context is canceled
-- reaches the database or not, which depends on the database's client.
pub data Moment : Type 0 where
  starts : Moment
  schedule_turn : Moment
  ticks : Bool → Moment
  sees_done : Moment
  stops : Moment
  stops_gracefully : Moment

unfoldable pub new_scheduler : String → Config → Scheduler
new_scheduler node c = record {
  node_id = node;
  config = c;
  canceled = false;
  schedule_loops = 0;
  renew_loops = 0;
  crashed = false;
}

abbrev pub name : Scheduler → String
name s = "Scheduler-" ++ s.node_id

-- Info
abbrev pub is_healthy : Scheduler → Bool
is_healthy s = not s.canceled

unfoldable pub start : Scheduler → Scheduler
start s = record s { schedule_loops = suc s.schedule_loops; renew_loops = suc s.renew_loops }

unfoldable pub stop : Scheduler → Scheduler
stop s = record s { canceled = true }

unfoldable pub graceful_stop : Scheduler → Scheduler
graceful_stop s = record s { canceled = true }

abbrev pub crash : Scheduler → Scheduler
crash s = record s { schedule_loops = 0; renew_loops = 0; crashed = true }

abbrev pub unless_panic : {A : Type 0} → Scheduler → Result A × World → Scheduler × World
unless_panic s (ok _, w) = (s, w)
unless_panic s (err _, w) = (s, w)
unless_panic s (panic, w) = (crash s, w)

module _ (env : Env) where
  -- A turn of scheduleLoop, which asks its context first.
  abbrev pub schedule_turn_of : ℕ → Bool → Scheduler → World → Scheduler × World
  schedule_turn_of zero canceled s w = (s, w)
  schedule_turn_of (suc n) true s w = (record s { schedule_loops = n }, w)
  schedule_turn_of (suc n) false s w = unless_panic s (schedule_round env s.node_id s.config w)

  -- The select of renewLoop: a tick, or the end of the context.
  abbrev pub tick_of : ℕ → Bool → Scheduler → World → Scheduler × World
  tick_of zero reaches s w = (s, w)
  tick_of (suc n) true s w = unless_panic s (renew_round env s.node_id w)
  tick_of (suc n) false s w = (s, w)

  abbrev pub done_of : ℕ → Bool → Scheduler → Scheduler
  done_of zero canceled s = s
  done_of (suc n) true s = record s { renew_loops = n }
  done_of (suc n) false s = s

  -- Nothing starts in a process that has ended.
  unfoldable pub step : Moment → Scheduler → World → Scheduler × World
  unfolding start stop graceful_stop
  step starts s w = (if s.crashed then s else start s, w)
  step schedule_turn s w = schedule_turn_of s.schedule_loops s.canceled s w
  step (ticks reaches) s w = tick_of s.renew_loops (if s.canceled then reaches else true) s w
  step sees_done s w = (done_of s.renew_loops s.canceled s, w)
  step stops s w = (stop s, w)
  step stops_gracefully s w = (graceful_stop s, w)

  unfoldable pub run : List Moment → Scheduler → World → Scheduler × World
  run [] s w = (s, w)
  run (m ∷ ms) s w = let (s', w') = step m s w in run ms s' w'
