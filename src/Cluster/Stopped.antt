-- ===== src/Cluster/Stopped.antt =====
-- A scheduler node after its stop.
use ework_runner.Prelude.{
  if◌then◌else◌, ℕ, zero, suc, ◌+◌, ◌-◌, ◌≤◌, String, Bool, true, false, ◌≡◌, refl, ◌∙◌, ◌⊎◌, inl,
  inr, List, [], ◌∷◌, arith,
}
use ework_runner.Action.{Result, ok, err, panic}
use ework_runner.Env.{Env, World}
use ework_runner.Scheduler.{renew_round}
use ework_runner.Scheduler.Node.{
  Scheduler, Moment, starts, schedule_turn, ticks, sees_done, stops, stops_gracefully, stop,
  graceful_stop, unless_panic, schedule_turn_of, tick_of, done_of, step, run,
}
use ework_runner.Cluster.{renews, take_turn, take_turns}
use ework_runner.Cluster.Loops.{repeat}

-- How often something happens in some moments.
abbrev pub count : (Moment → ℕ) → List Moment → ℕ
count f [] = 0
count f (m ∷ ms) = f m + count f ms

abbrev pub is_start : Moment → ℕ
is_start starts = 1
is_start schedule_turn = 0
is_start (ticks reaches) = 0
is_start sees_done = 0
is_start stops = 0
is_start stops_gracefully = 0

abbrev pub is_schedule_turn : Moment → ℕ
is_schedule_turn starts = 0
is_schedule_turn schedule_turn = 1
is_schedule_turn (ticks reaches) = 0
is_schedule_turn sees_done = 0
is_schedule_turn stops = 0
is_schedule_turn stops_gracefully = 0

abbrev pub is_done : Moment → ℕ
is_done starts = 0
is_done schedule_turn = 0
is_done (ticks reaches) = 0
is_done sees_done = 1
is_done stops = 0
is_done stops_gracefully = 0

-- A tick that the database is asked at.
abbrev pub is_reaching_tick : Moment → ℕ
is_reaching_tick starts = 0
is_reaching_tick schedule_turn = 0
is_reaching_tick (ticks true) = 1
is_reaching_tick (ticks false) = 0
is_reaching_tick sees_done = 0
is_reaching_tick stops = 0
is_reaching_tick stops_gracefully = 0

-- What a moment does to a stopped node.
abbrev StepStopped : Env → Moment → Scheduler → World → Scheduler × World → Type 0
StepStopped env m s w (s', w') =
    (s'.canceled ≡ true)
    × (s'.node_id ≡ s.node_id)
    × (s'.schedule_loops ≤ s.schedule_loops - is_schedule_turn m)
    × (s'.renew_loops ≤ s.renew_loops - is_done m)
    × ((w' ≡ w) ⊎ ((is_reaching_tick m ≡ 1) × (w' ≡ take_turn env (renews s.node_id) w)))

module _ (env : Env) where
  schedule_turn_of-Stopped :
      (n : ℕ) (canceled : Bool) (s : Scheduler) (w : World)
      → canceled ≡ true
      → s.canceled ≡ true
      → s.schedule_loops ≡ n
      → StepStopped env schedule_turn s w (schedule_turn_of env n canceled s w)
  schedule_turn_of-Stopped n false s w c c' loops = cc c
  schedule_turn_of-Stopped zero true s w c c' loops = (c', refl, omega arith, omega arith, inl refl)
  schedule_turn_of-Stopped (suc n) true s w c c' loops =
      (c', refl, omega arith, omega arith, inl refl)

  unless_panic-Stopped :
      (s : Scheduler) (w : World) (r : Result (Unit {0}) × World)
      → s.canceled ≡ true
      → r.1 ≡ take_turn env (renews s.node_id) w
      → StepStopped env (ticks true) s w (unless_panic s r)
  unless_panic-Stopped s w (ok x, w') c e = (c, refl, omega arith, omega arith, inr (refl, e))
  unless_panic-Stopped s w (err x, w') c e = (c, refl, omega arith, omega arith, inr (refl, e))
  unless_panic-Stopped s w (panic, w') c e = (c, refl, omega arith, omega arith, inr (refl, e))

  tick_of-Stopped :
      (n : ℕ) (reaches : Bool) (s : Scheduler) (w : World)
      → s.canceled ≡ true
      → StepStopped env (ticks reaches) s w (tick_of env n reaches s w)
  unfolding take_turn
  tick_of-Stopped zero reaches s w c = (c, refl, omega arith, omega arith, inl refl)
  tick_of-Stopped (suc n) false s w c = (c, refl, omega arith, omega arith, inl refl)
  tick_of-Stopped (suc n) true s w c = unless_panic-Stopped s w (renew_round env s.node_id w) c refl

  done_of-Stopped :
      (n : ℕ) (canceled : Bool) (s : Scheduler) (w : World)
      → canceled ≡ true
      → s.canceled ≡ true
      → s.renew_loops ≡ n
      → StepStopped env sees_done s w (done_of env n canceled s, w)
  done_of-Stopped n false s w c c' loops = cc c
  done_of-Stopped zero true s w c c' loops = (c', refl, omega arith, omega arith, inl refl)
  done_of-Stopped (suc n) true s w c c' loops = (c', refl, omega arith, omega arith, inl refl)

  step-Stopped :
      (m : Moment) (s : Scheduler) (w : World)
      → s.canceled ≡ true
      → is_start m ≡ 0
      → StepStopped env m s w (step env m s w)
  unfolding step stop graceful_stop
  step-Stopped starts s w c no_start = cc no_start
  step-Stopped schedule_turn s w c no_start =
      schedule_turn_of-Stopped s.schedule_loops s.canceled s w c c refl
  step-Stopped (ticks reaches) s w c no_start = asked s.canceled c
    where
      asked :
          (canceled : Bool)
          → canceled ≡ true
          → StepStopped env
              (ticks reaches)
              s
              w
              (tick_of env s.renew_loops (if canceled then reaches else true) s w)
      asked true e = tick_of-Stopped s.renew_loops reaches s w c
      asked false e = cc e
  step-Stopped sees_done s w c no_start = done_of-Stopped s.renew_loops s.canceled s w c c refl
  step-Stopped stops s w c no_start = (refl, refl, omega arith, omega arith, inl refl)
  step-Stopped stops_gracefully s w c no_start = (refl, refl, omega arith, omega arith, inl refl)

  -- The world after some renewals, `limit` at most.
  abbrev pub Renewed : String → ℕ → World → World → Type 0
  Renewed node limit w w' = (n : ℕ) × (n ≤ limit) × (w' ≡ take_turns env (repeat n (renews node)) w)

  abbrev pub RunStopped : List Moment → Scheduler → World → Scheduler × World → Type 0
  RunStopped ms s w (s', w') =
      (s'.canceled ≡ true)
      × (s'.schedule_loops ≤ s.schedule_loops - count is_schedule_turn ms)
      × (s'.renew_loops ≤ s.renew_loops - count is_done ms)
      × Renewed s.node_id (count is_reaching_tick ms) w w'

  step-RunStopped :
      (m : Moment) (ms : List Moment) (s s' s'' : Scheduler) (w w₁ w' : World)
      → StepStopped env m s w (s', w₁)
      → RunStopped ms s' w₁ (s'', w')
      → RunStopped (m ∷ ms) s w (s'', w')
  unfolding take_turns
  step-RunStopped m ms s s' s'' w w₁ w' (_, node, l, r, inl kept) (c, l', r', (n, le, e)) =
      (c, omega arith, omega arith, (n, omega arith, e ∙ rw node (rw kept refl)))
  step-RunStopped m ms s s' s'' w w₁ w' (_, node, l, r, inr (one, taken)) (c, l', r', (n, le, e)) =
      (c, omega arith, omega arith, (suc n, omega arith, e ∙ rw node (rw taken refl)))

  -- On a node that was stopped and is not started again, no task is scheduled any more: it does
  -- nothing to the shared state but renew at the ticks that still reach the database. Each loop
  -- that takes a turn, or sees the end of its context, ends.
  pub run-stopped :
      (ms : List Moment) (s : Scheduler) (w : World)
      → s.canceled ≡ true
      → count is_start ms ≡ 0
      → RunStopped ms s w (run env ms s w)
  unfolding run take_turns
  run-stopped [] s w c no_start = (c, omega arith, omega arith, (0, omega arith, refl))
  run-stopped (m ∷ ms) s w c no_start =
      let taken = step-Stopped m s w c (omega arith) in
      let (s', w') = step env m s w in
      let (s'', w'') = run env ms s' w' in
      step-RunStopped m ms s s' s'' w w' w'' taken (run-stopped ms s' w' taken.0 (omega arith))
