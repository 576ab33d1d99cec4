-- ===== src/Cluster/Nodes.antt =====
-- A scheduler node, from its start to the end of its goroutines, in the system.
use ework_runner.Prelude.{
  ℕ, zero, suc, ◌+◌, ◌≤◌, Bool, true, false, ◌≡◌, refl, ap, ◌∙◌, ◌⊎◌, inl, inr, List, [], ◌∷◌, All,
  arith, if◌then◌else◌,
}
use mathlib.Core.Path.{subst}
use ework_runner.Action.{Result, ok, err, panic}
use ework_runner.Env.{Env, World}
use ework_runner.Scheduler.{schedule_round, renew_round}
use ework_runner.Scheduler.Node.{
  Scheduler, Moment, starts, schedule_turn, ticks, sees_done, stops, stops_gracefully, start, stop,
  graceful_stop, unless_panic, schedule_turn_of, tick_of, done_of, step, run,
}
use ework_runner.Cluster.{
  Turn, adds, schedules, renews, retries, reschedules, interrupts, invokes, reports, consumes,
  take_turn, take_turns,
}

-- The turns that a node takes.
abbrev pub Own : Scheduler → Turn → Type 0
Own s t = (t ≡ schedules s.node_id s.config) ⊎ (t ≡ renews s.node_id)

abbrev pub is_schedules : Turn → ℕ
is_schedules (adds t) = 0
is_schedules (schedules node c) = 1
is_schedules (renews node) = 0
is_schedules (retries node n) = 0
is_schedules (reschedules node n) = 0
is_schedules (interrupts n) = 0
is_schedules (invokes node n) = 0
is_schedules (reports rs) = 0
is_schedules (consumes n) = 0

abbrev pub is_renews : Turn → ℕ
is_renews (adds t) = 0
is_renews (schedules node c) = 0
is_renews (renews node) = 1
is_renews (retries node n) = 0
is_renews (reschedules node n) = 0
is_renews (interrupts n) = 0
is_renews (invokes node n) = 0
is_renews (reports rs) = 0
is_renews (consumes n) = 0

abbrev pub count : (Turn → ℕ) → List Turn → ℕ
count f [] = 0
count f (t ∷ ts) = f t + count f ts

-- Whether the node has been stopped after a moment.
abbrev pub stopped_after : Bool → Moment → Bool
stopped_after stopped starts = stopped
stopped_after stopped schedule_turn = stopped
stopped_after stopped (ticks reaches) = stopped
stopped_after stopped sees_done = stopped
stopped_after stopped stops = true
stopped_after stopped stops_gracefully = true

-- A moment that allows a round of scheduling: a turn of the loop before any stop.
abbrev pub may_schedule : Bool → Moment → ℕ
may_schedule stopped starts = 0
may_schedule stopped schedule_turn = if stopped then 0 else 1
may_schedule stopped (ticks reaches) = 0
may_schedule stopped sees_done = 0
may_schedule stopped stops = 0
may_schedule stopped stops_gracefully = 0

-- A moment that allows a renewal: a tick, which after a stop must still reach the database.
abbrev pub may_renew : Bool → Moment → ℕ
may_renew stopped starts = 0
may_renew stopped schedule_turn = 0
may_renew stopped (ticks reaches) = if (if stopped then reaches else true) then 1 else 0
may_renew stopped sees_done = 0
may_renew stopped stops = 0
may_renew stopped stops_gracefully = 0

abbrev pub allowed : (Bool → Moment → ℕ) → Bool → List Moment → ℕ
allowed f stopped [] = 0
allowed f stopped (m ∷ ms) = f stopped m + allowed f (stopped_after stopped m) ms

All-Own :
    (s s' : Scheduler) (ts : List Turn)
    → s'.node_id ≡ s.node_id
    → s'.config ≡ s.config
    → All (Own s') ts
    → All (Own s) ts
All-Own s s' [] node config own = tt
All-Own s s' (t ∷ ts) node config (inl e, own) =
    (inl (rw e (rw node (rw config refl))), All-Own s s' ts node config own)
All-Own s s' (t ∷ ts) node config (inr e, own) =
    (inr (rw e (rw node refl)), All-Own s s' ts node config own)

-- One step is no turn of the system, or one turn of the node that its moment allows; the node keeps
-- its name and configuration.
abbrev StepTurns : Env → Moment → Scheduler → World → Scheduler × World → Type 0
StepTurns env m s w (s', w') =
    (s'.node_id ≡ s.node_id)
    × (s'.config ≡ s.config)
    × (s'.canceled ≡ stopped_after s.canceled m)
    × ((w' ≡ w)
        ⊎ ((may_schedule s.canceled m ≡ 1) × (w' ≡ take_turn env (schedules s.node_id s.config) w))
        ⊎ ((may_renew s.canceled m ≡ 1) × (w' ≡ take_turn env (renews s.node_id) w)))

module _ (env : Env) where
  scheduled-StepTurns :
      (s : Scheduler) (w : World) (r : Result ℕ × World)
      → s.canceled ≡ false
      → r.1 ≡ take_turn env (schedules s.node_id s.config) w
      → StepTurns env schedule_turn s w (unless_panic s r)
  scheduled-StepTurns s w (ok a, w') on e = (refl, refl, refl, inr (inl (rw on refl, e)))
  scheduled-StepTurns s w (err x, w') on e = (refl, refl, refl, inr (inl (rw on refl, e)))
  scheduled-StepTurns s w (panic, w') on e = (refl, refl, refl, inr (inl (rw on refl, e)))

  renewed-StepTurns :
      (reaches : Bool) (s : Scheduler) (w : World) (r : Result (Unit {0}) × World)
      → (if s.canceled then reaches else true) ≡ true
      → r.1 ≡ take_turn env (renews s.node_id) w
      → StepTurns env (ticks reaches) s w (unless_panic s r)
  renewed-StepTurns reaches s w (ok a, w') on e = (refl, refl, refl, inr (inr (rw on refl, e)))
  renewed-StepTurns reaches s w (err x, w') on e = (refl, refl, refl, inr (inr (rw on refl, e)))
  renewed-StepTurns reaches s w (panic, w') on e = (refl, refl, refl, inr (inr (rw on refl, e)))

  schedule_turn_of-StepTurns :
      (n : ℕ) (canceled : Bool) (s : Scheduler) (w : World)
      → s.canceled ≡ canceled
      → StepTurns env schedule_turn s w (schedule_turn_of env n canceled s w)
  unfolding take_turn
  schedule_turn_of-StepTurns zero canceled s w e = (refl, refl, refl, inl refl)
  schedule_turn_of-StepTurns (suc n) true s w e = (refl, refl, refl, inl refl)
  schedule_turn_of-StepTurns (suc n) false s w e =
      scheduled-StepTurns s w (schedule_round env s.node_id s.config w) e refl

  tick_of-StepTurns :
      (n : ℕ) (reaches asks : Bool) (s : Scheduler) (w : World)
      → (if s.canceled then reaches else true) ≡ asks
      → StepTurns env (ticks reaches) s w (tick_of env n asks s w)
  unfolding take_turn
  tick_of-StepTurns zero reaches asks s w e = (refl, refl, refl, inl refl)
  tick_of-StepTurns (suc n) reaches false s w e = (refl, refl, refl, inl refl)
  tick_of-StepTurns (suc n) reaches true s w e =
      renewed-StepTurns reaches s w (renew_round env s.node_id w) e refl

  done_of-StepTurns :
      (n : ℕ) (canceled : Bool) (s : Scheduler) (w : World)
      → StepTurns env sees_done s w (done_of env n canceled s, w)
  done_of-StepTurns zero canceled s w = (refl, refl, refl, inl refl)
  done_of-StepTurns (suc n) true s w = (refl, refl, refl, inl refl)
  done_of-StepTurns (suc n) false s w = (refl, refl, refl, inl refl)

  step-StepTurns : (m : Moment) (s : Scheduler) (w : World) → StepTurns env m s w (step env m s w)
  unfolding step start stop graceful_stop
  step-StepTurns starts s w = started s.crashed
    where
      started : (c : Bool) → StepTurns env starts s w (if c then s else start s, w)
      started true = (refl, refl, refl, inl refl)
      started false = (refl, refl, refl, inl refl)
  step-StepTurns schedule_turn s w = schedule_turn_of-StepTurns s.schedule_loops s.canceled s w refl
  step-StepTurns (ticks reaches) s w = tick_of-StepTurns s.renew_loops reaches _ s w refl
  step-StepTurns sees_done s w = done_of-StepTurns s.renew_loops s.canceled s w
  step-StepTurns stops s w = (refl, refl, refl, inl refl)
  step-StepTurns stops_gracefully s w = (refl, refl, refl, inl refl)

  -- Some turns of a node, no more of a kind than its moments allow.
  abbrev pub RunTurns : Scheduler → Bool → List Moment → World → World → Type 0
  RunTurns s stopped ms w w' =
      (turns : List Turn) × All (Own s) turns
      × (count is_schedules turns ≤ allowed may_schedule stopped ms)
      × (count is_renews turns ≤ allowed may_renew stopped ms)
      × (w' ≡ take_turns env turns w)

  -- A step in front of a run.
  step-RunTurns :
      (m : Moment) (ms : List Moment) (s s' : Scheduler) (w w₁ w' : World)
      → StepTurns env m s w (s', w₁)
      → RunTurns s' (stopped_after s.canceled m) ms w₁ w'
      → RunTurns s s.canceled (m ∷ ms) w w'
  unfolding take_turns
  step-RunTurns m ms s s' w w₁ w' (node, config, _, inl kept) (ts, own, le, le', e) = (
    ts,
    All-Own s s' ts node config own,
    omega arith,
    omega arith,
    e ∙ ap (take_turns env ts) kept,
  )
  step-RunTurns m ms s s' w w₁ w' (node, config, _, inr (inl (one, taken))) (ts, own, le, le', e) =
      (
        schedules s.node_id s.config ∷ ts,
        (inl refl, All-Own s s' ts node config own),
        omega arith,
        omega arith,
        e ∙ ap (take_turns env ts) taken,
      )
  step-RunTurns m ms s s' w w₁ w' (node, config, _, inr (inr (one, taken))) (ts, own, le, le', e) =
      (
        renews s.node_id ∷ ts,
        (inr refl, All-Own s s' ts node config own),
        omega arith,
        omega arith,
        e ∙ ap (take_turns env ts) taken,
      )

  -- Whatever happens on a scheduler node, in which order ever its goroutines run, what it does to
  -- the shared state is some turns of its own, of scheduling and of renewal. It schedules at most
  -- once for each turn of the scheduling loop before the first stop, and never after it; it renews
  -- at most once for each tick, after a stop only at those that still reach the database.
  pub run-take_turns :
      (ms : List Moment) (s : Scheduler) (w : World) → RunTurns s s.canceled ms w (run env ms s w).1
  unfolding run take_turns
  run-take_turns [] s w = ([], tt, omega arith, omega arith, refl)
  run-take_turns (m ∷ ms) s w =
      let (s', w') = step env m s w in
      let taken = step-StepTurns m s w in
      step-RunTurns m ms s s' w w' (run env ms s' w').1 taken
        (subst (λ c. RunTurns s' c ms w' (run env ms s' w').1) taken.2 (run-take_turns ms s' w'))
