-- ===== src/Execute/Workers.antt =====
-- internal/execute/internal/event/consumer.go: the workers that Start begins.
use ework_runner.Prelude.{ℕ, zero, suc, ◌≡◌, Option, none, some, List, [], ◌∷◌, ◌++◌, arith}

abbrev pub worker_count : ℕ
worker_count = 5

-- How a worker's call of Consume ends, or that the context has ended before it.
pub data Ending (E : Type 0) : Type 0 where
  context_done : Ending E
  consumed : Ending E
  canceled : Ending E
  failed : E → Ending E

-- The workers that still run, and the error channel: it holds one error at most, and is closed
-- when the last worker has ended.
pub record Pool (E : Type 0) : Type 0 where
  pub running : ℕ
  pub waiting : Option E
  pub received : List E  -- what the caller of Start has received, oldest first

abbrev pub leave : ℕ → ℕ
leave zero = zero
leave (suc n) = n

module _ {E : Type 0} where
  -- `select { case errChan <- err: default: }`
  abbrev pub offer : E → Option E → Option E
  offer e none = some e
  offer e (some first) = some first

  -- One turn of the loop of a worker that still runs.
  unfoldable pub turn : Ending E → Pool E → Pool E
  turn context_done p = record p { running = leave p.running }
  turn consumed p = p
  turn canceled p = record p { running = leave p.running }
  turn (failed e) p = record p { waiting = offer e p.waiting }

  abbrev pub taken : Option E → Pool E → Pool E
  taken none p = p
  taken (some e) p = record p { waiting = none; received = p.received ++ e ∷ [] }

  -- A receive of the caller.
  unfoldable pub receive : Pool E → Pool E
  receive p = taken p.waiting p

  unfoldable pub start : Pool E
  start = record { running = worker_count; waiting = none; received = [] }

  unfoldable pub turns : List (Ending E) → Pool E → Pool E
  turns [] p = p
  turns (t ∷ ts) p = turns ts (turn t p)

  abbrev pub first_error : List (Ending E) → Option E
  first_error [] = none
  first_error (failed e ∷ ts) = some e
  first_error (context_done ∷ ts) = first_error ts
  first_error (consumed ∷ ts) = first_error ts
  first_error (canceled ∷ ts) = first_error ts

  abbrev pub or_else : Option E → Option E → Option E
  or_else none b = b
  or_else (some e) b = some e

  turns-waiting :
      (ts : List (Ending E)) (p : Pool E)
      → (turns ts p).waiting ≡ or_else p.waiting (first_error ts)
  unfolding turns turn
  turns-waiting [] p = ground arith
  turns-waiting (context_done ∷ ts) p = ground (arith, turns-waiting ts (turn context_done p))
  turns-waiting (consumed ∷ ts) p = turns-waiting ts p
  turns-waiting (canceled ∷ ts) p = ground (arith, turns-waiting ts (turn canceled p))
  turns-waiting (failed e ∷ ts) p = ground (arith, turns-waiting ts (turn (failed e) p))

  -- As long as nobody receives from the channel, it holds the first error of all the workers, and
  -- every later one is lost, whatever the workers do.
  pub start-first_error : (ts : List (Ending E)) → (turns ts start).waiting ≡ first_error ts
  unfolding start
  start-first_error ts = turns-waiting ts start
