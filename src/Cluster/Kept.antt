-- ===== src/Cluster/Kept.antt =====
-- What every operation on the shared state keeps, and the ways in which an operation changes it.
use ework_runner.Prelude.{
  ℕ, zero, suc, ℤ, true, ◌≡◌, some, List, [], ◌∷◌, ◌++◌, All, get_elem?, arith,
}
use ework_runner.Domain.Status.{TaskExecutionStatus, is_terminal_status}
use ework_runner.Service.Execution.Steps.{Step}
use ework_runner.Database.{row_at}
use ework_runner.Rows.{TaskRow, ExecutionRow}
use ework_runner.Env.{World, Event, Invocation}
use ework_runner.Schema.{task_key, execution_key}
use ework_runner.Dao.Task.Versions.{Grows, Grows-refl, Grows-trans}

abbrev pub HasTask : ℤ → World → Type 0
HasTask id w = (r : TaskRow) × (row_at task_key id w.tasks ≡ some r)

-- The execution `id` is in its table, as one of the task `task`.
abbrev pub HasExecution : ℤ → ℤ → World → Type 0
HasExecution id task w =
    (r : ExecutionRow) × (row_at execution_key id w.executions ≡ some r) × (r.task_id ≡ task)

-- The broker has taken an event of the end of the execution `id`.
abbrev pub Announced : ℤ → List Event → Type 0
Announced id events = (n : ℕ) × (e : Event) × (get_elem? events n ≡ some e) × (e.exec_id ≡ id)

abbrev pub EventSound : World → Event → Type 0
EventSound w e = HasExecution e.exec_id e.task_id w × (is_terminal_status e.exec_status ≡ true)

abbrev pub InvocationSound : World → Invocation → Type 0
InvocationSound w i = HasExecution i.execution.id i.execution.task.id w

-- A report moves the status of an execution by a step of its machine; its end makes it final.
pub data Move : TaskExecutionStatus → TaskExecutionStatus → Type 0 where
  reported : {s s' : TaskExecutionStatus} → Step s s' → Move s s'
  completed : {s s' : TaskExecutionStatus} → is_terminal_status s' ≡ true → Move s s'

pub data Moves : TaskExecutionStatus → TaskExecutionStatus → Type 0 where
  here : {s : TaskExecutionStatus} → Moves s s
  next : {s s' s'' : TaskExecutionStatus} → Move s s' → Moves s' s'' → Moves s s''

Moves-trans : {a b c : TaskExecutionStatus} → Moves a b → Moves b c → Moves a c
Moves-trans here k = k
Moves-trans (next m h) k = next m (Moves-trans h k)

-- The execution `id` is in its table, with a status that `s` may have moved to.
abbrev pub Moved : ℤ → TaskExecutionStatus → World → Type 0
Moved id s w =
    (r : ExecutionRow) × (row_at execution_key id w.executions ≡ some r) × Moves s r.status

-- Every execution belongs to a task of the table and, if it is SUCCESS or FAILED, an event has
-- said that it ended; every event is of the end of an execution of its task; and every call of an
-- executor that was begun is for an execution of its task.
pub record IsSound (w : World) : Type 0 where
  pub owned :
      (id : ℤ) (r : ExecutionRow)
      → row_at execution_key id w.executions ≡ some r
      → HasTask r.task_id w
  pub ended :
      (id : ℤ) (r : ExecutionRow)
      → row_at execution_key id w.executions ≡ some r
      → is_terminal_status r.status ≡ true
      → Announced id w.events
  pub events : All (EventSound w) w.events
  pub invocations : All (InvocationSound w) w.invocations

-- Nothing is lost, no version of a task is lowered, and a sound state stays sound.
pub record Kept (w w' : World) : Type 0 where
  pub tasks : Grows w.tasks w'.tasks
  pub executions : (id task : ℤ) → HasExecution id task w → HasExecution id task w'
  pub moves :
      (id : ℤ) (r : ExecutionRow)
      → row_at execution_key id w.executions ≡ some r
      → Moved id r.status w'
  pub sound : IsSound w → IsSound w'

pub Kept-refl : (w : World) → Kept w w
Kept-refl w = record {
  tasks = Grows-refl w.tasks;
  executions = λ id task h. h;
  moves = λ id r found. (r, found, here);
  sound = λ s. s;
}

pub Kept-trans : {a b c : World} → Kept a b → Kept b c → Kept a c
Kept-trans {a} {b} {c} h k = record {
  tasks = Grows-trans a.tasks b.tasks c.tasks h.tasks k.tasks;
  executions = λ id task x. k.executions id task (h.executions id task x);
  moves = λ id r found.
      let (r₁, found₁, m) = h.moves id r found in
      let (r₂, found₂, m') = k.moves id r₁ found₁ in (r₂, found₂, Moves-trans m m');
  sound = λ s. k.sound (h.sound s);
}

module _ {A : Type 0} {P Q : A → Type 0} where
  pub All-weaken : ((x : A) → P x → Q x) → (xs : List A) → All P xs → All Q xs
  All-weaken f [] all = all
  All-weaken f (x ∷ xs) (p, all) = (f x p, All-weaken f xs all)

module _ {A : Type 0} (P : A → Type 0) where
  pub All-append : (xs ys : List A) → All P xs → All P ys → All P (xs ++ ys)
  All-append [] ys all others = others
  All-append (x ∷ xs) ys (p, all) others = (p, All-append xs ys all others)

  pub All-at : (xs : List A) (n : ℕ) (x : A) → All P xs → get_elem? xs n ≡ some x → P x
  All-at [] n x all h = cc
  All-at (y ∷ xs) zero x (p, all) h = ground (arith, h, p)
  All-at (y ∷ xs) (suc n) x (p, all) h = All-at xs n x all h

module _ {A : Type 0} where
  get_elem?-append :
      (xs ys : List A) (n : ℕ) (x : A) → get_elem? xs n ≡ some x → get_elem? (xs ++ ys) n ≡ some x
  get_elem?-append [] ys n x h = cc
  get_elem?-append (y ∷ xs) ys zero x h = h
  get_elem?-append (y ∷ xs) ys (suc n) x h = get_elem?-append xs ys n x h

-- An operation that changes the tasks only, and loses none.
pub Kept-tasks :
    (w w' : World)
    → Grows w.tasks w'.tasks
    → w'.executions ≡ w.executions
    → w'.events ≡ w.events
    → w'.invocations ≡ w.invocations
    → Kept w w'
Kept-tasks w w' grows executions events invocations =
    let tasks : ((id : ℤ) → HasTask id w → HasTask id w') =
      λ id (r, found). let (r', found', _) = grows id r found in (r', found') in
    let still : ((id task : ℤ) → HasExecution id task w → HasExecution id task w') =
      λ id task (r, found, of). (r, rw executions found, of) in
    record {
      tasks = grows;
      executions = still;
      moves = λ id r found. (r, rw executions found, here);
      sound = λ s. record {
        owned = λ id r found. tasks r.task_id (s.owned id r (rw (← executions) found));
        ended = λ id r found over. rw events (s.ended id r (rw (← executions) found) over);
        events = rw events (
            All-weaken (λ e (known, over). (still e.exec_id e.task_id known, over)) w.events
              s.events);
        invocations = rw invocations (
            All-weaken (λ i known. still i.execution.id i.execution.task.id known) w.invocations
              s.invocations);
      };
    }

-- An operation that changes nothing but the count of the answers.
pub Kept-same :
    (w w' : World)
    → w'.tasks ≡ w.tasks
    → w'.executions ≡ w.executions
    → w'.events ≡ w.events
    → w'.invocations ≡ w.invocations
    → Kept w w'
Kept-same w w' tasks = Kept-tasks w w' (rw tasks (Grows-refl w.tasks))

-- An event of the end of an execution of its task.
pub Kept-event :
    (w : World) (e : Event) (tick : ℕ)
    → HasExecution e.exec_id e.task_id w
    → is_terminal_status e.exec_status ≡ true
    → Kept w (record w { events = w.events ++ e ∷ []; tick = tick })
Kept-event w e tick known over = record {
  tasks = Grows-refl w.tasks;
  executions = λ id task h. h;
  moves = λ id r found. (r, found, here);
  sound = λ s. record {
    owned = s.owned;
    ended = λ id r found end.
        let (n, x, at, of) = s.ended id r found end in
        (n, x, get_elem?-append w.events (e ∷ []) n x at, of);
    events = All-append (EventSound w) w.events (e ∷ []) s.events ((known, over), tt);
    invocations = s.invocations;
  };
}

-- A call of an executor that is begun.
pub Kept-spawn :
    (w : World) (i : Invocation)
    → HasExecution i.execution.id i.execution.task.id w
    → Kept w (record w { invocations = w.invocations ++ i ∷ [] })
Kept-spawn w i known = record {
  tasks = Grows-refl w.tasks;
  executions = λ id task h. h;
  moves = λ id r found. (r, found, here);
  sound = λ s. record {
    owned = s.owned;
    ended = s.ended;
    events = s.events;
    invocations = All-append (InvocationSound w) w.invocations (i ∷ []) s.invocations (known, tt);
  };
}
