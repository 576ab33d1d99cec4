-- ===== src/Sdk/Once.antt =====
-- An executor runs an execution once in its life.
use ework_runner.Prelude.{
  ℤ, Bool, ◌≡◌, refl, none, some, List, [], ◌∷◌, arith, Option-cases, inl, inr, ==ℤ_refl,
}
use ework_runner.Domain.Execution.{ProtoState}
use ework_runner.Env.{ExecuteRequest}
use ework_runner.Sdk.{Executor, Job, execute, finish_task, interrupt, query}

-- What happens at an executor, in the order in which its maps see it.
pub data Happening : Type 0 where
  executes : ExecuteRequest → Happening
  finishes : Job → Bool → Happening
  interrupts : ℤ → Happening

pub happen : Happening → Executor → Executor
happen (executes req) e = (execute req e).1
happen (finishes job failed) e = finish_task job failed e
happen (interrupts eid) e = (interrupt eid e).1

pub happen_all : List Happening → Executor → Executor
happen_all [] e = e
happen_all (h ∷ hs) e = happen_all hs (happen h e)

-- The executor has a state for the execution.
abbrev Known : ℤ → Executor → Type 0
Known eid e = (state : ProtoState) × (e.states eid ≡ some state)

execute-Known : (req : ExecuteRequest) (e : Executor) → Known req.eid (execute req e).1
unfolding execute
execute-Known req e = elim (Option-cases (e.states req.eid)) [
  | inl fresh ↦ rw (fresh, ==ℤ_refl req.eid) (_, refl)
  | inr (state, known) ↦ rw known (state, known)
]

not_lost : (eid : ℤ) (e : Executor) → ¬ (e.states eid ≡ none) → Known eid e
not_lost eid e present = elim (Option-cases (e.states eid)) [
  | inl missing ↦ absurd (present missing)
  | inr known ↦ known
]

happen-Known : (h : Happening) (eid : ℤ) (e : Executor) → Known eid e → Known eid (happen h e)
unfolding happen execute finish_task interrupt
happen-Known (executes req) eid e (state, known) =
    not_lost eid (execute req e).1 (λ missing. ground (arith, missing, known))
happen-Known (finishes job failed) eid e (state, known) =
    not_lost eid (finish_task job failed e) (λ missing. ground (arith, missing, known))
happen-Known (interrupts other) eid e (state, known) =
    not_lost eid (interrupt other e).1 (λ missing. ground (arith, missing, known))

happen_all-Known :
    (hs : List Happening) (eid : ℤ) (e : Executor) → Known eid e → Known eid (happen_all hs e)
unfolding happen_all
happen_all-Known [] eid e known = known
happen_all-Known (h ∷ hs) eid e known =
    happen_all-Known hs eid (happen h e) (happen-Known h eid e known)

-- Once an executor was called to execute an execution, every later such call is answered with the
-- state that a query finds then, and changes nothing, whatever calls, ends of tasks and
-- interruptions came in between.
pub execute_once :
    (req again : ExecuteRequest) (hs : List Happening) (e : Executor)
    → again.eid ≡ req.eid
    → let later = happen_all hs (execute req e).1 in
      execute again later ≡ (query req.eid later, later)
unfolding execute query
execute_once req again hs e same =
    let later = happen_all hs (execute req e).1 in
    let (state, known) = happen_all-Known hs req.eid (execute req e).1 (execute-Known req e) in
    rw (same, known) refl
