-- ===== src/Dao/Task/Versions.antt =====
-- The optimistic lock: no call of the task DAO lowers a version or loses a row.
use ework_runner.Prelude.{
  ℤ, pos, ◌+ℤ◌, ◌≤ℤ◌, ◌==ℤ◌, Bool, true, ◌≡◌, ap, sym, ◌∙◌, inl, inr, some, List, [], ◌∷◌, ◌++◌,
  arith, int_laws, succ-ne, find-append, if◌then◌else◌,
}
use ework_runner.Domain.Errors.{Error}
use ework_runner.Database.{update_where, row_at, row_at-update_where}
use ework_runner.Rows.{TaskRow}
use ework_runner.Env.{Env, World}
use ework_runner.Schema.{EnvLaws, task_key}
use ework_runner.Dao.Task.{write_task}
use ework_runner.Dao.Task.Writes.{write_task_cases}

-- Every row of `rows` is still there in `rows'`, at the same version or a later one.
abbrev pub Grows : List TaskRow → List TaskRow → Type 0
Grows rows rows' =
    (id : ℤ) (r : TaskRow)
    → row_at task_key id rows ≡ some r
    → (r' : TaskRow) × (row_at task_key id rows' ≡ some r') × (r.version ≤ℤ r'.version)

pub Grows-refl : (rows : List TaskRow) → Grows rows rows
Grows-refl rows id r found = (r, found, omega arith)

pub Grows-trans : (a b c : List TaskRow) → Grows a b → Grows b c → Grows a c
Grows-trans a b c h k id r found =
    let (r', found', le) = h id r found in
    let (r'', found'', le') = k id r' found' in (r'', found'', omega arith)

pub Grows-eq : {a b : List TaskRow} → b ≡ a → Grows a b
Grows-eq {a} {b} e id r found = (r, rw e found, omega arith)

pub Grows-update_where :
    (p : TaskRow → Bool) (f : TaskRow → TaskRow) (rows : List TaskRow)
    → ((r : TaskRow) → (f r).id ≡ r.id)
    → ((r : TaskRow) → r.version ≤ℤ (f r).version)
    → Grows rows (update_where p f rows)
Grows-update_where p f rows keeps grows id r found = (
  if p r then f r else r,
  ground (arith, row_at-update_where task_key p f keeps id rows),
  ground (arith, grows r),
)

pub Grows-append : (rows : List TaskRow) (new : TaskRow) → Grows rows (rows ++ new ∷ [])
Grows-append rows new id r found =
    (r, ground (arith, find-append (λ s. s.id ==ℤ id) rows (new ∷ [])), omega arith)

pub le-succ : (a : ℤ) → a ≤ℤ a +ℤ pos 1
le-succ a = omega int_laws

module _ (env : Env) (laws : EnvLaws env) where
  pub Grows-write_task :
      (p : TaskRow → Bool) (f : ℤ → TaskRow → TaskRow) (e : Error) (id : ℤ)
      → ((r : TaskRow) → p r ≡ true → r.id ≡ id)
      → ((t : ℤ) (r : TaskRow) → (f t r).id ≡ r.id)
      → ((t : ℤ) (r : TaskRow) → (f t r).version ≡ r.version +ℤ pos 1)
      → (w : World) → Grows w.tasks (write_task env p f e id w).1.tasks
  Grows-write_task p f e id selects keeps bumps w =
      elim (write_task_cases env p f e id laws selects keeps
        (λ t r same. succ-ne r.version (sym (bumps t r) ∙ ap (λ (x : TaskRow). x.version) same))
        w) [
          | inl c ↦ Grows-eq c.tasks
          | inr (inl c) ↦ Grows-eq c.tasks
          | inr (inr c) ↦ rw c.tasks (
              Grows-update_where p (f (env.clock w.tick)) w.tasks (keeps _)
                (λ r. rw bumps (le-succ _)))
        ]
