-- ===== src/Dao/Task/Writes.antt =====
-- The guarded write of one task, on every branch.
use ework_runner.Prelude.{
  suc, ℤ, Bool, true, false, ◌≡◌, ◌≢◌, ◌⊎◌, inl, inr, some, arith, Bool-cases,
}
use ework_runner.Domain.Errors.{Error, database_failed}
use ework_runner.Action.{ok, err}
use ework_runner.Database.{update_where, row_at, row_at-update_where, update_cases, unselected}
use ework_runner.Rows.{TaskRow}
use ework_runner.Env.{Env, World}
use ework_runner.Schema.{EnvLaws, task_key, stored_task}
use ework_runner.Dao.Task.{write_task, has_id}

module _ (env : Env) (p : TaskRow → Bool) (f : ℤ → TaskRow → TaskRow) (e : Error) (id : ℤ) where
  -- The database failed: nothing is written.
  pub record Fails (w : World) : Type 0 where
    pub result : (write_task env p f e id w).0 ≡ err database_failed
    pub tasks : (write_task env p f e id w).1.tasks ≡ w.tasks

  -- No row under the key passes the condition: nothing is written.
  pub record Refuses (w : World) : Type 0 where
    pub result : (write_task env p f e id w).0 ≡ err e
    pub tasks : (write_task env p f e id w).1.tasks ≡ w.tasks
    pub unmatched : (old : TaskRow) → row_at task_key id w.tasks ≡ some old → p old ≡ false

  -- The row under the key passes the condition and is rewritten.
  pub record Writes (w : World) : Type 0 where
    pub old : TaskRow
    pub found : row_at task_key id w.tasks ≡ some old
    pub matched : p old ≡ true
    pub result : (write_task env p f e id w).0 ≡ ok (f (env.clock w.tick) old)
    pub tasks : (write_task env p f e id w).1.tasks ≡ update_where p (f (env.clock w.tick)) w.tasks

  module _ (laws : EnvLaws env) (selects : (r : TaskRow) → p r ≡ true → r.id ≡ id)
      (keeps : (t : ℤ) (r : TaskRow) → (f t r).id ≡ r.id)
      (changes : (t : ℤ) (r : TaskRow) → f t r ≢ r) where
    pub write_task_cases : (w : World) → Fails w ⊎ Refuses w ⊎ Writes w
    unfolding write_task
    write_task_cases w =
        elim (update_cases task_key stored_task env.task_table laws.tasks (suc w.tick) p g id
          w.tasks selects) [
            | inl e₁ ↦ inl (record { result = ground arith; tasks = ground arith })
            | inr (inl (n, e₁, z, same)) ↦ inr (
                inl (record {
                  result = ground arith;
                  tasks = ground arith;
                  unmatched = unselected task_key p g (keeps t) (changes t) id w.tasks same;
                }))
            | inr (inr (n, old, e₁, nz, found, hit)) ↦
                elim (laws.tasks.first_law (suc (suc w.tick)) (has_id id)
                  (update_where p g w.tasks)) [
                    | inl e₂ ↦ inl (record { result = ground arith; tasks = ground arith })
                    | inr (r, e₂, r_found) ↦
                        elim (Bool-cases (env.commits (suc (suc (suc w.tick))))) [
                          | inl c ↦ inr (
                              inr (record {
                                old = old;
                                found = found;
                                matched = hit;
                                result =
                                    ground (
                                      arith,
                                      row_at-update_where task_key p g (keeps t) id w.tasks,
                                    );
                                tasks = ground arith;
                              }))
                          | inr c ↦ inl (record { result = ground arith; tasks = ground arith })
                        ]
                  ]
          ]
      where
        t : ℤ
        t = env.clock w.tick

        g : TaskRow → TaskRow
        g = f t

  -- A write of one task leaves the rest of the world alone.
  pub write_task_frame :
      (w : World)
      → ((write_task env p f e id w).1.executions ≡ w.executions)
        × ((write_task env p f e id w).1.events ≡ w.events)
        × ((write_task env p f e id w).1.invocations ≡ w.invocations)
  unfolding write_task
  write_task_frame w = ground arith

  -- The same, of a row that is there.
  pub write_task_row :
      EnvLaws env
      → ((r : TaskRow) → p r ≡ true → r.id ≡ id)
      → ((t : ℤ) (r : TaskRow) → (f t r).id ≡ r.id)
      → ((t : ℤ) (r : TaskRow) → f t r ≢ r)
      → (w : World) (r : TaskRow) → row_at task_key id w.tasks ≡ some r
      → ((x : Error) × ((write_task env p f e id w).0 ≡ err x)
          × ((write_task env p f e id w).1.tasks ≡ w.tasks))
        ⊎ ((p r ≡ true)
            × ((write_task env p f e id w).0 ≡ ok (f (env.clock w.tick) r))
            × (row_at task_key id (write_task env p f e id w).1.tasks
                ≡ some (f (env.clock w.tick) r)))
  write_task_row laws selects keeps changes w r found =
      elim (write_task_cases laws selects keeps changes w) [
        | inl c ↦ inl (database_failed, c.result, c.tasks)
        | inr (inl c) ↦ inl (e, c.result, c.tasks)
        | inr (inr c) ↦
            let row = row_at-update_where task_key p (f (env.clock w.tick)) (keeps _) id w.tasks in
            let here : c.old ≡ r = ground (arith, c.found) in
            inr (
              ground (arith, c.matched),
              rw⁻¹ here c.result,
              ground (arith, c.found, c.matched, c.tasks, row),
            )
      ]
