-- ===== src/Dao/Task/Lease/Refinement.antt =====
-- The task DAO implements the lease.
use ework_runner.Prelude.{
  suc, ℤ, pos, ◌+ℤ◌, ◌==ℤ◌, String, Bool, true, Bool-cases, ◌≡◌, refl, sym, ap, ◌∙◌, inl, inr, some,
  List, [], ◌∷◌, if◌then◌else◌, arith, ==ℤ_iff, find_sound, find-append, succ-ne,
}
use ework_runner.Domain.Errors.{Error}
use ework_runner.Rows.{TaskRow, column_is}
use ework_runner.Database.{row_at, row_at-update_where}
use ework_runner.Env.{Env, World}
use ework_runner.Schema.{EnvLaws, task_key, stored_task}
use ework_runner.Dao.Task.{
  create, get_by_id, find_schedule_tasks, acquire, renew, release, update_next_time,
  update_schedule_params, update_status, write_task, bump, holds,
}
use ework_runner.Dao.Task.Writes.{write_task_cases}
use ework_runner.Dao.Task.Calls.{
  Call, creates, reads, finds, acquires, renews, releases, sets_next_time, sets_params, sets_status,
  perform, perform_all, has_version_id,
}
use ework_runner.Dao.Task.Lease.{lease_of, lease_step, lease_steps, is_ok, answers_ok, answered}

module _ (env : Env) (laws : EnvLaws env) where
  -- The row under a key is told apart by that key.
  at_key :
      (id : ℤ) (r : TaskRow) (w : World)
      → row_at task_key id w.tasks ≡ some r
      → (target : ℤ) → (r.id ==ℤ target) ≡ (id ==ℤ target)
  at_key id r w found target =
      ap (λ (k : ℤ). k ==ℤ target) ((==ℤ_iff r.id id).0 (find_sound _ w.tasks r found))

  created :
      (new : TaskRow) (w : World) (id : ℤ) (r : TaskRow)
      → row_at task_key id w.tasks ≡ some r
      → row_at task_key id (create env new w).1.tasks ≡ some r
  unfolding create
  created new w id r found =
      let t = env.clock w.tick in
      let new' = record new { utime = t; ctime = t } in
      elim (laws.tasks.insert_law (suc w.tick) new' w.tasks) [
        | inl e ↦ ground (arith, e, found)
        | inr (k, e, fresh) ↦
            rw (e, create)
              (ground
                (arith, found, find-append (λ s. s.id ==ℤ id) w.tasks (stored_task k new' ∷ [])))
      ]

  -- What became of the row of a task: it is there, and its lease took the step if the call answered
  -- without an error, and is as it was if not.
  abbrev pub LeaseAfter : ℤ → Call → TaskRow → Bool → World → Type 0
  LeaseAfter id c r answer w' =
      (r' : TaskRow) × (row_at task_key id w'.tasks ≡ some r')
      × (lease_of r' ≡ (if answer then lease_step id c (lease_of r) else lease_of r))

  -- A guarded write of a task.
  write_task-lease :
      (c : Call) (p : TaskRow → Bool) (f : ℤ → TaskRow → TaskRow) (e : Error) (target : ℤ)
      → ((r : TaskRow) → p r ≡ true → r.id ≡ target)
      → ((t : ℤ) (r : TaskRow) → (f t r).id ≡ r.id)
      → ((t : ℤ) (r : TaskRow) → (f t r).version ≡ r.version +ℤ pos 1)
      → (w : World) (id : ℤ) (r : TaskRow) → row_at task_key id w.tasks ≡ some r
      → ((t : ℤ) → lease_of (if p r then f t r else r) ≡ lease_step id c (lease_of r))
      → LeaseAfter id c r
          (is_ok (write_task env p f e target w).0)
          (write_task env p f e target w).1
  write_task-lease c p f e target selects keeps bumps w id r found steps =
      elim (write_task_cases env p f e target laws selects keeps
        (λ t r same. succ-ne r.version (sym (bumps t r) ∙ ap (λ (x : TaskRow). x.version) same))
        w) [
          | inl k ↦ (r, rw k.tasks found, rw k.result refl)
          | inr (inl k) ↦ (r, rw k.tasks found, rw k.result refl)
          | inr (inr k) ↦ (
            if p r then f (env.clock w.tick) r else r,
            ground (
              arith,
              k.tasks,
              found,
              row_at-update_where task_key p (f (env.clock w.tick)) (keeps _) id w.tasks,
            ),
            rw k.result (steps (env.clock w.tick)),
          )
        ]

  renew-lease :
      (node : String) (w : World) (id : ℤ) (r : TaskRow)
      → row_at task_key id w.tasks ≡ some r
      → LeaseAfter id (renews node) r (is_ok (renew env node w).0) (renew env node w).1
  unfolding renew column_is
  renew-lease node w id r found =
      let f = bump (env.clock w.tick) in
      elim (laws.tasks.update_law (suc w.tick) (holds node) f w.tasks) [
        | inl e ↦ (r, ground (arith, e, found), ground (arith, e))
        | inr (n, e, _, _) ↦ (
          if holds node r then f r else r,
          rw (e, renew)
              (ground
                (arith, found, row_at-update_where task_key (holds node) f (λ r. refl) id w.tasks)),
          rw (e, renew) (ground arith),
        )
      ]

  perform-lease :
      (c : Call) (w : World) (id : ℤ) (r : TaskRow)
      → row_at task_key id w.tasks ≡ some r
      → LeaseAfter id c r (answers_ok env c w) (perform env c w)
  unfolding perform answers_ok
  perform-lease (creates r') w id r found = (r, created r' w id r found, ground arith)
  perform-lease (reads k) w id r found = (r, unfold get_by_id in ground arith, ground arith)
  perform-lease (finds timeout limit) w id r found =
      (r, unfold find_schedule_tasks in ground arith, ground arith)
  perform-lease (acquires target version node) w id r found =
      unfold acquire in
      write_task-lease (acquires target version node) _ _ _ target (has_version_id target version)
        (λ t r. refl) (λ t r. refl) w id r found (λ t. ground (arith, at_key id r w found target))
  perform-lease (renews node) w id r found = renew-lease node w id r found
  perform-lease (releases target node) w id r found =
      unfold release in
      write_task-lease (releases target node) _ _ _ target
        (λ r h. (==ℤ_iff r.id target).0 (ground arith)) (λ t r. refl) (λ t r. refl) w id r found
        (λ t. unfold column_is in ground (arith, at_key id r w found target))
  perform-lease (sets_next_time target version next) w id r found =
      unfold update_next_time in
      write_task-lease (sets_next_time target version next) _ _ _ target
        (has_version_id target version) (λ t r. refl) (λ t r. refl) w id r found
        (λ t. ground (arith, at_key id r w found target))
  perform-lease (sets_params target version params) w id r found =
      unfold update_schedule_params in
      write_task-lease (sets_params target version params) _ _ _ target
        (has_version_id target version) (λ t r. refl) (λ t r. refl) w id r found
        (λ t. ground (arith, at_key id r w found target))
  perform-lease (sets_status target status) w id r found =
      unfold update_status in
      write_task-lease (sets_status target status) _ _ _ target (λ r h. (==ℤ_iff r.id target).0 h)
        (λ t r. refl) (λ t r. refl) w id r found (λ t. ground (arith, at_key id r w found target))

  -- Refinement: after any calls of the task DAO, a task in the table is still there, and its lease
  -- is what the abstract machine makes of the calls that answered without an error, in their order.
  pub perform_all-lease :
      (calls : List Call) (w : World) (id : ℤ) (r : TaskRow)
      → row_at task_key id w.tasks ≡ some r
      → (r' : TaskRow) × (row_at task_key id (perform_all env calls w).tasks ≡ some r')
        × (lease_of r' ≡ lease_steps id (answered env calls w) (lease_of r))
  unfolding perform_all lease_steps answered
  perform_all-lease [] w id r found = (r, found, refl)
  perform_all-lease (c ∷ calls) w id r found =
      let (r₁, found₁, step) = perform-lease c w id r found in
      let (r', found', e) = perform_all-lease calls (perform env c w) id r₁ found₁ in
      (
        r',
        found',
        elim (Bool-cases (answers_ok env c w)) [
          | inl h ↦ ground (arith, h, step, e)
          | inr h ↦ ground (arith, h, step, e)
        ],
      )
