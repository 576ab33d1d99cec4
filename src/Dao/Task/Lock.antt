-- ===== src/Dao/Task/Lock.antt =====
-- What the optimistic lock and the lease promise to the scheduler nodes.
use ework_runner.Prelude.{
  suc, ℤ, pos, pos_part, neg_part, ◌+ℤ◌, ◌≤ℤ◌, ◌==ℤ◌, String, true, false, ◌≡◌, ◌≢◌, refl, ap, sym,
  ◌∙◌, ◌⊎◌, inl, inr, ◌&&◌, some, List, arith, ==ℤ_iff, +ℤ_parts, succ-ne, find_sound,
}
use ework_runner.Domain.Errors.{database_failed, task_preempt_failed, task_release_failed}
use ework_runner.Domain.Status.{preempted}
use ework_runner.Action.{ok, err}
use ework_runner.Database.{row_at, row_at-update_where}
use ework_runner.Rows.{TaskRow}
use ework_runner.Env.{Env, World}
use ework_runner.Schema.{EnvLaws, task_key}
use ework_runner.Dao.Task.{acquire, renew, release, has_version, acquired, released, holds, bump}
use ework_runner.Dao.Task.Writes.{write_task_cases, Writes, Refuses, Fails}
use ework_runner.Dao.Task.Calls.{Call, perform_all, perform_all-Grows, has_version_id}

pub bump-ne : (t : ℤ) (r r' : TaskRow) → r'.version ≡ r.version +ℤ pos 1 → r' ≢ r
bump-ne t r r' e same = succ-ne r.version (sym e ∙ ap (λ (x : TaskRow). x.version) same)

-- A version that only grew past `v + 1` is not `v`.
pub past : (v u r : ℤ) → u ≡ v +ℤ pos 1 → u ≤ℤ r → r ≢ v
past v u r e le h =
    omega (arith, +ℤ_parts, ap pos_part e, ap neg_part e, ap pos_part h, ap neg_part h)

module _ (env : Env) (laws : EnvLaws env) where
  acquire_cases :
      (id version : ℤ) (node : String) (w : World)
      → Fails env (has_version id version) (acquired node) task_preempt_failed id w
        ⊎ Refuses env (has_version id version) (acquired node) task_preempt_failed id w
        ⊎ Writes env (has_version id version) (acquired node) task_preempt_failed id w
  acquire_cases id version node =
      write_task_cases env _ _ _ id laws (has_version_id id version) (λ t r. refl)
        (λ t r. bump-ne t r (acquired node t r) refl)

  -- If Acquire returns a row, that is the row in the table afterwards, with the version one higher
  -- than the caller's, PREEMPTED and held by the node.
  pub acquire-ok :
      (id version : ℤ) (node : String) (w : World) (t : TaskRow)
      → (acquire env id version node w).0 ≡ ok t
      → (row_at task_key id (acquire env id version node w).1.tasks ≡ some t)
        × (t.version ≡ version +ℤ pos 1)
        × (t.status ≡ preempted)
        × (t.schedule_node_id ≡ record { text = node; valid = true })
  unfolding acquire
  acquire-ok id version node w t h = elim (acquire_cases id version node w) [
    | inl c ↦ cc c.result
    | inr (inl c) ↦ cc c.result
    | inr (inr c) ↦
        let row =
          row_at-update_where task_key (has_version id version) (acquired node (env.clock w.tick))
            (λ r. refl) id w.tasks in
        let same = (==ℤ_iff c.old.version version).0 (ground (arith, c.matched)) in
        ground (arith, c.result, c.tasks, c.found, c.matched, row, same, h)
  ]

  -- An attempt at a version that is not the row's.
  pub acquire_stale :
      (id version : ℤ) (node : String) (w : World) (r : TaskRow)
      → row_at task_key id w.tasks ≡ some r
      → r.version ≢ version
      → (((acquire env id version node w).0 ≡ err database_failed)
          ⊎ ((acquire env id version node w).0 ≡ err task_preempt_failed))
        × ((acquire env id version node w).1.tasks ≡ w.tasks)
  acquire_stale id version node w r found stale = elim (acquire_cases id version node w) [
    | inl c ↦ unfold acquire in (inl c.result, c.tasks)
    | inr (inl c) ↦ unfold acquire in (inr c.result, c.tasks)
    | inr (inr c) ↦
        let same = (==ℤ_iff c.old.version version).0 (ground (arith, c.matched)) in
        let here : c.old ≡ r = ground (arith, c.found) in
        absurd (stale (sym (ap (λ (x : TaskRow). x.version) here) ∙ same))
  ]

  -- Once a node has acquired a task at a version, an attempt of any node to acquire it at that
  -- version, after any calls of the task DAO by any nodes, is an error and writes no task.
  pub acquire_once :
      (w : World) (id version : ℤ) (node other : String) (t : TaskRow) (calls : List Call)
      → (acquire env id version node w).0 ≡ ok t
      → let later = perform_all env calls (acquire env id version node w).1 in
        (((acquire env id version other later).0 ≡ err database_failed)
          ⊎ ((acquire env id version other later).0 ≡ err task_preempt_failed))
        × ((acquire env id version other later).1.tasks ≡ later.tasks)
  acquire_once w id version node other t calls h =
      let w' = (acquire env id version node w).1 in
      let (held, raised, _, _) = acquire-ok id version node w t h in
      let (r, found, le) = perform_all-Grows env laws calls w' id t held in
      acquire_stale id version other (perform_all env calls w') r found
        (past version t.version r.version raised le)

  renewed :
      (w : World) (node : String) (id : ℤ) (r : TaskRow)
      → row_at task_key id w.tasks ≡ some r
      → holds node r ≡ true
      → (renew env node w).0 ≡ ok tt
      → row_at task_key id (renew env node w).1.tasks ≡ some (bump (env.clock w.tick) r)
  unfolding renew
  renewed w node id r found held h =
      let f = bump (env.clock w.tick) in
      ground (
        arith,
        laws.tasks.update_law (suc w.tick) (holds node) f w.tasks,
        row_at-update_where task_key (holds node) f (λ r. refl) id w.tasks,
      )

  -- If a renewal by a node succeeds, each task that the node holds gets the next version and the
  -- time of the renewal, and an attempt of any node to acquire it at the version before is an
  -- error and writes no task.
  pub renew_protects :
      (w : World) (id : ℤ) (node other : String) (r : TaskRow)
      → row_at task_key id w.tasks ≡ some r
      → holds node r ≡ true
      → (renew env node w).0 ≡ ok tt
      → let w' = (renew env node w).1 in
        (row_at task_key id w'.tasks
          ≡ some (record r { version = r.version +ℤ pos 1; utime = env.clock w.tick }))
        × (((acquire env id r.version other w').0 ≡ err database_failed)
            ⊎ ((acquire env id r.version other w').0 ≡ err task_preempt_failed))
        × ((acquire env id r.version other w').1.tasks ≡ w'.tasks)
  renew_protects w id node other r found held h =
      let row = renewed w node id r found held h in
      let (result, kept) =
        acquire_stale id r.version other (renew env node w).1 _ row (succ-ne r.version) in
      (row, result, kept)

  -- A release of a task in the table is a database error that writes no task; or the node does not
  -- hold the task, and the release is an error that writes no task; or it does, and the row is
  -- active and free, in the table and in the answer.
  pub release_by_holder :
      (w : World) (id : ℤ) (node : String) (r : TaskRow)
      → row_at task_key id w.tasks ≡ some r
      → (((release env id node w).0 ≡ err database_failed)
          × ((release env id node w).1.tasks ≡ w.tasks))
        ⊎ ((holds node r ≡ false)
            × ((release env id node w).0 ≡ err task_release_failed)
            × ((release env id node w).1.tasks ≡ w.tasks))
        ⊎ ((holds node r ≡ true)
            × ((release env id node w).0 ≡ ok (released (env.clock w.tick) r))
            × (row_at task_key id (release env id node w).1.tasks
                ≡ some (released (env.clock w.tick) r)))
  unfolding release
  release_by_holder w id node r found =
      elim (write_task_cases env (λ s. s.id ==ℤ id && holds node s) released task_release_failed id
        laws (λ s h. (==ℤ_iff s.id id).0 (ground arith)) (λ t s. refl)
        (λ t s. bump-ne t s (released t s) refl) w) [
          | inl c ↦ inl (c.result, c.tasks)
          | inr (inl c) ↦ inr (
              inl (
                ground (
                  arith,
                  c.unmatched r found,
                  (==ℤ_iff r.id id).1,
                  (==ℤ_iff r.id id).0 (find_sound (λ s. s.id ==ℤ id) w.tasks r found),
                ),
                c.result,
                c.tasks,
              ))
          | inr (inr c) ↦
              let row =
                row_at-update_where task_key (λ s. s.id ==ℤ id && holds node s)
                  (released (env.clock w.tick)) (λ s. refl) id w.tasks in
              let here : c.old ≡ r = ground (arith, c.found) in
              inr (
                inr (
                  ground (arith, c.matched),
                  ground (arith, c.result),
                  ground (arith, c.found, c.matched, c.tasks, row),
                ))
        ]
