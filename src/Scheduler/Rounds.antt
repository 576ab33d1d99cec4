-- ===== src/Scheduler/Rounds.antt =====
-- How many tasks a turn of the scheduling loop starts.
use ework_runner.Prelude.{
  ℕ, suc, ◌+◌, ℤ, pos, ◌≤ℤ◌, String, ◌≡◌, ◌≢◌, ◌≤◌, refl, map, ◌∙◌, ◌⊎◌, inl, inr, List, [], ◌∷◌,
  length, length-append, arith, ap,
}
use ework_runner.Domain.Errors.{Error, database_failed}
use ework_runner.Domain.Task.{Task}
use ework_runner.Action.{ok, err, panic, result_cases}
use ework_runner.Env.{Env, World, Routing}
use ework_runner.Schema.{EnvLaws}
use ework_runner.Dao.Task as task_dao
use ework_runner.Dao.Task.{is_schedulable}
use ework_runner.Repository.Task as task_repo
use ework_runner.Repository.Execution as repo
use ework_runner.Service.Task as tasks
use ework_runner.Service.Runner.{run, handle_normal_task, release_task, new_execution}
use ework_runner.Service.Runner.Once.{create-frame, acquire-frame}
use ework_runner.Scheduler.{new_context, pick, schedule_from, schedule_round, Config}

module _ (env : Env) where
  release-frame :
      (id : ℤ) (node : String) (w : World)
      → ((task_dao.release env id node w).1.invocations ≡ w.invocations)
        × ((task_dao.release env id node w).0 ≢ panic)
  unfolding task_dao.release task_dao.write_task
  release-frame id node w = (ground arith, ground arith)

  release_task-invocations :
      (node : String) (t : Task) (w : World)
      → ((release_task env node t w).1.invocations ≡ w.invocations)
        × ((release_task env node t w).0 ≡ ok tt)
  unfolding release_task tasks.release task_repo.release
  release_task-invocations node t w = ground (arith, release-frame t.id node w)

  handle_normal_task-invocations :
      (node : String) (routing : Routing) (t : Task) (w : World)
      → (((handle_normal_task env node routing t w).0 ≡ ok tt)
          × (length (handle_normal_task env node routing t w).1.invocations
              ≡ suc (length w.invocations)))
        ⊎ ((x : Error) × ((handle_normal_task env node routing t w).0 ≡ err x)
            × ((handle_normal_task env node routing t w).1.invocations ≡ w.invocations))
        ⊎ ((handle_normal_task env node routing t w).0 ≡ panic)
  unfolding handle_normal_task
  handle_normal_task-invocations node routing t w =
      let e = new_execution t (env.clock w.tick) in
      let w₁ = record w { tick = suc w.tick } in
      let w₂ = (repo.create env e w₁).1 in
      let (_, _, same) = create-frame env e w₁ in
      elim (result_cases (repo.create env e w₁).0) [
        | inl (c, h) ↦ inl (
          rw h refl,
          rw h (
              omega (
                arith,
                length-append w₂.invocations (record { routing = routing; execution = c } ∷ []),
                ap length same,
              )),
        )
        | inr (inl (x, h)) ↦
            let (kept, released) = release_task-invocations node t w₂ in
            inr (inl (x, rw h (rw released refl), rw h (rw released (kept ∙ same))))
        | inr (inr h) ↦ inr (inr (rw h refl))
      ]

  run-invocations :
      (node : String) (routing : Routing) (t : Task) (w : World)
      → (((run env node routing t w).0 ≡ ok tt)
          × (length (run env node routing t w).1.invocations ≡ suc (length w.invocations)))
        ⊎ ((x : Error) × ((run env node routing t w).0 ≡ err x)
            × ((run env node routing t w).1.invocations ≡ w.invocations))
        ⊎ ((run env node routing t w).0 ≡ panic)
  unfolding run tasks.acquire task_repo.acquire
  run-invocations node routing t w =
      let w' = (task_dao.acquire env t.id t.version node w).1 in
      let (_, _, same) = acquire-frame env t.id t.version node w in
      elim (result_cases (task_dao.acquire env t.id t.version node w).0) [
        | inl (r, h) ↦
            ground (
              arith,
              h,
              same,
              handle_normal_task-invocations node routing (task_repo.to_domain r) w',
            )
        | inr (inl (x, h)) ↦ inr (inl (x, rw h refl, rw h same))
        | inr (inr h) ↦ inr (inr (rw h refl))
      ]

  new_context-invocations :
      (t : Task) (w : World) → (new_context env t w).1.invocations ≡ w.invocations
  unfolding new_context pick
  new_context-invocations t w = ground arith

  -- One task of the batch: it is started and counted, or neither.
  schedule_from-count :
      (node : String) (batch : List Task) (successes n : ℕ) (w : World)
      → (schedule_from env node successes batch w).0 ≡ ok n
      → (n ≤ successes + length batch)
        × (length (schedule_from env node successes batch w).1.invocations + successes
            ≡ length w.invocations + n)
  unfolding schedule_from
  schedule_from-count node [] successes n w h = (ground (arith, h), ground (arith, h))
  schedule_from-count node (t ∷ batch) successes n w h =
      let w₁ = (new_context env t w).1 in
      let same = new_context-invocations t w in
      elim (result_cases (new_context env t w).0) [
        | inl (routing, e) ↦
            let w₂ = (run env node routing t w₁).1 in
            elim (run-invocations node routing t w₁) [
              | inl (started, more) ↦
                  let ih =
                    schedule_from-count node batch (suc successes) n w₂
                      (ground (arith, h, e, started)) in
                  ground (arith, e, started, ih, more, same)
              | inr (inl (x, refused, kept)) ↦
                  let ih =
                    schedule_from-count node batch successes n w₂ (ground (arith, h, e, refused)) in
                  ground (arith, e, refused, ih, kept, same)
              | inr (inr panicked) ↦ ground (arith, h, e, panicked)
            ]
        | inr (inl (x, e)) ↦ ground (arith, h, e)
        | inr (inr e) ↦ ground (arith, h, e)
      ]

length-map : {A B : Type 0} (f : A → B) (xs : List A) → length (map f xs) ≡ length xs
length-map f [] = refl
length-map f (x ∷ xs) = omega (arith, length-map f xs)

module _ (env : Env) (laws : EnvLaws env) where
  -- The batch, or none, after a query that starts nothing.
  batch_of :
      (timeout limit : ℤ) (w : World)
      → pos 0 ≤ℤ limit
      → (((x : Error) × ((tasks.schedulable_tasks env timeout limit w).0 ≡ err x))
          ⊎ ((batch : List Task) × ((tasks.schedulable_tasks env timeout limit w).0 ≡ ok batch)
              × (pos (length batch) ≤ℤ limit)))
        × ((tasks.schedulable_tasks env timeout limit w).1.invocations ≡ w.invocations)
  unfolding tasks.schedulable_tasks task_repo.schedulable_tasks task_dao.find_schedule_tasks
  batch_of timeout limit w h =
      let t = env.clock w.tick in
      elim (laws.tasks.select_law (suc w.tick) (is_schedulable t timeout) (λ r. r.next_time) limit
        w.tasks) [
          | inl e ↦ (inl (database_failed, rw e refl), rw e refl)
          | inr (found, e, _, le) ↦ (
            inr (
              map task_repo.to_domain found,
              rw e refl,
              rw (length-map task_repo.to_domain found) (le h),
            ),
            ground (arith, e),
          )
        ]

  -- If the batch size is not negative and a turn of the scheduling loop returns a number of
  -- started tasks, then that is how many calls of executors it has begun, and no more than the
  -- batch size.
  pub schedule_round_count :
      (node : String) (c : Config) (w : World) (n : ℕ)
      → pos 0 ≤ℤ c.batch_size
      → (schedule_round env node c w).0 ≡ ok n
      → (pos n ≤ℤ c.batch_size)
        × (length (schedule_round env node c w).1.invocations ≡ length w.invocations + n)
  unfolding schedule_round
  schedule_round_count node c w n positive h =
      let (found, same) = batch_of c.preempted_timeout c.batch_size w positive in
      let w₁ = (tasks.schedulable_tasks env c.preempted_timeout c.batch_size w).1 in
      elim found [
        | inl (x, e) ↦
            let count = schedule_from-count env node [] 0 n w₁ (ground (arith, e, h)) in
            ground (arith, e, positive, count, same)
        | inr (batch, e, le) ↦
            let count = schedule_from-count env node batch 0 n w₁ (ground (arith, e, h)) in
            ground (arith, e, le, count, same)
      ]
