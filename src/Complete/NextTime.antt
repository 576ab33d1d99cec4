-- ===== src/Complete/NextTime.antt =====
-- The next time of the task of an execution that has ended.
use ework_runner.Prelude.{
  ℕ, suc, ℤ, pos, ◌<ℤ◌, ltb_ℤ, ◌==ˢ◌, true, false, ◌≡◌, refl, ap, ◌∙◌, ◌&&◌, some, arith, ==ℤ_iff,
  find_sound, inl, inr, ◌⊎◌,
}
use ework_runner.Domain.Errors.{
  Error, database_failed, task_update_status_failed, task_update_next_time_failed,
}
use ework_runner.Domain.Status.{inactive, one_time, recurring, is_one_time}
use ework_runner.Domain.Task.{Time, at, calculate_next_time}
use ework_runner.Action.{ok, err}
use ework_runner.Database.{row_at, row_at_key}
use ework_runner.Rows.{TaskRow}
use ework_runner.Env.{Env, World, Event}
use ework_runner.Schema.{EnvLaws, task_key}
use ework_runner.Dao.Execution as dao
use ework_runner.Dao.Task as task_dao
use ework_runner.Dao.Task.{has_id, has_version, bump, is_schedulable, holds, released}
use ework_runner.Dao.Task.Calls.{has_version_id}
use ework_runner.Dao.Task.Lock.{bump-ne}
use ework_runner.Dao.Task.Writes.{write_task_row}
use ework_runner.Repository.Execution as repo
use ework_runner.Repository.Task as task_repo
use ework_runner.Service.Task as tasks
use ework_runner.Complete.{record_result}

module _ (env : Env) where
  pub record_result-tasks : (e : Event) (w : World) → (record_result env e w).1.tasks ≡ w.tasks
  unfolding repo.update_schedule_result dao.update_schedule_result
  record_result-tasks e w = ground arith

module _ (env : Env) (laws : EnvLaws env) where
  -- The read of the row under `id`.
  get_by_id-cases :
      (id : ℤ) (w : World) (r : TaskRow)
      → row_at task_key id w.tasks ≡ some r
      → ((x : Error) × ((task_repo.get_by_id env id w).0 ≡ err x))
        ⊎ ((task_repo.get_by_id env id w).0 ≡ ok (task_repo.to_domain r))
  unfolding task_repo.get_by_id task_dao.get_by_id
  get_by_id-cases id w r found = elim (laws.tasks.first_law w.tick (has_id id) w.tasks) [
    | inl e ↦ inl (database_failed, rw e refl)
    | inr (s, e, found_s) ↦
        let here : s ≡ r = ground (arith, found_s, found) in inr (rw (e, here) refl)
  ]

  get_by_id-tasks : (id : ℤ) (w : World) → (task_repo.get_by_id env id w).1.tasks ≡ w.tasks
  unfolding task_repo.get_by_id task_dao.get_by_id
  get_by_id-tasks id w = ground arith

  next_time-inactive :
      (id : ℤ) (w : World) (r : TaskRow)
      → (task_repo.get_by_id env id w).0 ≡ ok (task_repo.to_domain r)
      → r.type ≡ one_time
      → pos 0 <ℤ r.next_time
      → ((t : ℕ) → r.next_time <ℤ env.clock t)
      → let w₁ = (task_repo.get_by_id env id w).1 in
        tasks.update_next_time env id w
        ≡ task_repo.update_status env id inactive (record w₁ { tick = suc w₁.tick })
  unfolding tasks.update_next_time task_repo.to_domain
  next_time-inactive id w r e once positive past =
      let w₁ = (task_repo.get_by_id env id w).1 in
      let due : (is_one_time r.type
            && ltb_ℤ (pos 0) r.next_time
            && ltb_ℤ r.next_time (env.clock w₁.tick))
          ≡ true =
        rw once (ground (arith, positive, past w₁.tick)) in
      rw (e, due) refl

  -- A one-time task whose time has passed becomes inactive, or an error leaves the tasks alone.
  pub next_time-one_time :
      (id : ℤ) (w : World) (r : TaskRow)
      → row_at task_key id w.tasks ≡ some r
      → r.type ≡ one_time
      → pos 0 <ℤ r.next_time
      → ((t : ℕ) → r.next_time <ℤ env.clock t)
      → ((x : Error) × ((tasks.update_next_time env id w).0 ≡ err x)
          × ((tasks.update_next_time env id w).1.tasks ≡ w.tasks))
        ⊎ ((r' : TaskRow) × ((tasks.update_next_time env id w).0 ≡ ok (task_repo.to_domain r'))
            × (row_at task_key id (tasks.update_next_time env id w).1.tasks ≡ some r')
            × (r'.status ≡ inactive))
  unfolding task_repo.update_status task_dao.update_status tasks.update_next_time
  next_time-one_time id w r found once positive past =
      let w₁ = (task_repo.get_by_id env id w).1 in
      let w₂ = record w₁ { tick = suc w₁.tick } in
      let kept = get_by_id-tasks id w in
      elim (get_by_id-cases id w r found) [
        | inl (x, e) ↦ inl (x, rw e refl, rw e kept)
        | inr e ↦
            rw (next_time-inactive id w r e once positive past)
              elim (write_task_row env (has_id id) (λ t s. record (bump t s) { status = inactive })
                task_update_status_failed id laws (λ s h. (==ℤ_iff s.id id).0 h) (λ t s. refl)
                (λ t s. bump-ne t s (record (bump t s) { status = inactive }) refl) w₂ r
                (rw kept found)) [
                  | inl (x, result, same) ↦ inl (x, rw result refl, rw result (same ∙ kept))
                  | inr (_, result, row) ↦ inr (
                    record (bump (env.clock w₂.tick) r) { status = inactive },
                    rw result refl,
                    rw result row,
                    refl,
                  )
                ]
      ]

  next_time-step :
      (id : ℤ) (w : World) (r : TaskRow) (next : ℤ → Time) (after : ℤ → ℤ)
      → (task_repo.get_by_id env id w).0 ≡ ok (task_repo.to_domain r)
      → r.type ≡ recurring
      → (r.cron_expr ==ˢ "") ≡ false
      → env.cron r.cron_expr ≡ some next
      → ((t : ℤ) → next t ≡ at (after t))
      → let w₁ = (task_repo.get_by_id env id w).1 in
        tasks.update_next_time env id w
        ≡ task_repo.update_next_time env r.id r.version
            (after (env.clock (suc w₁.tick)))
            (record w₁ { tick = suc (suc w₁.tick) })
  unfolding tasks.update_next_time task_repo.to_domain calculate_next_time
  next_time-step id w r next after e again has_cron parses fires =
      let w₁ = (task_repo.get_by_id env id w).1 in
      rw (e, again, has_cron, parses, fires (env.clock (suc w₁.tick))) refl

  -- A recurring task gets its next time, or an error leaves the tasks alone.
  pub next_time-recurring :
      (id : ℤ) (w : World) (r : TaskRow) (next : ℤ → Time) (after : ℤ → ℤ)
      → row_at task_key id w.tasks ≡ some r
      → r.type ≡ recurring
      → (r.cron_expr ==ˢ "") ≡ false
      → env.cron r.cron_expr ≡ some next
      → ((t : ℤ) → next t ≡ at (after t))
      → ((x : Error) × ((tasks.update_next_time env id w).0 ≡ err x))
        ⊎ ((k k' : ℕ) × ((tasks.update_next_time env id w).0
              ≡ ok (
                  task_repo.to_domain
                    (record (bump (env.clock k') r) { next_time = after (env.clock k) })))
            × (row_at task_key id (tasks.update_next_time env id w).1.tasks
                ≡ some (record (bump (env.clock k') r) { next_time = after (env.clock k) })))
  unfolding task_repo.update_next_time task_dao.update_next_time tasks.update_next_time
  next_time-recurring id w r next after found again has_cron parses fires =
      let w₁ = (task_repo.get_by_id env id w).1 in
      let w₂ = record w₁ { tick = suc (suc w₁.tick) } in
      let moment = after (env.clock (suc w₁.tick)) in
      let kept = get_by_id-tasks id w in
      let under : r.id ≡ id = (==ℤ_iff r.id id).0 (find_sound _ w.tasks r found) in
      elim (get_by_id-cases id w r found) [
        | inl (x, e) ↦ inl (x, rw e refl)
        | inr e ↦
            rw (next_time-step id w r next after e again has_cron parses fires)
              elim (write_task_row env (has_version r.id r.version)
                (λ t s. record (bump t s) { next_time = moment }) task_update_next_time_failed r.id
                laws (has_version_id r.id r.version) (λ t s. refl)
                (λ t s. bump-ne t s (record (bump t s) { next_time = moment }) refl) w₂ r
                (rw kept (ap (λ k. row_at task_key k w.tasks) under ∙ found))) [
                  | inl (x, result, same) ↦ inl (x, rw result refl)
                  | inr (_, result, row) ↦ inr (
                    suc w₁.tick,
                    w₂.tick,
                    rw result refl,
                    rw result (row_at_key task_key r.id id _ _ row under),
                  )
                ]
      ]
