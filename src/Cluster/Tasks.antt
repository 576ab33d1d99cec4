-- ===== src/Cluster/Tasks.antt =====
-- The task DAO and the task service.
use ework_runner.Prelude.{
  suc, ℤ, String, ◌≡◌, refl, map, arith, Bool-cases, inl, inr, if◌then◌else◌, pos, ltb_ℤ, ◌&&◌,
  Option-cases,
}
use ework_runner.Domain.Errors.{Error}
use ework_runner.Domain.Status.{inactive, is_one_time}
use ework_runner.Domain.Task.{Task, Time, zero_time, at, calculate_next_time}
use ework_runner.Action.{Result, ok, err, panic, continue, handle_result, on_result, pure, ◌>>=◌}
use ework_runner.Env.{Env, World, Act, now}
use ework_runner.Schema.{EnvLaws}
use ework_runner.Dao.Task as dao
use ework_runner.Dao.Task.Calls.{
  Call, creates, reads, finds, acquires, renews, releases, sets_next_time, sets_params, sets_status,
  perform, perform-Grows,
}
use ework_runner.Repository.Task as repo
use ework_runner.Service.Task as tasks
use ework_runner.Cluster.Kept.{Kept, Kept-refl, Kept-same, Kept-tasks, Kept-trans}

-- An answer of the environment.
pub ticked : (w : World) → Kept w (record w { tick = suc w.tick })
ticked w = Kept-same w _ refl refl refl refl

module _ {A B : Type 0} (m : Act A) (w : World) (kept : Kept w (m w).1) where
  -- A step, and the rest of the block.
  pub bind-Kept :
      (f : A → Act B)
      → ((a : A) → (m w).0 ≡ ok a → Kept (m w).1 (f a (m w).1).1)
      → Kept w ((m >>= f) w).1
  bind-Kept f rest = go (m w).0 refl
    where
      go : (r : Result A) → (m w).0 ≡ r → Kept w (continue r f (m w).1).1
      go (ok a) e = Kept-trans kept (rest a e)
      go (err x) e = kept
      go panic e = kept

  -- The same, with a handler of the error of the step.
  pub on_result-Kept :
      (f : A → Act B) (handler : Error → Act B)
      → ((a : A) → (m w).0 ≡ ok a → Kept (m w).1 (f a (m w).1).1)
      → ((x : Error) → Kept (m w).1 (handler x (m w).1).1)
      → Kept w (on_result m f handler w).1
  on_result-Kept f handler rest other = go (m w).0 refl
    where
      go : (r : Result A) → (m w).0 ≡ r → Kept w (handle_result r f handler (m w).1).1
      go (ok a) e = Kept-trans kept (rest a e)
      go (err x) e = Kept-trans kept (other x)
      go panic e = kept

  pub pure-Kept : (g : A → B) → Kept w ((m >>= λ a. pure (g a)) w).1
  pure-Kept g = bind-Kept (λ a. pure (g a)) (λ a e. Kept-refl (m w).1)

module _ (env : Env) where
  perform-frame :
      (c : Call) (w : World)
      → ((perform env c w).executions ≡ w.executions)
        × ((perform env c w).events ≡ w.events)
        × ((perform env c w).invocations ≡ w.invocations)
  unfolding perform dao.create dao.get_by_id dao.find_schedule_tasks dao.acquire dao.renew
      dao.release dao.update_next_time dao.update_schedule_params dao.update_status dao.write_task
  perform-frame (creates r) w = ground arith
  perform-frame (reads id) w = ground arith
  perform-frame (finds timeout limit) w = ground arith
  perform-frame (acquires id version node) w = ground arith
  perform-frame (renews node) w = ground arith
  perform-frame (releases id node) w = ground arith
  perform-frame (sets_next_time id version next) w = ground arith
  perform-frame (sets_params id version params) w = ground arith
  perform-frame (sets_status id status) w = ground arith

module _ (env : Env) (laws : EnvLaws env) where
  pub perform-Kept : (c : Call) (w : World) → Kept w (perform env c w)
  perform-Kept c w =
      let (executions, events, invocations) = perform-frame env c w in
      Kept-tasks w (perform env c w) (perform-Grows env laws c w) executions events invocations

  pub get_by_id-Kept : (id : ℤ) (w : World) → Kept w (repo.get_by_id env id w).1
  unfolding repo.get_by_id perform
  get_by_id-Kept id w =
      pure-Kept (dao.get_by_id env id) w (perform-Kept (reads id) w) repo.to_domain

  pub acquire-Kept :
      (id version : ℤ) (node : String) (w : World) → Kept w (tasks.acquire env id version node w).1
  unfolding tasks.acquire repo.acquire perform
  acquire-Kept id version node w =
      pure-Kept (dao.acquire env id version node) w (perform-Kept (acquires id version node) w)
        repo.to_domain

  pub release-Kept : (id : ℤ) (node : String) (w : World) → Kept w (tasks.release env id node w).1
  unfolding tasks.release repo.release perform
  release-Kept id node w =
      pure-Kept (repo.release env id node) w
        (pure-Kept (dao.release env id node) w (perform-Kept (releases id node) w) repo.to_domain)
        (λ _. tt)

  pub renew-Kept : (node : String) (w : World) → Kept w (tasks.renew env node w).1
  unfolding tasks.renew repo.renew perform
  renew-Kept node w = perform-Kept (renews node) w

  pub schedulable_tasks-Kept :
      (timeout limit : ℤ) (w : World) → Kept w (tasks.schedulable_tasks env timeout limit w).1
  unfolding tasks.schedulable_tasks repo.schedulable_tasks perform
  schedulable_tasks-Kept timeout limit w =
      pure-Kept (dao.find_schedule_tasks env timeout limit) w (perform-Kept (finds timeout limit) w)
        (map repo.to_domain)

  update_status-Kept : (id : ℤ) (w : World) → Kept w (repo.update_status env id inactive w).1
  unfolding repo.update_status perform
  update_status-Kept id w =
      pure-Kept (dao.update_status env id inactive) w (perform-Kept (sets_status id inactive) w)
        repo.to_domain

  set_next-Kept : (t : Task) (next : Time) (w : World) → Kept w (tasks.set_next env t next w).1
  unfolding repo.update_next_time perform
  set_next-Kept t zero_time w = Kept-refl w
  set_next-Kept t (at next) w =
      pure-Kept (dao.update_next_time env t.id t.version next) w
        (perform-Kept (sets_next_time t.id t.version next) w) repo.to_domain

  reschedule-Kept : (t : Task) (w : World) → Kept w (tasks.reschedule env t w).1
  reschedule-Kept t w = elim (Option-cases (calculate_next_time env.cron (env.clock w.tick) t)) [
    | inl bad ↦ rw bad (ticked w)
    | inr (next, e) ↦ rw e (Kept-trans (ticked w) (set_next-Kept t next _))
  ]

  -- What UpdateNextTime does with the task that it has read.
  abbrev advance : ℤ → Task → Act Task
  advance id t = do
    moment ← now env
    if is_one_time t.type && ltb_ℤ (pos 0) t.next_time && ltb_ℤ t.next_time moment
        then repo.update_status env id inactive
        else tasks.reschedule env t

  advance-Kept : (id : ℤ) (t : Task) (w : World) → Kept w (advance id t w).1
  advance-Kept id t w =
      let w₁ = record w { tick = suc w.tick } in
      elim (Bool-cases
        (is_one_time t.type && ltb_ℤ (pos 0) t.next_time && ltb_ℤ t.next_time (env.clock w.tick))) [
          | inl past ↦ rw past (Kept-trans (ticked w) (update_status-Kept id w₁))
          | inr open_ ↦ rw open_ (Kept-trans (ticked w) (reschedule-Kept t w₁))
        ]

  pub update_next_time-Kept : (id : ℤ) (w : World) → Kept w (tasks.update_next_time env id w).1
  unfolding tasks.update_next_time
  update_next_time-Kept id w =
      bind-Kept (repo.get_by_id env id) w (get_by_id-Kept id w) (advance id)
        (λ t e. advance-Kept id t (repo.get_by_id env id w).1)

  pub create-Kept : (t : Task) (w : World) → Kept w (tasks.create env t w).1
  unfolding tasks.create repo.create perform
  create-Kept t w = elim (Option-cases (calculate_next_time env.cron (env.clock w.tick) t)) [
    | inl bad ↦ rw bad (ticked w)
    | inr (zero_time, e) ↦ rw e (ticked w)
    | inr (at next, e) ↦
        let w₁ = record w { tick = suc w.tick } in
        let r = repo.to_entity (record t { next_time = next }) in
        rw e (
          Kept-trans (ticked w)
            (pure-Kept (dao.create env r) w₁ (perform-Kept (creates r) w₁) repo.to_domain))
  ]
