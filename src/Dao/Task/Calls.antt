-- ===== src/Dao/Task/Calls.antt =====
-- Any sequence of calls of the task DAO, by any scheduler nodes, in the order in which the database
-- takes them.
use ework_runner.Prelude.{
  suc, ℤ, String, NilParams, true, ◌≡◌, refl, inl, inr, List, [], ◌∷◌, arith, ==ℤ_iff,
}
use ework_runner.Domain.Status.{TaskStatus}
use ework_runner.Rows.{TaskRow}
use ework_runner.Env.{Env, World}
use ework_runner.Schema.{EnvLaws, stored_task}
use ework_runner.Dao.Task.{
  create, get_by_id, find_schedule_tasks, acquire, renew, release, update_next_time,
  update_schedule_params, update_status, bump, holds, has_version,
}
use ework_runner.Dao.Task.Versions.{
  Grows, Grows-refl, Grows-trans, Grows-eq, Grows-append, Grows-update_where, Grows-write_task,
  le-succ,
}

pub data Call : Type 0 where
  creates : TaskRow → Call
  reads : ℤ → Call
  finds : ℤ → ℤ → Call
  acquires : ℤ → ℤ → String → Call
  renews : String → Call
  releases : ℤ → String → Call
  sets_next_time : ℤ → ℤ → ℤ → Call
  sets_params : ℤ → ℤ → NilParams → Call
  sets_status : ℤ → TaskStatus → Call

module _ (env : Env) where
  unfoldable pub perform : Call → World → World
  perform (creates r) w = (create env r w).1
  perform (reads id) w = (get_by_id env id w).1
  perform (finds timeout limit) w = (find_schedule_tasks env timeout limit w).1
  perform (acquires id version node) w = (acquire env id version node w).1
  perform (renews node) w = (renew env node w).1
  perform (releases id node) w = (release env id node w).1
  perform (sets_next_time id version next) w = (update_next_time env id version next w).1
  perform (sets_params id version params) w = (update_schedule_params env id version params w).1
  perform (sets_status id status) w = (update_status env id status w).1

  unfoldable pub perform_all : List Call → World → World
  perform_all [] w = w
  perform_all (c ∷ cs) w = perform_all cs (perform c w)

pub has_version_id : (id version : ℤ) (r : TaskRow) → has_version id version r ≡ true → r.id ≡ id
has_version_id id version r h = (==ℤ_iff r.id id).0 (ground arith)

module _ (env : Env) (laws : EnvLaws env) where
  create-Grows : (r : TaskRow) (w : World) → Grows w.tasks (create env r w).1.tasks
  unfolding create
  create-Grows r w =
      let t = env.clock w.tick in
      let r' = record r { utime = t; ctime = t } in
      elim (laws.tasks.insert_law (suc w.tick) r' w.tasks) [
        | inl e ↦ Grows-eq {a = w.tasks} (ground arith)
        | inr (k, e, fresh) ↦ rw (e, create) (Grows-append w.tasks (stored_task k r'))
      ]

  renew-Grows : (node : String) (w : World) → Grows w.tasks (renew env node w).1.tasks
  unfolding renew
  renew-Grows node w =
      elim (laws.tasks.update_law (suc w.tick) (holds node) (bump (env.clock w.tick)) w.tasks) [
        | inl e ↦ Grows-eq {a = w.tasks} (ground arith)
        | inr (n, e, _, _) ↦
            rw (e, renew)
              (Grows-update_where (holds node) (bump _) w.tasks (λ r. refl)
                (λ r. le-succ r.version))
      ]

  pub perform-Grows : (c : Call) (w : World) → Grows w.tasks (perform env c w).tasks
  unfolding perform
  perform-Grows (creates r) w = create-Grows r w
  perform-Grows (reads id) w = Grows-eq {a = w.tasks} (unfold get_by_id in ground arith)
  perform-Grows (finds timeout limit) w =
      Grows-eq {a = w.tasks} (unfold find_schedule_tasks in ground arith)
  perform-Grows (acquires id version node) w =
      unfold acquire in
      Grows-write_task env laws _ _ _ id (has_version_id id version) (λ t r. refl) (λ t r. refl) w
  perform-Grows (renews node) w = renew-Grows node w
  perform-Grows (releases id node) w =
      unfold release in
      Grows-write_task env laws _ _ _ id (λ r h. (==ℤ_iff r.id id).0 (ground arith)) (λ t r. refl)
        (λ t r. refl) w
  perform-Grows (sets_next_time id version next) w =
      unfold update_next_time in
      Grows-write_task env laws _ _ _ id (has_version_id id version) (λ t r. refl) (λ t r. refl) w
  perform-Grows (sets_params id version params) w =
      unfold update_schedule_params in
      Grows-write_task env laws _ _ _ id (has_version_id id version) (λ t r. refl) (λ t r. refl) w
  perform-Grows (sets_status id status) w =
      unfold update_status in
      Grows-write_task env laws _ _ _ id (λ r h. (==ℤ_iff r.id id).0 h) (λ t r. refl) (λ t r. refl)
        w

  -- No sequence of calls of the task DAO, by any nodes, loses a task or lowers its version.
  pub perform_all-Grows : (cs : List Call) (w : World) → Grows w.tasks (perform_all env cs w).tasks
  unfolding perform_all
  perform_all-Grows [] w = Grows-refl w.tasks
  perform_all-Grows (c ∷ cs) w =
      Grows-trans w.tasks (perform env c w).tasks (perform_all env cs (perform env c w)).tasks
        (perform-Grows c w) (perform_all-Grows cs (perform env c w))
