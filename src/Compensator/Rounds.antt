-- ===== src/Compensator/Rounds.antt =====
-- Which executions a round of the retry or the reschedule compensator starts again.
use ework_runner.Prelude.{
  suc, ℤ, pos, ◌≤ℤ◌, leb_ℤ, String, true, ◌≡◌, refl, ap, ◌∙◌, ◌⊎◌, ◌&&◌, inl, inr, List, [], ◌∷◌,
  ◌++◌, some, map, length, All, arith,
}
use ework_runner.Domain.Errors.{Error, database_failed}
use ework_runner.Domain.Status.{is_failed_retryable, is_failed_rescheduled}
use ework_runner.Domain.Execution.{TaskExecution}
use ework_runner.Action.{ok, err, Result}
use ework_runner.Database.{row_at}
use ework_runner.Rows.{ExecutionRow}
use ework_runner.Env.{Env, World, Routing, Invocation}
use ework_runner.Schema.{EnvLaws, execution_key}
use ework_runner.Dao.Execution as dao
use ework_runner.Repository.Execution as repo
use ework_runner.Repository.Execution.{to_domain}
use ework_runner.Service.Runner.{
  retry, reschedule, spawn, no_routing, with_specific_node_id, with_excluded_node_id,
}
use ework_runner.Compensator.{for_each, retry_round, reschedule_round}

append_assoc : {A : Type 0} (xs ys zs : List A) → (xs ++ ys) ++ zs ≡ xs ++ (ys ++ zs)
append_assoc [] ys zs = refl
append_assoc (x ∷ xs) ys zs = ap (λ l. x ∷ l) (append_assoc xs ys zs)

append-nil : {A : Type 0} (xs : List A) → xs ≡ xs ++ []
append-nil [] = refl
append-nil (x ∷ xs) = ap (λ l. x ∷ l) (append-nil xs)

-- The start of one execution, by its routing.
abbrev pub invocation : (TaskExecution → Routing) → ExecutionRow → Invocation
invocation f r = record { routing = f (to_domain r); execution = to_domain r }

for_each-spawn :
    (f : TaskExecution → Routing) (rows : List ExecutionRow) (w : World)
    → for_each (λ e. spawn (f e) e) (map to_domain rows) w
      ≡ (ok tt, record w { invocations = w.invocations ++ map (invocation f) rows })
unfolding for_each
for_each-spawn f [] w = ap (λ l. (ok tt, record w { invocations = l })) (append-nil w.invocations)
for_each-spawn f (r ∷ rows) w =
    for_each-spawn f rows (record w { invocations = w.invocations ++ invocation f r ∷ [] })
    ∙ ap (λ l. (ok tt, record w { invocations = l }))
        (append_assoc w.invocations (invocation f r ∷ []) (map (invocation f) rows))

-- A round that fails starts nothing; any other starts some rows of the table, `limit` at most, that
-- satisfy `Q`; no round writes anything.
abbrev pub Starts :
    (TaskExecution → Routing)
    → (ExecutionRow → Type 0)
    → ℤ
    → World
    → Result (Unit {0}) × World
    → Type 0
Starts f Q limit w (result, w') =
    (w'.tasks ≡ w.tasks)
    × (w'.executions ≡ w.executions)
    × (w'.events ≡ w.events)
    × (((x : Error) × (result ≡ err x) × (w'.invocations ≡ w.invocations))
        ⊎ ((rows : List ExecutionRow) × (result ≡ ok tt)
            × (pos (length rows) ≤ℤ limit)
            × All (λ r. (row_at execution_key r.id w.executions ≡ some r) × Q r) rows
            × (w'.invocations ≡ w.invocations ++ map (invocation f) rows)))

All-map :
    {A : Type 0} {P Q : A → Type 0} (xs : List A) → ((x : A) → P x → Q x) → All P xs → All Q xs
All-map [] f all = all
All-map (x ∷ xs) f (p, all) = (f x p, All-map xs f all)

module _ (env : Env) (laws : EnvLaws env) where
  -- With a batch size that is not negative, a round of the reschedule compensator writes nothing,
  -- and it is an error that starts nothing, or starts rows of the table that wait for a
  -- rescheduling, no more than the batch size, each routed to the node that its row names.
  pub reschedule_round-Starts :
      (node : String) (batch_size : ℤ) (w : World)
      → pos 0 ≤ℤ batch_size
      → Starts
          (λ e. with_specific_node_id no_routing e.executor_node_id)
          (λ r. is_failed_rescheduled r.status ≡ true)
          batch_size
          w
          (reschedule_round env node batch_size w)
  unfolding reschedule_round repo.find_reschedulable_executions dao.find_reschedulable_executions
      reschedule
  reschedule_round-Starts node batch_size w positive =
      elim (laws.executions.select_law w.tick (λ r. is_failed_rescheduled r.status) (λ r. r.utime)
        batch_size w.executions) [
          | inl down ↦ rw down (refl, refl, refl, inl (database_failed, refl, refl))
          | inr (rows, found, all, le) ↦ rw found (
              rw
                (for_each-spawn (λ e. with_specific_node_id no_routing e.executor_node_id) rows
                  (record w { tick = suc w.tick }))
                (refl, refl, refl, inr (rows, refl, le positive, all, refl)))
        ]

  -- With a batch size that is not negative, a round of the retry compensator writes nothing, and
  -- it is an error that starts nothing, or starts rows of the table that wait for a retry whose
  -- time has come, no more than the batch size, each routed away from the node that its row names.
  pub retry_round-Starts :
      (node : String) (batch_size : ℤ) (w : World)
      → pos 0 ≤ℤ batch_size
      → Starts
          (λ e. with_excluded_node_id no_routing e.executor_node_id)
          (λ r. (is_failed_retryable r.status ≡ true) × (r.next_retry_time ≤ℤ env.clock w.tick))
          batch_size
          w
          (retry_round env node batch_size w)
  unfolding retry_round repo.find_retryable_executions dao.find_retryable_executions retry
  retry_round-Starts node batch_size w positive =
      let t = env.clock w.tick in
      elim (laws.executions.select_law (suc w.tick)
        (λ r.
          is_failed_retryable r.status && leb_ℤ r.next_retry_time t && leb_ℤ r.next_retry_time t)
        (λ r. pos 0) batch_size w.executions) [
          | inl down ↦ rw down (refl, refl, refl, inl (database_failed, refl, refl))
          | inr (rows, found, all, le) ↦
              let due =
                All-map rows
                  (λ r (here, waits). (here, (ground (arith, waits), ground (arith, waits)))) all in
              rw found (
                rw
                  (for_each-spawn (λ e. with_excluded_node_id no_routing e.executor_node_id) rows
                    (record w { tick = suc (suc w.tick) }))
                  (refl, refl, refl, inr (rows, refl, le positive, due, refl)))
        ]
