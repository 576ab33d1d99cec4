-- ===== src/Cluster/Writes.antt =====
-- The writes of the table of the executions.
use ework_runner.Prelude.{
  ℕ, ℤ, ◌==ℤ◌, Bool, true, false, ◌≡◌, refl, ap, ◌⊎◌, inl, inr, some, List, [], ◌∷◌, ◌++◌, find,
  find_sound, find-append, arith, Bool-cases, Option-cases, ==ℤ_iff, if◌then◌else◌,
}
use ework_runner.Domain.Status.{is_terminal_status}
use ework_runner.Database.{row_at, row_at_key, row_at-update_where, update_where}
use ework_runner.Rows.{ExecutionRow}
use ework_runner.Env.{Env, World}
use ework_runner.Schema.{EnvLaws, execution_key, stored_execution}
use ework_runner.Dao.Task.Versions.{Grows-eq}
use ework_runner.Cluster.Kept.{
  HasTask, HasExecution, Announced, Kept, Kept-same, All-weaken, Move, Moved, here, next,
}

-- What an UPDATE may assign: not the keys; nor a final status without an event.
pub record Assigns (w : World) (p : ExecutionRow → Bool) (f : ExecutionRow → ExecutionRow)
    : Type 0 where
  pub id : (r : ExecutionRow) → (f r).id ≡ r.id
  pub task_id : (r : ExecutionRow) → (f r).task_id ≡ r.task_id
  pub status :
      (r : ExecutionRow)
      → p r ≡ true
      → is_terminal_status (f r).status ≡ true
      → (is_terminal_status r.status ≡ true) ⊎ Announced r.id w.events
  pub moves :
      (r : ExecutionRow)
      → row_at execution_key r.id w.executions ≡ some r
      → p r ≡ true
      → Move r.status (f r).status

-- Where a row of an updated table comes from.
row_before :
    (p : ExecutionRow → Bool) (f : ExecutionRow → ExecutionRow)
    → ((r : ExecutionRow) → (f r).id ≡ r.id)
    → (id : ℤ) (rows : List ExecutionRow) (r' : ExecutionRow)
    → row_at execution_key id (update_where p f rows) ≡ some r'
    → (r : ExecutionRow) × (row_at execution_key id rows ≡ some r) × ((if p r then f r else r) ≡ r')
row_before p f keeps id rows r' found = elim (Option-cases (row_at execution_key id rows)) [
  | inl absent ↦ ground (arith, absent, row_at-update_where execution_key p f keeps id rows)
  | inr (r, there) ↦
      (r, there, ground (arith, there, row_at-update_where execution_key p f keeps id rows))
]

Kept-update_where :
    (w w' : World) (p : ExecutionRow → Bool) (f : ExecutionRow → ExecutionRow)
    → Assigns w p f
    → w'.executions ≡ update_where p f w.executions
    → w'.tasks ≡ w.tasks
    → w'.events ≡ w.events
    → w'.invocations ≡ w.invocations
    → Kept w w'
Kept-update_where w w' p f a executions tasks events invocations =
    let still : ((id task : ℤ) → HasExecution id task w → HasExecution id task w') =
      λ id task (r, found, of). (
        if p r then f r else r,
        rw executions
            (ground (arith, found, row_at-update_where execution_key p f a.id id w.executions)),
        ground (arith, of, a.task_id r),
      ) in
    record {
      tasks = Grows-eq tasks;
      executions = still;
      moves = λ id r found. moved id r found (Bool-cases (p r));
      sound = λ s. record {
        owned = λ id r' found'.
            let (r, found, e) = row_before p f a.id id w.executions r' (rw (← executions) found') in
            let same : r.task_id ≡ r'.task_id = ground (arith, e, a.task_id r) in
            rw (tasks, ← same) (s.owned id r found);
        ended = λ id r' found' over.
            let (r, found, e) = row_before p f a.id id w.executions r' (rw (← executions) found') in
            let under : r.id ≡ id = (==ℤ_iff r.id id).0 (find_sound _ w.executions r found) in
            rw events (elim (Bool-cases (p r)) [
              | inl hit ↦ elim (a.status r hit (ground (arith, e, hit, over))) [
                | inl before ↦ s.ended id r found before
                | inr announced ↦ rw (← under) announced
              ]
              | inr miss ↦ s.ended id r found (ground (arith, e, miss, over))
            ]);
        events = rw events (
            All-weaken (λ e (known, over). (still e.exec_id e.task_id known, over)) w.events
              s.events);
        invocations = rw invocations (
            All-weaken (λ i known. still i.execution.id i.execution.task.id known) w.invocations
              s.invocations);
      };
    }
  where
    moved :
        (id : ℤ) (r : ExecutionRow)
        → row_at execution_key id w.executions ≡ some r
        → (p r ≡ true) ⊎ (p r ≡ false)
        → Moved id r.status w'
    moved id r found (inl hit) = (
      f r,
      rw executions
          (ground (arith, found, hit, row_at-update_where execution_key p f a.id id w.executions)),
      next (a.moves r (row_at_key execution_key id r.id r w.executions found refl) hit) here,
    )
    moved id r found (inr miss) = (
      r,
      rw executions
          (ground (arith, found, miss, row_at-update_where execution_key p f a.id id w.executions)),
      here,
    )

-- What an INSERT may add: an execution of a task of the table, with a status that is not final.
Kept-append :
    (w w' : World) (new : ExecutionRow)
    → HasTask new.task_id w
    → is_terminal_status new.status ≡ false
    → w'.executions ≡ w.executions ++ new ∷ []
    → w'.tasks ≡ w.tasks
    → w'.events ≡ w.events
    → w'.invocations ≡ w.invocations
    → Kept w w'
Kept-append w w' new of_task open_ executions tasks events invocations =
    let still : ((id task : ℤ) → HasExecution id task w → HasExecution id task w') =
      λ id task (r, found, of). (
        r,
        rw executions
            (ground (arith, found, find-append (λ s. s.id ==ℤ id) w.executions (new ∷ []))),
        of,
      ) in
    record {
      tasks = Grows-eq tasks;
      executions = still;
      moves = λ id r found. (
        r,
        rw executions
            (ground (arith, found, find-append (λ s. s.id ==ℤ id) w.executions (new ∷ []))),
        here,
      );
      sound = λ s. record {
        owned = λ id r found. rw tasks (elim (old_or_new id r (rw (← executions) found)) [
          | inl old ↦ s.owned id r old
          | inr same ↦ rw (← same) of_task
        ]);
        ended = λ id r found over. rw events (elim (old_or_new id r (rw (← executions) found)) [
          | inl old ↦ s.ended id r old over
          | inr same ↦ ground (arith, same, over, open_)
        ]);
        events = rw events (
            All-weaken (λ e (known, over). (still e.exec_id e.task_id known, over)) w.events
              s.events);
        invocations = rw invocations (
            All-weaken (λ i known. still i.execution.id i.execution.task.id known) w.invocations
              s.invocations);
      };
    }
  where
    old_or_new :
        (id : ℤ) (r : ExecutionRow)
        → row_at execution_key id (w.executions ++ new ∷ []) ≡ some r
        → (row_at execution_key id w.executions ≡ some r) ⊎ (new ≡ r)
    old_or_new id r found = elim (Option-cases (row_at execution_key id w.executions)) [
      | inl absent ↦ inr (
          unfold find in
          ground (arith, absent, find-append (λ s. s.id ==ℤ id) w.executions (new ∷ [])))
      | inr (x, there) ↦
          inl (ground (arith, there, find-append (λ s. s.id ==ℤ id) w.executions (new ∷ [])))
    ]

module _ (env : Env) (laws : EnvLaws env) where
  pub Kept-update :
      (w : World) (t tick : ℕ) (p : ExecutionRow → Bool) (f : ExecutionRow → ExecutionRow)
      → Assigns w p f
      → Kept w
          (record w { executions = (env.execution_table.update t p f w.executions).1; tick = tick })
  Kept-update w t tick p f a = elim (laws.executions.update_law t p f w.executions) [
    | inl down ↦ Kept-same w _ refl (ap (λ x. x.1) down) refl refl
    | inr (n, e, _, _) ↦ Kept-update_where w _ p f a (ap (λ x. x.1) e) refl refl refl
  ]

  pub Kept-insert :
      (w : World) (t tick : ℕ) (new : ExecutionRow)
      → HasTask new.task_id w
      → ((k : ℤ) → is_terminal_status (stored_execution k new).status ≡ false)
      → Kept w
          (record w { executions = (env.execution_table.insert t new w.executions).1; tick = tick })
  Kept-insert w t tick new of_task open_ = elim (laws.executions.insert_law t new w.executions) [
    | inl down ↦ Kept-same w _ refl (ap (λ x. x.1) down) refl refl
    | inr (k, e, _) ↦
        Kept-append w _ (stored_execution k new) of_task (open_ k) (ap (λ x. x.1) e) refl refl refl
  ]
