-- ===== src/Cluster/Interleaved.antt =====
-- Turns of the system, between which reports are read and go on: UpdateState in two halves.
use ework_runner.Prelude.{ℤ, true, ◌≡◌, refl, some, List, [], ◌∷◌, arith}
use ework_runner.Domain.Status.{is_terminal_status}
use ework_runner.Domain.Execution.{ExecutionState}
use ework_runner.Database.{row_at}
use ework_runner.Rows.{ExecutionRow}
use ework_runner.Env.{Env, World}
use ework_runner.Schema.{EnvLaws, execution_key}
use ework_runner.Repository.Execution.{to_domain}
use ework_runner.Service.Execution.{dispatch}
use ework_runner.Service.Execution.Reports.{read}
use ework_runner.Dao.Task.Versions.{Grows}
use ework_runner.Cluster.{Turn, take_turn}
use ework_runner.Cluster.Kept.{Moves, HasExecution, Kept, Kept-refl, Kept-same, Kept-trans}
use ework_runner.Cluster.Reports.{Open, dispatch-Kept}
use ework_runner.Cluster.Sound.{Moves-ended, take_turn-Kept}

-- A whole turn; the read at the start of UpdateState; and the rest of it, for the row that was read.
pub data Deed : Type 0 where
  takes : Turn → Deed
  reads : Deed
  goes_on : ExecutionRow → ExecutionState → Deed

module _ (env : Env) where
  unfoldable pub do_deed : Deed → World → World
  do_deed (takes t) w = take_turn env t w
  do_deed reads w = read w
  do_deed (goes_on r state) w = (dispatch env state.status (to_domain r) state w).1

  unfoldable pub do_deeds : List Deed → World → World
  do_deeds [] w = w
  do_deeds (d ∷ ds) w = do_deeds ds (do_deed d w)

  -- A report that goes on had read an execution of the table, however long ago, and its execution
  -- has not ended since.
  abbrev pub IsTimely : Deed → World → Type 0
  IsTimely (takes t) w = Unit {0}
  IsTimely reads w = Unit {0}
  IsTimely (goes_on r state) w = HasExecution r.id r.task_id w × Open state.id w

  abbrev pub AllTimely : List Deed → World → Type 0
  AllTimely [] w = Unit {0}
  AllTimely (d ∷ ds) w = IsTimely d w × AllTimely ds (do_deed d w)

module _ (env : Env) (laws : EnvLaws env) where
  do_deed-Kept : (d : Deed) (w : World) → IsTimely env d w → Kept w (do_deed env d w)
  unfolding do_deed
  do_deed-Kept (takes t) w timely = take_turn-Kept env laws t w
  do_deed-Kept reads w timely = Kept-same w (read w) refl refl refl refl
  do_deed-Kept (goes_on r state) w (known, open_) =
      dispatch-Kept env laws state.status r state w refl known open_

  do_deeds-Kept : (ds : List Deed) (w : World) → AllTimely env ds w → Kept w (do_deeds env ds w)
  unfolding do_deeds
  do_deeds-Kept [] w timely = Kept-refl w
  do_deeds-Kept (d ∷ ds) w (now, later) =
      Kept-trans (do_deed-Kept d w now) (do_deeds-Kept ds (do_deed env d w) later)

  -- Whatever turns are taken, and however reports are read and go on between them, if no report
  -- goes on after its execution has ended, which the code does not ensure: no task is lost nor its
  -- version lowered; and an execution of the table is still there, as one of the same task, its
  -- status has moved along the steps that reports may take and to SUCCESS or FAILED, and if it had
  -- ended, it is still SUCCESS or FAILED.
  pub do_deeds-Moves :
      (ds : List Deed) (w : World)
      → AllTimely env ds w
      → Grows w.tasks (do_deeds env ds w).tasks
        × ((id : ℤ) (r : ExecutionRow)
            → row_at execution_key id w.executions ≡ some r
            → (r' : ExecutionRow) × (row_at execution_key id (do_deeds env ds w).executions
                ≡ some r')
              × (r'.task_id ≡ r.task_id)
              × Moves r.status r'.status
              × (is_terminal_status r.status ≡ true → is_terminal_status r'.status ≡ true))
  do_deeds-Moves ds w timely =
      let kept = do_deeds-Kept ds w timely in
      (
        kept.tasks,
        λ id r found.
            let (r', found', moves) = kept.moves id r found in
            let (r₂, found₂, of) = kept.executions id r.task_id (r, found, refl) in
            (r', found', ground (arith, found', found₂, of), moves, Moves-ended moves),
      )
