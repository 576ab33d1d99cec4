-- ===== src/Dao/Task/Lease.antt =====
-- The lease of a task as an abstract machine, which the task DAO implements.
pub mod Refinement
use ework_runner.Prelude.{
  suc, ℤ, pos, ◌+ℤ◌, ◌==ℤ◌, String, ◌==ˢ◌, Bool, true, false, ◌&&◌, ◌≡◌, refl, sym, ap, ◌∙◌, ◌⊎◌,
  inl, inr, Option, none, some, List, [], ◌∷◌, if◌then◌else◌, arith, ==ℤ_iff, find_sound,
  find-append, succ-ne,
}
use ework_runner.Domain.Errors.{Error}
use ework_runner.Action.{Result, ok, err, panic}
use ework_runner.Domain.Status.{TaskStatus, active, preempted, is_preempted}
use ework_runner.Rows.{TaskRow, NullString, column_is}
use ework_runner.Database.{row_at, row_at-update_where}
use ework_runner.Env.{Env, World}
use ework_runner.Schema.{EnvLaws, task_key, stored_task}
use ework_runner.Dao.Task.{
  create, get_by_id, find_schedule_tasks, acquire, renew, release, update_next_time,
  update_schedule_params, update_status, write_task, bump, holds, has_id, has_version, acquired,
  released,
}
use ework_runner.Dao.Task.Writes.{write_task_cases}
use ework_runner.Dao.Task.Calls.{
  Call, creates, reads, finds, acquires, renews, releases, sets_next_time, sets_params, sets_status,
  perform, perform_all, has_version_id,
}

-- A lease: the node that is named, the status, and the version that fences it.
pub record Lease : Type 0 where
  pub node : Option String
  pub status : TaskStatus
  pub version : ℤ

abbrev pub named : NullString → Option String
named c = if c.valid then some c.text else none

abbrev pub lease_of : TaskRow → Lease
lease_of r = record { node = named r.schedule_node_id; status = r.status; version = r.version }

abbrev pub names : Option String → String → Bool
names none node = false
names (some n) node = n ==ˢ node

abbrev pub held_by : String → Lease → Bool
held_by node l = is_preempted l.status && names l.node node

abbrev pub next_version : Lease → Lease
next_version l = record l { version = l.version +ℤ pos 1 }

-- What a call promises to do with the lease of the task `id`, when the database carries it out.
abbrev pub lease_step : ℤ → Call → Lease → Lease
lease_step id (creates r) l = l
lease_step id (reads _) l = l
lease_step id (finds _ _) l = l
lease_step id (acquires target version node) l =
    if id ==ℤ target && l.version ==ℤ version
    then record (next_version l) { node = some node; status = preempted }
    else l
lease_step id (renews node) l = if held_by node l then next_version l else l
lease_step id (releases target node) l =
    if id ==ℤ target && held_by node l
    then record (next_version l) { node = none; status = active }
    else l
lease_step id (sets_next_time target version _) l =
    if id ==ℤ target && l.version ==ℤ version then next_version l else l
lease_step id (sets_params target version _) l =
    if id ==ℤ target && l.version ==ℤ version then next_version l else l
lease_step id (sets_status target status) l =
    if id ==ℤ target then record (next_version l) { status = status } else l

unfoldable pub lease_steps : ℤ → List Call → Lease → Lease
lease_steps id [] l = l
lease_steps id (c ∷ cs) l = lease_steps id cs (lease_step id c l)

-- Did the caller get an answer without an error?
abbrev pub is_ok : {A : Type 0} → Result A → Bool
is_ok (ok _) = true
is_ok (err _) = false
is_ok panic = false

unfoldable pub answers_ok : Env → Call → World → Bool
answers_ok env (creates r) w = is_ok (create env r w).0
answers_ok env (reads id) w = is_ok (get_by_id env id w).0
answers_ok env (finds timeout limit) w = is_ok (find_schedule_tasks env timeout limit w).0
answers_ok env (acquires id version node) w = is_ok (acquire env id version node w).0
answers_ok env (renews node) w = is_ok (renew env node w).0
answers_ok env (releases id node) w = is_ok (release env id node w).0
answers_ok env (sets_next_time id version next) w = is_ok (update_next_time env id version next w).0
answers_ok env (sets_params id version params) w =
    is_ok (update_schedule_params env id version params w).0
answers_ok env (sets_status id status) w = is_ok (update_status env id status w).0

-- The calls of a sequence that answer without an error, in order.
unfoldable pub answered : Env → List Call → World → List Call
answered env [] w = []
answered env (c ∷ cs) w =
    let rest = answered env cs (perform env c w) in if answers_ok env c w then c ∷ rest else rest
