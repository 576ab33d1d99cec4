-- ===== src/Execute.antt =====
-- internal/execute: scripts that come as messages.
pub mod Output
pub mod Languages
pub mod Consumer
pub mod Workers
use ework_runner.Prelude.{
  ℤ, String, Bool, true, false, not, Option, none, some, List, [], ◌∷◌, ◌++◌ as ◌++ˡ◌, ◌==ˢ◌, ◌==◌,
  if◌then◌else◌,
}
use Prim.Native.Char.{Char, code}
use Prim.Native.String.{◌++◌}
use Prim.Native.String as Text
use ework_runner.Prelude.Text.{trim_space}
use ework_runner.Domain.Errors.{Error, json_failed, broker_failed}
use ework_runner.Action.{Action, Result, ok, err, panic, pure, raise, panics, ◌>>=◌, ◌>>◌}
use ework_runner.Files.{Os, Stat, found, not_exist, stat_failed, checked, logged}

abbrev pub temp_dir : String
temp_dir = "/app"

-- domain.ExecuteReceive
pub record ExecuteReceive : Type 0 where
  pub task_id : ℤ
  pub language : String
  pub code : String
  pub args : String
  pub variables : String

-- domain.Status and event.Status
pub data Status : Type 0 where
  success failed : Status

-- What Receive returns: the output, the status, and whether there is an error.
pub record Outcome : Type 0 where
  pub output : String
  pub status : Status
  pub has_error : Bool

module _ {S : Type 0} (os : Os S) where
  -- tmpFile is nil after an error of CreateTemp, and the call of its Name panics.
  abbrev pub created : Option String × S → Result String × S
  created (none, s) = (panic, s)
  created (some name, s) = (ok name, s)

  -- The loop over the variables; an error is only logged.
  unfoldable pub write_variables : String → List (String × String) → S → S
  write_variables name [] s = s
  write_variables name (v ∷ vs) s =
      write_variables name vs (os.append_file name (v.0 ++ "=" ++ v.1 ++ "\n") s).1

  abbrev pub or_no_variables : Option (List (String × String)) → List (String × String)
  or_no_variables none = []
  or_no_variables (some vs) = vs

  unfoldable pub create_variables_temp_file : String → Action S String
  create_variables_temp_file vars = do
    name ← λ s. created (os.create_temp temp_dir "scripts-*.vars" s)
    λ s. (ok tt, write_variables name (or_no_variables (os.unmarshal_variables vars)) s)
    logged (os.close_file name)
    logged (os.chmod name)
    pure name

  abbrev pub file_name : String → String
  file_name language =
      if language ==ˢ "shell"
      then "scripts-*.sh"
      else if language ==ˢ "python"
      then "scripts-*.py"
      else ""

  unfoldable pub create_code_temp_file : String → String → Action S String
  create_code_temp_file source language = do
    name ← λ s. created (os.create_temp temp_dir (file_name language) s)
    logged (os.append_file name source)
    logged (os.close_file name)
    logged (os.chmod name)
    pure name

  abbrev pub shell : S → String
  shell s = if os.look_path "/bin/bash" s then "/bin/bash" else "/bin/sh"

  abbrev pub shell_command : String → String → String → Action S (Option (List String))
  shell_command code_file args variables s =
      let sh = shell s in
      (create_variables_temp_file variables >>= λ vars_file.
      pure (some (sh ∷ code_file ∷ args ∷ vars_file ∷ [])))
        s

  -- The command line; `none` is the nil command of another language.
  abbrev pub command_of : String → String → String → String → Action S (Option (List String))
  command_of language code_file args variables =
      if language ==ˢ "shell"
      then shell_command code_file args variables
      else if language ==ˢ "python"
      then pure (some ("python" ∷ code_file ∷ args ∷ variables ∷ []))
      else pure none

  unfoldable pub is_language : String → String → String → String → Action S (Option (List String))
  is_language language source args variables = do
    code_file ← create_code_temp_file source language
    command_of language code_file args variables

  -- A call whose failure ends moveTempFile.
  abbrev pub or_return : (S → Bool × S) → (S → S) → S → S
  or_return call next s = let (worked, s') = call s in if worked then next s' else s'

  abbrev pub unless_empty : String → (S → Bool × S) → (S → S) → S → S
  unless_empty text call next s = if text ==ˢ "" then next s else or_return call next s

  abbrev pub move_variables : Stat → String → String → S → Bool × S
  move_variables found dir vars s = os.rename vars (os.join dir ("scripts" ++ os.ext vars)) s
  move_variables not_exist dir vars s = os.write_file (os.join dir "scripts.vars") vars s
  move_variables stat_failed dir vars s = os.write_file (os.join dir "scripts.vars") vars s

  abbrev pub move_into : String → String → String → String → S → S
  move_into dir code_file args vars =
      unless_empty code_file (os.rename code_file (os.join dir ("scripts" ++ os.ext code_file))) (
        unless_empty args (os.write_file (os.join dir "scripts.args") args)
          (unless_empty vars (λ s. move_variables (os.stat vars s) dir vars s) (λ s. s)))

  -- A command line of fewer than four words panics.
  unfoldable pub move_temp_file : List String → ℤ → Action S (Unit {0})
  move_temp_file (program ∷ code_file ∷ args ∷ vars ∷ rest) task_id s =
      let dir = os.join temp_dir (os.show_int task_id ++ "_" ++ os.timestamp s) in
      (ok tt, or_return (os.mkdir_all dir) (move_into dir code_file args vars) s)
  move_temp_file (program ∷ code_file ∷ args ∷ []) task_id s = (panic, s)
  move_temp_file (program ∷ code_file ∷ []) task_id s = (panic, s)
  move_temp_file (program ∷ []) task_id s = (panic, s)
  move_temp_file [] task_id s = (panic, s)

  abbrev pub outcome : String × Bool → Outcome
  outcome (output, succeeded) = record {
    output = output;
    status = if succeeded then success else failed;
    has_error = not succeeded;
  }

  unfoldable pub combined : Option (List String) → ℤ → Action S Outcome
  combined none task_id s = (panic, s)
  combined (some cmd) task_id s =
      let (answer, s') = os.combined_output cmd s in
      (move_temp_file cmd task_id >>= λ _. pure (outcome answer)) s'

  unfoldable pub receive : ExecuteReceive → Action S Outcome
  receive req = do
    cmd ← is_language req.language req.code req.args req.variables
    combined cmd req.task_id
