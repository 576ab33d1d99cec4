-- ===== src/Scripts.antt =====
-- internal/grpc/scripts: the handlers of shell and Python tasks.
pub mod Leftovers
use ework_runner.Prelude.{
  ℤ, String, Params, lookup, Bool, true, false, not, ◌&&◌, Option, none, some, List, [], ◌∷◌, ◌==ˢ◌,
  if◌then◌else◌,
}
use Prim.Native.String.{◌++◌}
use ework_runner.Domain.Errors.{Error, code_missing, json_failed, file_failed, script_failed}
use ework_runner.Action.{Action, Result, ok, err, panic, pure, raise, ◌>>=◌, ◌>>◌}
use ework_runner.Files.{Os, Stat, found, not_exist, stat_failed, checked, logged}

abbrev pub temp_dir : String
temp_dir = "/app"

-- A parameter of a task; a missing one is empty.
abbrev pub or_empty : Option String → String
or_empty none = ""
or_empty (some s) = s

abbrev pub param : Params → String → String
param params key = or_empty (lookup key params)

-- `cmd_builder` has the command line that it builds.
pub record ScriptExecutor (S : Type 0) : Type 0 where
  pub language : String
  pub file_pattern : String
  pub cmd_builder : String → String → String → S → List String
  pub vars_processor : String → Action S String

module _ {S : Type 0} (os : Os S) where
  abbrev pub created : Option String × S → Result String × S
  created (none, s) = (err file_failed, s)
  created (some name, s) = (ok name, s)

  unfoldable pub create_temp_file : String → String → Action S String
  create_temp_file pattern content = do
    name ← λ s. created (os.create_temp temp_dir pattern s)
    checked (os.append_file name content)
    checked (os.chmod name)
    pure name

  abbrev pub move_existing : Stat → String → String → S → S
  move_existing not_exist src dest s = s
  move_existing found src dest s = (os.rename src dest s).1
  move_existing stat_failed src dest s = (os.rename src dest s).1

  unfoldable pub move_file : String → String → S → S
  move_file src dest_dir s =
      if src ==ˢ ""
      then s
      else move_existing (os.stat src s) src (os.join dest_dir ("scripts" ++ os.ext (os.base src)))
          s

  unfoldable pub save_file : String → String → S → S
  save_file path content s = (os.write_file path content s).1

  abbrev pub save_unless_empty : String → String → S → S
  save_unless_empty path content s = if content ==ˢ "" then s else save_file path content s

  abbrev pub move_if_found : Stat → String → String → S → S
  move_if_found found src dest_dir s = move_file src dest_dir s
  move_if_found not_exist src dest_dir s = s
  move_if_found stat_failed src dest_dir s = s

  abbrev pub move_resource : String → String → String → S → S
  move_resource raw_vars vars_resource dest_dir s =
      if not (vars_resource ==ˢ "") && not (vars_resource ==ˢ raw_vars)
      then move_if_found (os.stat vars_resource s) vars_resource dest_dir s
      else s

  abbrev pub archive_into : String → String → String → String → String → S → S
  archive_into dir code_file args raw_vars vars_resource s =
      move_resource raw_vars vars_resource dir (
        save_unless_empty (os.join dir "scripts.vars.json") raw_vars
          (save_unless_empty (os.join dir "scripts.args") args (move_file code_file dir s)))

  unfoldable pub archive : ℤ → String → String → String → String → S → S
  archive task_id code_file args raw_vars vars_resource s =
      let dir = os.join temp_dir (os.show_int task_id ++ "_" ++ os.timestamp s) in
      let (made, s') = os.mkdir_all dir s in
      if made then archive_into dir code_file args raw_vars vars_resource s' else s'

  -- The command runs, and what it was given is archived whatever comes out.
  abbrev pub execute_archived :
      ScriptExecutor S → ℤ → String → String → String → String → Action S (Unit {0})
  execute_archived e task_id code_file args vars vars_resource s =
      let ((output, succeeded), s') =
        os.combined_output (e.cmd_builder code_file args vars_resource s) s in
      (
        if succeeded then ok tt else err script_failed,
        archive task_id code_file args vars vars_resource s',
      )

  unfoldable pub run : ScriptExecutor S → ℤ → Params → Action S (Unit {0})
  run e task_id params = if param params "code" ==ˢ "" then raise code_missing else do
    code_file ← create_temp_file e.file_pattern (param params "code")
    vars_resource ← e.vars_processor (param params "variables")
    execute_archived e task_id code_file (param params "args") (param params "variables")
        vars_resource

  -- exec.LookPath("/bin/bash")
  unfoldable pub create_shell_cmd : String → String → String → S → List String
  create_shell_cmd code_file args vars_file s =
      (if os.look_path "/bin/bash" s then "/bin/bash" else "/bin/sh")
      ∷ code_file
      ∷ args
      ∷ vars_file
      ∷ []

  -- The lines KEY=VALUE
  unfoldable pub shell_variables : List (String × String) → String
  shell_variables [] = ""
  shell_variables (v ∷ vs) = v.0 ++ "=" ++ v.1 ++ "\n" ++ shell_variables vs

  abbrev pub write_variables : Option (List (String × String)) → Action S String
  write_variables none = raise json_failed
  write_variables (some variables) = create_temp_file "scripts-*.vars" (shell_variables variables)

  unfoldable pub prepare_shell_vars : String → Action S String
  prepare_shell_vars vars_json =
      if vars_json ==ˢ "" then pure "" else write_variables (os.unmarshal_variables vars_json)

  unfoldable pub shell_executor : ScriptExecutor S
  shell_executor = record {
    language = "shell";
    file_pattern = "scripts-*.sh";
    cmd_builder = create_shell_cmd;
    vars_processor = prepare_shell_vars;
  }

  unfoldable pub create_python_cmd : String → String → String → S → List String
  create_python_cmd code_file args vars_content s = "python" ∷ code_file ∷ args ∷ vars_content ∷ []

  unfoldable pub pass_through_vars : String → Action S String
  pass_through_vars vars_json = pure vars_json

  unfoldable pub python_executor : ScriptExecutor S
  python_executor = record {
    language = "python";
    file_pattern = "scripts-*.py";
    cmd_builder = create_python_cmd;
    vars_processor = pass_through_vars;
  }
