-- ===== src/Files.antt =====
-- The operating system that scripts are run on, for internal/grpc/scripts and internal/execute.
use ework_runner.Prelude.{ℤ, if◌then◌else◌, String, Bool, ◌≡◌, Option, some, List}
use ework_runner.Domain.Errors.{file_failed}
use ework_runner.Action.{Action, ok, err}

pub data Stat : Type 0 where
  found not_exist stat_failed : Stat

-- Calls of packages os, os/exec and path/filepath, and json.Unmarshal of a list of variables, on a state `S` of
-- the machine. A call answers false, or `none`, when it fails.
pub record Os (S : Type 0) : Type 0 where
  pub create_temp : String → String → S → Option String × S  -- os.CreateTemp
  pub append_file : String → String → S → Bool × S  -- (*os.File).Write
  pub write_file : String → String → S → Bool × S  -- os.WriteFile
  pub close_file : String → S → Bool × S
  pub chmod : String → S → Bool × S
  pub stat : String → S → Stat
  pub mkdir_all : String → S → Bool × S
  pub rename : String → String → S → Bool × S
  pub look_path : String → S → Bool
  pub combined_output : List String → S → (String × Bool) × S  -- of a command line
  pub base : String → String
  pub ext : String → String
  pub join : String → String → String
  pub timestamp : S → String  -- time.Now().Format("20060102150405")
  pub show_int : ℤ → String  -- "%d"
  pub unmarshal_variables : String → Option (List (String × String))

-- What the system documents: a new temporary file is there, and writing to a file, closing it or
-- changing its mode removes no file, nor does making another temporary file.
pub record KeepsFiles {S : Type 0} (os : Os S) : Type 0 where
  pub create_law :
      (dir pattern name : String) (s : S)
      → (os.create_temp dir pattern s).0 ≡ some name
      → os.stat name (os.create_temp dir pattern s).1 ≡ found
  pub create_keeps :
      (dir pattern name : String) (s : S)
      → os.stat name s ≡ found
      → os.stat name (os.create_temp dir pattern s).1 ≡ found
  pub append_keeps :
      (path content name : String) (s : S)
      → os.stat name s ≡ found
      → os.stat name (os.append_file path content s).1 ≡ found
  pub close_keeps :
      (path name : String) (s : S)
      → os.stat name s ≡ found
      → os.stat name (os.close_file path s).1 ≡ found
  pub chmod_keeps :
      (path name : String) (s : S)
      → os.stat name s ≡ found
      → os.stat name (os.chmod path s).1 ≡ found

-- A call whose failure is the file error.
abbrev pub checked : {S : Type 0} → (S → Bool × S) → Action S (Unit {0})
checked call s = let (worked, s') = call s in (if worked then ok tt else err file_failed, s')

-- A call whose failure is only logged.
abbrev pub logged : {S : Type 0} → (S → Bool × S) → Action S (Unit {0})
logged call s = (ok tt, (call s).1)
