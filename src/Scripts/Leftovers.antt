-- ===== src/Scripts/Leftovers.antt =====
-- The files that a run leaves behind.
use ework_runner.Prelude.{
  ℤ, String, Params, false, ◌≡◌, refl, Option, none, some, ◌==ˢ◌, arith, Option-cases, Bool-cases,
  inl, inr,
}
use ework_runner.Domain.Errors.{json_failed, file_failed}
use ework_runner.Action.{ok, err}
use ework_runner.Files.{Os, KeepsFiles, found}
use ework_runner.Scripts.{
  temp_dir, param, created, create_temp_file, run, prepare_shell_vars, shell_executor,
}

module _ {S : Type 0} (os : Os S) where
  created-none :
      (file : Option String × S) → file.0 ≡ none → created os file ≡ (err file_failed, file.1)
  created-none (none, s) h = refl
  created-none (some name, s) h = cc

  created-some :
      (file : Option String × S) (name : String)
      → file.0 ≡ some name
      → created os file ≡ (ok name, file.1)
  created-some (none, s) name h = cc
  created-some (some name', s) name h = ground (arith, h)

  -- A temporary file that was made is there.
  create_temp_file-found :
      (pattern content name : String) (s : S)
      → KeepsFiles os
      → (create_temp_file os pattern content s).0 ≡ ok name
      → os.stat name (create_temp_file os pattern content s).1 ≡ found
  unfolding create_temp_file
  create_temp_file-found pattern content name s laws h = elim (Option-cases file.0) [
    | inl e ↦ absurd (refused e)
    | inr (name', e) ↦ written name' e
  ]
    where
      file : Option String × S
      file = os.create_temp temp_dir pattern s

      refused : file.0 ≡ none → ⊥
      refused e = let h' = simp (created-none file e) at h in cc h'

      written :
          (name' : String)
          → file.0 ≡ some name'
          → os.stat name (create_temp_file os pattern content s).1 ≡ found
      written name' e =
          let wrote = os.append_file name' content file.1 in
          let start = laws.create_law temp_dir pattern name' s e in
          let there = laws.append_keeps name' content name' file.1 start in
          let last = laws.chmod_keeps name' name' wrote.1 there in
          elim (Bool-cases wrote.0) [
            | inl w ↦ elim (Bool-cases (os.chmod name' wrote.1).0) [
              | inl c ↦
                  let h' = simp (created-some file name' e, w, c) at h in
                  let same : name' ≡ name = cc h' in
                  simp (created-some file name' e, w, c) (rw (← same) last)
              | inr c ↦ absurd (cc (simp (created-some file name' e, w, c) at h))
            ]
            | inr w ↦ absurd (cc (simp (created-some file name' e, w) at h))
          ]

  -- A shell script with variables that are no JSON list fails, and its code stays behind as an
  -- executable file in the temporary directory: it is neither run nor archived nor removed.
  pub run-json_failed :
      (task_id : ℤ) (params : Params) (name : String) (s : S)
      → KeepsFiles os
      → (param params "code" ==ˢ "") ≡ false
      → (param params "variables" ==ˢ "") ≡ false
      → os.unmarshal_variables (param params "variables") ≡ none
      → (create_temp_file os "scripts-*.sh" (param params "code") s).0 ≡ ok name
      → ((run os (shell_executor os) task_id params s).0 ≡ err json_failed)
        × (os.stat name (run os (shell_executor os) task_id params s).1 ≡ found)
  unfolding run prepare_shell_vars shell_executor
  run-json_failed task_id params name s laws has_code has_vars malformed made =
      simp (has_code, has_vars, malformed, made)
        (refl, create_temp_file-found "scripts-*.sh" (param params "code") name s laws made)
