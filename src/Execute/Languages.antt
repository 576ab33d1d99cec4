-- ===== src/Execute/Languages.antt =====
-- Scripts in a language that the service does not know.
use ework_runner.Prelude.{
  String, false, ◌≡◌, refl, arith, Option-cases, ◌⊎◌, inl, inr, Option, none, some, ◌==ˢ◌,
}
use ework_runner.Action.{ok, panic}
use ework_runner.Files.{Os}
use ework_runner.Execute.{
  temp_dir, file_name, ExecuteReceive, created, create_code_temp_file, is_language, combined,
  receive,
}

module _ {S : Type 0} (os : Os S) where
  created-none : (file : Option String × S) → file.0 ≡ none → created os file ≡ (panic, file.1)
  created-none (none, s) h = refl
  created-none (some name, s) h = cc

  created-some :
      (file : Option String × S) (name : String)
      → file.0 ≡ some name
      → created os file ≡ (ok name, file.1)
  created-some (none, s) name h = cc
  created-some (some name', s) name h = ground (arith, h)

  create_code_temp_file_cases :
      (source language : String) (s : S)
      → ((name : String) × ((create_code_temp_file os source language s).0 ≡ ok name))
        ⊎ ((create_code_temp_file os source language s).0 ≡ panic)
  unfolding create_code_temp_file
  create_code_temp_file_cases source language s =
      let file = os.create_temp temp_dir (file_name os language) s in
      elim (Option-cases file.0) [
        | inl e ↦ inr (simp (created-none file e))
        | inr (name, e) ↦ inl (name, simp (created-some file name e))
      ]

  -- Whatever the state of the machine, a script in a language other than shell and Python panics.
  pub receive-panic :
      (req : ExecuteReceive) (s : S)
      → (req.language ==ˢ "shell") ≡ false
      → (req.language ==ˢ "python") ≡ false
      → (receive os req s).0 ≡ panic
  unfolding receive is_language combined
  receive-panic req s not_shell not_python =
      elim (create_code_temp_file_cases req.code req.language s) [
        | inl (name, e) ↦ simp (e, not_shell, not_python)
        | inr e ↦ simp e
      ]
