-- ===== src/HaisosFile/Valid/Settings.antt =====
-- The directives of src/haisos/HaisosFileParser.cpp on values, filesystems and processes: each has a
-- property that what it adds to the state keeps.
use haisos.Common.{
  ℕ, Bool, true, false, ◌≡◌, refl, sym, ap, ◌∙◌, Option, none, some, List, [], ◌∷◌, ◌==◌, ==_iff,
  Bytes, codes, length, is_empty, if_cases, bytes_eq,
}
use haisos.Common.Outcome.{ok, bind}
use haisos.HaisosFile.Text.{Parsed, substitute_or_fail, is_absolute_os_path, split_at, trim}
use haisos.HaisosFile.Results.{
  Holds, Holds-bind, Holds-if, Holds-guard, substitute_or_fail-Ends, tokens_of-Holds,
}
use haisos.HaisosFile.Config.{
  ParserState, RunEntry, FsStep, FilesystemDecl, declare, mount, EnvEntry,
}
use haisos.HaisosFile.Settings.{
  with_value, with_entry, with_root, with_run, with_step, arg_sides, var_sides, env_sides,
  arg_directive, var_directive, env_directive, root_directive, fs_directive, mount_directive,
  run_directive, argument_value, override_of, declare_argument, env_entry, root_named,
  expected_args, declare_filesystem, filesystem_named, mount_named, run_program, run_tokens_of,
  with_argument,
}
use haisos.HaisosFile.Valid.{Counted}

module _ (P : ParserState → Type 0) (st : ParserState) where
  argument-Keeps :
      (keeps : (name value : Bytes) → P (with_argument name value st))
      (overrides : List (Bytes × Bytes)) (n : ℕ) (name : Bytes) (default_value : Option Bytes)
      → Holds P (declare_argument overrides n st name default_value)
  argument-Keeps keeps overrides n name default_value =
      Holds-if P (is_empty name) _ _ (λ _. valued (override_of name overrides) default_value)
    where
      valued :
          (o d : Option Bytes)
          → Holds P (bind (argument_value n name o d) (λ value. ok (with_argument name value st)))
      valued (some value) d = keeps name value
      valued none (some value) = keeps name value
      valued none none = tt

  substituted-Keeps :
      (n : ℕ) (text : Bytes) (f : Bytes → Parsed ParserState)
      → ((value : Bytes) → Holds P (f value))
      → Holds P (bind (substitute_or_fail st.values n text) f)
  substituted-Keeps n text f h =
      Holds-bind (λ a. Unit) P (substitute_or_fail st.values n text) f
        (substitute_or_fail-Ends st n text) (λ value u. h value)

  pub arg_directive-Keeps :
      (keeps : (name value : Bytes) → P (with_argument name value st))
      (overrides : List (Bytes × Bytes)) (n : ℕ) (rest : Bytes)
      → Holds P (arg_directive overrides n rest st)
  unfolding arg_directive
  arg_directive-Keeps keeps overrides n rest = sides (split_at b'=' rest)
    where
      sides : (o : Option (Bytes × Bytes)) → Holds P (arg_sides overrides n rest st o)
      sides none = argument-Keeps keeps overrides n (trim rest) none
      sides (some (name, text)) =
          substituted-Keeps n text _
            (λ value. argument-Keeps keeps overrides n (trim name) (some value))

  pub var_directive-Keeps :
      (keeps : (name value : Bytes) → P (with_value name value st)) (n : ℕ) (rest : Bytes)
      → Holds P (var_directive n rest st)
  unfolding var_directive
  var_directive-Keeps keeps n rest = sides (split_at b'=' rest)
    where
      sides : (o : Option (Bytes × Bytes)) → Holds P (var_sides n st o)
      sides none = tt
      sides (some (name, text)) =
          Holds-if P (is_empty (trim name)) _ _
            (λ _. substituted-Keeps n text _ (λ value. keeps (trim name) value))

  env_entry-Keeps :
      (keeps : (entry : EnvEntry) → is_empty entry.name ≡ false → P (with_entry entry st)) (n : ℕ)
      (entry : EnvEntry)
      → Holds P (env_entry n entry st)
  env_entry-Keeps keeps n entry = Holds-if P (is_empty entry.name) _ _ (λ e. keeps entry e)

  pub env_directive-Keeps :
      (keeps : (entry : EnvEntry) → is_empty entry.name ≡ false → P (with_entry entry st)) (n : ℕ)
      (rest : Bytes)
      → Holds P (env_directive n rest st)
  unfolding env_directive
  env_directive-Keeps keeps n rest =
      Holds-if P (is_empty rest) _ _ (λ _. sides (split_at b'=' rest))
    where
      sides : (o : Option (Bytes × Bytes)) → Holds P (env_sides n rest st o)
      sides none = env_entry-Keeps keeps n _
      sides (some (name, text)) = substituted-Keeps n text _ (λ value. env_entry-Keeps keeps n _)

  pub root_directive-Keeps :
      (keeps : (name : Bytes) → P (with_root name st)) (n : ℕ) (rest : Bytes)
      → Holds P (root_directive n rest st)
  unfolding root_directive
  root_directive-Keeps keeps n rest =
      Holds-if P st.saw_root _ _
        (λ _. Holds-if P (is_empty rest) _ _ (λ _. tokens_of-Holds P st n rest _ named))
    where
      named : (tokens : List Bytes) → Holds P (root_named n st tokens)
      named [] = tt
      named ([] ∷ []) = tt
      named ((c ∷ name) ∷ []) = keeps (c ∷ name)
      named ([] ∷ t ∷ ts) = tt
      named ((c ∷ name) ∷ t ∷ ts) = tt

  declare_filesystem-Keeps :
      (keeps : (step : FsStep) → Counted step → P (with_step step st)) (n : ℕ)
      (decl : FilesystemDecl) (expected : Option ℕ)
      → expected_args decl.fs_type ≡ expected
      → Holds P (declare_filesystem n st decl expected)
  declare_filesystem-Keeps keeps n decl none e = tt
  declare_filesystem-Keeps keeps n decl (some expected) e =
      Holds-guard P (length decl.args == expected) _ _
        (λ h. keeps (declare decl) (e ∙ ap some (sym ((==_iff (length decl.args) expected).0 h))))

  pub fs_directive-Keeps :
      (keeps : (step : FsStep) → Counted step → P (with_step step st)) (n : ℕ) (rest : Bytes)
      → Holds P (fs_directive n rest st)
  unfolding fs_directive
  fs_directive-Keeps keeps n rest =
      Holds-if P (is_empty rest) _ _ (λ _. tokens_of-Holds P st n rest _ named)
    where
      named : (tokens : List Bytes) → Holds P (filesystem_named n st tokens)
      named [] = tt
      named (name ∷ []) = tt
      named (name ∷ fs_type ∷ args) =
          declare_filesystem-Keeps keeps n _ (expected_args fs_type) refl

  pub mount_directive-Keeps :
      (keeps : (step : FsStep) → Counted step → P (with_step step st)) (n : ℕ) (rest : Bytes)
      → Holds P (mount_directive n rest st)
  unfolding mount_directive
  mount_directive-Keeps keeps n rest = tokens_of-Holds P st n rest _ named
    where
      named : (tokens : List Bytes) → Holds P (mount_named n st tokens)
      named [] = tt
      named (a ∷ []) = tt
      named (a ∷ b ∷ []) = tt
      named (a ∷ b ∷ c ∷ []) = keeps (mount _) tt
      named (a ∷ b ∷ c ∷ d ∷ e) = tt

  run_program-Keeps :
      (n : ℕ)
      (keeps : (entry : RunEntry)
        → is_absolute_os_path entry.program_path ≡ true
        → P (with_run n entry st))
      (interactive : Bool) (tokens : List Bytes)
      → Holds P (run_program n interactive st tokens)
  run_program-Keeps n keeps interactive [] = tt
  run_program-Keeps n keeps interactive (program ∷ args) =
      Holds-guard P (is_absolute_os_path program) _ _ (λ h. keeps _ h)

  pub run_directive-Keeps :
      (n : ℕ)
      (keeps : (entry : RunEntry)
        → is_absolute_os_path entry.program_path ≡ true
        → P (with_run n entry st))
      (rest : Bytes)
      → Holds P (run_directive n rest st)
  unfolding run_directive run_tokens_of
  run_directive-Keeps n keeps rest =
      Holds-if P (is_empty rest) _ _ (λ _. tokens_of-Holds P st n rest _ program)
    where
      program : (tokens : List Bytes) → Holds P (run_tokens_of n st tokens)
      program [] = tt
      program (token ∷ tokens) =
          if_cases (Holds P) (bytes_eq token (codes "-i")) _ _
            (λ _. run_program-Keeps n keeps true tokens)
            (λ _. run_program-Keeps n keeps false (token ∷ tokens))
