-- ===== src/HaisosFile/Valid.antt =====
-- What a manifest that the parser of src/haisos/HaisosFileParser.cpp accepts is like.
pub mod Settings
pub mod Files
pub mod Whole
use haisos.Common.{
  ℕ, zero, suc, ◌+◌, ◌-◌, ◌≤◌, ◌<◌, Bool, true, false, not, ◌≡◌, refl, sym, ap, ◌∙◌, Option, none,
  some, List, [], ◌∷◌, ◌++◌, ◌==◌, ==_iff, arith, Bytes, codes, length, is_empty, All, All-append,
  if_cases, Bool-cases, Option-cases, inl, inr, if◌then◌else◌, any, bytes_eq,
}
use haisos.Common.Outcome.{Result, ok, err, out_of_fuel, bind}
use haisos.HaisosFile.Text.{
  Parsed, substitute_or_fail, is_absolute_os_path, split_at, trim, line_error, past_blanks,
  strip_carriage_return, is_quote, first_word, strip_comment, lines_of,
}
use haisos.HaisosFile.Results.{
  Holds, Holds-bind, Holds-if, Holds-guard, substitute_or_fail-Ends, tokens_of-Holds,
}
use haisos.HaisosFile.Config.{
  ParserState, Config, initial_state, RunEntry, OperationType, create, append, create_dir, copy,
  delete, out_copy, builtin, FileOperation, operation, FilesystemDecl, FsStep, declare, mount,
  EnvEntry, tokens_of,
}
use haisos.HaisosFile.Settings.{expected_args, with_step, with_entry, with_root, with_run}
use haisos.HaisosFile.Files.{
  Advanced, with_setup, with_out_copy, quoted_path, path_and_rest, write_file, write_directive,
  builtin_paths, builtin_tokens, builtin_directive, one_path, copy_paths, out_copy_paths,
  with_absolute, path_directive, copy_directive, out_copy_directive,
}
use haisos.HaisosFile.Content.{
  Content, parse_file_content, quoted_content, plain_content, multiline_loop, closed_by,
  multiline_content, starts_with_blank,
}

abbrev pub is_out_copy : OperationType → Bool
is_out_copy out_copy = true
is_out_copy _ = false

abbrev pub Places : Bool → FileOperation → Type 0
Places b op = (is_absolute_os_path op.path ≡ true) × (is_out_copy op.kind ≡ b)

-- A declared filesystem has the arguments that its type takes.
abbrev pub Counted : FsStep → Type 0
Counted (declare decl) = expected_args decl.fs_type ≡ some (length decl.args)
Counted (mount m) = Unit

-- Every path in the OS is absolute, the operations stand in the list of their kind, and every variable
-- has a name.
pub record IsValid (c : Config) : Type 0 where
  pub runs : All (λ r. is_absolute_os_path r.program_path ≡ true) c.run_entries
  pub setup : All (Places false) c.setup_operations
  pub out_copies : All (Places true) c.out_copy_operations
  pub steps : All Counted c.fs_steps
  pub variables : All (λ e. is_empty e.name ≡ false) c.env_entries

abbrev pub ValidState : ParserState → Type 0
ValidState st = IsValid st.config

module _ (st : ParserState) (v : ValidState st) where
  pub with_entry-Valid :
      (entry : EnvEntry) → is_empty entry.name ≡ false → ValidState (with_entry entry st)
  with_entry-Valid entry e = record {
    runs = v.runs;
    setup = v.setup;
    out_copies = v.out_copies;
    steps = v.steps;
    variables = All-append _ st.config.env_entries (entry ∷ []) v.variables (e, tt);
  }

  pub with_step-Valid : (step : FsStep) → Counted step → ValidState (with_step step st)
  with_step-Valid step e = record {
    runs = v.runs;
    setup = v.setup;
    out_copies = v.out_copies;
    steps = All-append _ st.config.fs_steps (step ∷ []) v.steps (e, tt);
    variables = v.variables;
  }

  pub with_setup-Valid : (op : FileOperation) → Places false op → ValidState (with_setup op st)
  with_setup-Valid op e = record {
    runs = v.runs;
    setup = All-append _ st.config.setup_operations (op ∷ []) v.setup (e, tt);
    out_copies = v.out_copies;
    steps = v.steps;
    variables = v.variables;
  }

  pub with_out_copy-Valid : (op : FileOperation) → Places true op → ValidState (with_out_copy op st)
  with_out_copy-Valid op e = record {
    runs = v.runs;
    setup = v.setup;
    out_copies = All-append _ st.config.out_copy_operations (op ∷ []) v.out_copies (e, tt);
    steps = v.steps;
    variables = v.variables;
  }

  pub with_root-Valid : (path : Bytes) → ValidState (with_root path st)
  with_root-Valid path = record {
    runs = v.runs;
    setup = v.setup;
    out_copies = v.out_copies;
    steps = v.steps;
    variables = v.variables;
  }

  pub with_run-Valid :
      (n : ℕ) (entry : RunEntry)
      → is_absolute_os_path entry.program_path ≡ true
      → ValidState (with_run n entry st)
  with_run-Valid n entry e = record {
    runs = All-append _ st.config.run_entries (entry ∷ []) v.runs (e, tt);
    setup = v.setup;
    out_copies = v.out_copies;
    steps = v.steps;
    variables = v.variables;
  }
