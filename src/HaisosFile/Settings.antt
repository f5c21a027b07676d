-- ===== src/HaisosFile/Settings.antt =====
-- src/haisos/HaisosFileParser.cpp: the directives on values, filesystems and processes.
use haisos.Common.{
  ℕ, Bool, true, false, not, ◌||◌, Option, none, some, List, [], ◌∷◌, ◌++◌, ◌==◌, if◌then◌else◌,
  Bytes, codes, bytes_eq, is_empty, length,
}
use haisos.Common.Dict.{insert}
use haisos.Common.Outcome.{ok, err, bind}
use haisos.HaisosFile.Text.{
  Parsed, line_error, split_at, trim, substitute_or_fail, is_absolute_os_path, number_text,
}
use haisos.HaisosFile.Config.{
  ParserState, RunEntry, FilesystemDecl, FsStep, declare, mount, EnvEntry, tokens_of,
}

-- The first override of a name.
unfoldable pub override_of : Bytes → List (Bytes × Bytes) → Option Bytes
override_of name [] = none
override_of name ((key, value) ∷ overrides) =
    let later = override_of name overrides in if bytes_eq key name then some value else later

-- The value of an argument: its override's, or else its default.
abbrev pub argument_value : ℕ → Bytes → Option Bytes → Option Bytes → Parsed Bytes
argument_value n name (some value) default_value = ok value
argument_value n name none (some value) = ok value
argument_value n name none none = err (
    line_error n (
      codes "ARG '"
      ++ (name
          ++ (codes "' has no default value and was not provided (pass `-- "
              ++ (name ++ codes "=value`)")))))

abbrev pub with_value : Bytes → Bytes → ParserState → ParserState
with_value name value st = record st { values = insert name value st.values }

abbrev pub with_argument : Bytes → Bytes → ParserState → ParserState
with_argument name value st = record st {
  values = insert name value st.values;
  declared_args = name ∷ st.declared_args;
}

abbrev pub declare_argument :
    List (Bytes × Bytes) → ℕ → ParserState → Bytes → Option Bytes → Parsed ParserState
declare_argument overrides n st name default_value =
    if is_empty name
    then err (line_error n (codes "ARG requires a name"))
    else bind (argument_value n name (override_of name overrides) default_value)
        (λ value. ok (with_argument name value st))

-- The sides of the '=' of ARG, VAR and ENV, if there is one.
abbrev pub arg_sides :
    List (Bytes × Bytes) → ℕ → Bytes → ParserState → Option (Bytes × Bytes) → Parsed ParserState
arg_sides overrides n rest st none = declare_argument overrides n st (trim rest) none
arg_sides overrides n rest st (some (name, text)) =
    bind (substitute_or_fail st.values n text)
      (λ value. declare_argument overrides n st (trim name) (some value))

-- ARG.
unfoldable pub arg_directive : List (Bytes × Bytes) → ℕ → Bytes → ParserState → Parsed ParserState
unfolding override_of
arg_directive overrides n rest st = arg_sides overrides n rest st (split_at b'=' rest)

abbrev pub var_sides : ℕ → ParserState → Option (Bytes × Bytes) → Parsed ParserState
var_sides n st none = err (line_error n (codes "VAR requires name=value"))
var_sides n st (some (name, text)) =
    if is_empty (trim name)
    then err (line_error n (codes "VAR requires a name"))
    else bind (substitute_or_fail st.values n text) (λ value. ok (with_value (trim name) value st))

-- VAR.
unfoldable pub var_directive : ℕ → Bytes → ParserState → Parsed ParserState
var_directive n rest st = var_sides n st (split_at b'=' rest)

abbrev pub with_entry : EnvEntry → ParserState → ParserState
with_entry entry st = record st {
  config = record st.config { env_entries = st.config.env_entries ++ (entry ∷ []) };
}

abbrev pub with_root : Bytes → ParserState → ParserState
with_root path st = record st { saw_root = true; config = record st.config { root_path = path } }

abbrev pub with_run : ℕ → RunEntry → ParserState → ParserState
with_run n entry st = record st {
  first_run_line = if st.first_run_line == 0 then n else st.first_run_line;
  config = record st.config { run_entries = st.config.run_entries ++ (entry ∷ []) };
}

abbrev pub env_entry : ℕ → EnvEntry → ParserState → Parsed ParserState
env_entry n entry st =
    if is_empty entry.name
    then err (line_error n (codes "ENV requires a name"))
    else ok (with_entry entry st)

abbrev pub env_sides : ℕ → Bytes → ParserState → Option (Bytes × Bytes) → Parsed ParserState
env_sides n rest st none =
    env_entry n (record { name = trim rest; value = []; import_from_host = true }) st
env_sides n rest st (some (name, text)) =
    bind (substitute_or_fail st.values n text) (λ value.
      env_entry n (record { name = trim name; value = value; import_from_host = false }) st)

-- ENV.
unfoldable pub env_directive : ℕ → Bytes → ParserState → Parsed ParserState
env_directive n rest st =
    if is_empty rest
    then err (line_error n (codes "ENV requires a name"))
    else env_sides n rest st (split_at b'=' rest)

abbrev pub root_named : ℕ → ParserState → List Bytes → Parsed ParserState
root_named n st ((c ∷ name) ∷ []) = ok (with_root (c ∷ name) st)
root_named n st _ = err (
    line_error n
      (codes "ROOT takes one filesystem name, or one directory (quote a path holding spaces)"))

-- ROOT.
unfoldable pub root_directive : ℕ → Bytes → ParserState → Parsed ParserState
root_directive n rest st =
    if st.saw_root
    then err (line_error n (codes "only one ROOT directive is allowed"))
    else if is_empty rest
    then err (line_error n (codes "ROOT requires a directory"))
    else bind (tokens_of st n rest) (root_named n st)

-- expectedArgs of a type of filesystem; `none` for a type there is not.
unfoldable pub expected_args : Bytes → Option ℕ
unfolding bytes_eq
expected_args fs_type =
    if bytes_eq fs_type (codes "PHYSICAL") || bytes_eq fs_type (codes "RO")
    then some 1
    else if bytes_eq fs_type (codes "MEM") || bytes_eq fs_type (codes "DEV")
    then some 0
    else if bytes_eq fs_type (codes "SUB")
    then some 2
    else if bytes_eq fs_type (codes "COMPOSED")
    then some 3
    else none

abbrev pub with_step : FsStep → ParserState → ParserState
with_step step st = record st {
  config = record st.config { fs_steps = st.config.fs_steps ++ (step ∷ []) };
}

abbrev pub declare_filesystem : ℕ → ParserState → FilesystemDecl → Option ℕ → Parsed ParserState
declare_filesystem n st decl none = err (
    line_error n (
      codes "unknown FS type '"
      ++ (decl.fs_type ++ codes "' (expected PHYSICAL, RO, MEM, DEV, SUB, or COMPOSED)")))
declare_filesystem n st decl (some expected) =
    if not (length decl.args == expected)
    then err (
        line_error n (
          codes "FS "
          ++ (decl.fs_type
              ++ (codes " expects "
                  ++ (number_text expected
                      ++ (codes " argument(s), got " ++ number_text (length decl.args)))))))
    else ok (with_step (declare decl) st)

abbrev pub filesystem_named : ℕ → ParserState → List Bytes → Parsed ParserState
filesystem_named n st (name ∷ fs_type ∷ args) =
    declare_filesystem n st (record { name = name; fs_type = fs_type; args = args })
      (expected_args fs_type)
filesystem_named n st _ = err (line_error n (codes "FS requires a name and a filesystem type"))

-- FS.
unfoldable pub fs_directive : ℕ → Bytes → ParserState → Parsed ParserState
fs_directive n rest st =
    if is_empty rest
    then err (line_error n (codes "FS requires a name and a filesystem type"))
    else bind (tokens_of st n rest) (filesystem_named n st)

abbrev pub mount_named : ℕ → ParserState → List Bytes → Parsed ParserState
mount_named n st (main_fs ∷ path ∷ to_be_mounted_fs ∷ []) = ok (
    with_step
      (mount (record { main_fs = main_fs; path = path; to_be_mounted_fs = to_be_mounted_fs })) st)
mount_named n st _ = err (line_error n (codes "MOUNT requires <main_fs> <path> <fs_to_mount>"))

-- MOUNT.
unfoldable pub mount_directive : ℕ → Bytes → ParserState → Parsed ParserState
mount_directive n rest st = bind (tokens_of st n rest) (mount_named n st)

abbrev pub run_program : ℕ → Bool → ParserState → List Bytes → Parsed ParserState
run_program n interactive st [] = err (line_error n (codes "RUN requires a program path"))
run_program n interactive st (program ∷ args) =
    if not (is_absolute_os_path program)
    then err (
        line_error n (
          codes "RUN requires an absolute program path (starting with '/'), got '"
          ++ (program ++ codes "'")))
    else ok
        (with_run n (record { program_path = program; args = args; interactive = interactive }) st)

-- The tokens of RUN, behind the option in front of the program.
unfoldable pub run_tokens_of : ℕ → ParserState → List Bytes → Parsed ParserState
unfolding is_absolute_os_path bytes_eq
run_tokens_of n st [] = run_program n false st []
run_tokens_of n st (token ∷ tokens) =
    if bytes_eq token (codes "-i")
    then run_program n true st tokens
    else run_program n false st (token ∷ tokens)

-- RUN.
unfoldable pub run_directive : ℕ → Bytes → ParserState → Parsed ParserState
unfolding run_tokens_of
run_directive n rest st =
    if is_empty rest
    then err (line_error n (codes "RUN requires a program path"))
    else bind (tokens_of st n rest) (run_tokens_of n st)
