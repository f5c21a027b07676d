-- ===== src/HaisosFile/Parse.antt =====
-- src/haisos/HaisosFileParser.cpp: ParseHaisosFile.
use haisos.Common.{
  ℕ, zero, suc, Bool, true, false, not, ◌&&◌, List, [], ◌∷◌, ◌++◌, ◌==◌, if◌then◌else◌, Bytes,
  codes, bytes_eq, is_empty, length, any,
}
use haisos.Common.Outcome.{ok, err, out_of_fuel, bind}
use haisos.HaisosFile.Text.{
  Parsed, line_error, trim, strip_comment, first_word, number_text, lines_of,
}
use haisos.HaisosFile.Config.{ParserState, Config, initial_state, OperationType}
use haisos.HaisosFile.Settings.{
  arg_directive, var_directive, env_directive, root_directive, fs_directive, mount_directive,
  run_directive,
}
use haisos.HaisosFile.Files.{
  Advanced, write_directive, builtin_directive, path_directive, copy_directive, out_copy_directive,
}

-- The keywords that the code compares a line's first word with, in the order of its tests.
pub data Keyword : Type 0 where
  arg var env root fs mount run create append builtin copy out_copy delete create_dir unknown :
      Keyword

unfoldable pub keyword_of : Bytes → Keyword
unfolding bytes_eq
keyword_of key =
    if bytes_eq key (codes "ARG")
    then arg
    else if bytes_eq key (codes "VAR")
    then var
    else if bytes_eq key (codes "ENV")
    then env
    else if bytes_eq key (codes "ROOT")
    then root
    else if bytes_eq key (codes "FS")
    then fs
    else if bytes_eq key (codes "MOUNT")
    then mount
    else if bytes_eq key (codes "RUN")
    then run
    else if bytes_eq key (codes "CREATE")
    then create
    else if bytes_eq key (codes "APPEND")
    then append
    else if bytes_eq key (codes "BUILTIN")
    then builtin
    else if bytes_eq key (codes "COPY")
    then copy
    else if bytes_eq key (codes "OUTCOPY")
    then out_copy
    else if bytes_eq key (codes "DELETE")
    then delete
    else if bytes_eq key (codes "CREATE_DIR")
    then create_dir
    else unknown

-- key == "ROOT" || key == "FS" || key == "MOUNT".
abbrev pub is_fs_directive : Keyword → Bool
is_fs_directive root = true
is_fs_directive fs = true
is_fs_directive mount = true
is_fs_directive _ = false

-- IsFileDirective, less OUTCOPY.
abbrev pub is_setup_directive : Keyword → Bool
is_setup_directive create = true
is_setup_directive append = true
is_setup_directive create_dir = true
is_setup_directive copy = true
is_setup_directive delete = true
is_setup_directive builtin = true
is_setup_directive _ = false

-- IsFileDirective.
abbrev pub is_file_directive : Keyword → Bool
is_file_directive out_copy = true
is_file_directive keyword = is_setup_directive keyword

-- The rules of order in front of the directives, and the line of the first file directive.
unfoldable pub check_order : Keyword → Bytes → ℕ → ParserState → Parsed ParserState
check_order keyword key n st =
    if is_fs_directive keyword && not (st.first_file_directive_line == 0)
    then err (
        line_error n (
          key
          ++ (codes " cannot come after the file directive on line "
              ++ (number_text st.first_file_directive_line
                  ++ codes ": the root filesystem is fixed once files are written to it"))))
    else if is_setup_directive keyword && not (st.first_run_line == 0)
    then err (
        line_error n (
          key
          ++ (codes " cannot come after the RUN on line "
              ++ (number_text st.first_run_line
                  ++ codes ": files are set up before any process starts"))))
    else if is_file_directive keyword && st.first_file_directive_line == 0
    then ok (record st { first_file_directive_line = n })
    else ok st

-- A directive that reads no more lines.
abbrev pub on_line : ℕ → List Bytes → Parsed ParserState → Parsed Advanced
on_line n lines r = bind r (λ st. ok (st, lines, n))

-- The chain of directives, at the line |raw| with |rest| behind its keyword.
unfoldable pub directive :
    List (Bytes × Bytes)
    → Keyword
    → Bytes
    → ℕ
    → Bytes
    → Bytes
    → List Bytes
    → ParserState
    → Parsed Advanced
unfolding arg_directive var_directive env_directive root_directive fs_directive mount_directive
    run_directive write_directive builtin_directive path_directive copy_directive out_copy_directive
directive overrides arg key n rest raw lines st =
    on_line n lines (arg_directive overrides n rest st)
directive overrides var key n rest raw lines st = on_line n lines (var_directive n rest st)
directive overrides env key n rest raw lines st = on_line n lines (env_directive n rest st)
directive overrides root key n rest raw lines st = on_line n lines (root_directive n rest st)
directive overrides fs key n rest raw lines st = on_line n lines (fs_directive n rest st)
directive overrides mount key n rest raw lines st = on_line n lines (mount_directive n rest st)
directive overrides run key n rest raw lines st = on_line n lines (run_directive n rest st)
directive overrides create key n rest raw lines st =
    write_directive OperationType.create key n raw lines st
directive overrides append key n rest raw lines st =
    write_directive OperationType.append key n raw lines st
directive overrides builtin key n rest raw lines st = on_line n lines (builtin_directive n rest st)
directive overrides copy key n rest raw lines st = on_line n lines (copy_directive key n rest st)
directive overrides out_copy key n rest raw lines st =
    on_line n lines (out_copy_directive key n rest st)
directive overrides delete key n rest raw lines st =
    on_line n lines (path_directive OperationType.delete key n rest st)
directive overrides create_dir key n rest raw lines st =
    on_line n lines (path_directive OperationType.create_dir key n rest st)
directive overrides unknown key n rest raw lines st =
    err (line_error n (codes "unknown directive '" ++ (key ++ codes "'")))

-- A round of the loop over the lines, at the line |raw| of number |n|.
unfoldable pub line_round :
    List (Bytes × Bytes) → ℕ → Bytes → List Bytes → ParserState → Parsed Advanced
unfolding directive check_order keyword_of
line_round overrides n raw lines st =
    let line = trim (strip_comment raw) in
    let (key, behind) = first_word line in
    let keyword = keyword_of key in
    if is_empty line
    then ok (st, lines, n)
    else bind (check_order keyword key n st)
        (directive overrides keyword key n (trim behind) raw lines)

-- The loop. Every round takes a line, so fuel above their number is enough.
unfoldable pub lines_loop :
    ℕ → List (Bytes × Bytes) → ℕ → List Bytes → ParserState → Parsed ParserState
unfolding line_round
lines_loop zero overrides n lines st = out_of_fuel
lines_loop (suc f) overrides n [] st = ok st
lines_loop (suc f) overrides n (raw ∷ lines) st =
    bind (line_round overrides (suc n) raw lines st)
      (λ (st', lines', n'). lines_loop f overrides n' lines' st')

-- What follows the loop: every override names an argument, and there is something to run.
unfoldable pub check_overrides : List (Bytes × Bytes) → ParserState → Parsed ParserState
check_overrides [] st = ok st
check_overrides ((name, value) ∷ overrides) st =
    let rest = check_overrides overrides st in
    if any (bytes_eq name) st.declared_args
    then rest
    else err (
        codes "Error: unknown argument override '"
        ++ (name ++ codes "' (no ARG with that name is declared in the haisosfile)\n"))

abbrev pub check_runs : ParserState → Parsed Config
check_runs st =
    if is_empty st.config.run_entries
    then err (codes "Error: haisosfile must have at least one RUN directive\n")
    else ok st.config

-- ParseHaisosFile. What it has built so far stands beside an error in its result, which no caller
-- reads then.
unfoldable pub parse_haisos_file : Bytes → List (Bytes × Bytes) → Parsed Config
unfolding lines_loop check_overrides lines_of
parse_haisos_file content overrides =
    let lines = lines_of content in
    bind (lines_loop (suc (length lines)) overrides 0 lines initial_state)
      (λ st. bind (check_overrides overrides st) check_runs)
