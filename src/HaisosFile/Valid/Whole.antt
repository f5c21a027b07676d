-- ===== src/HaisosFile/Valid/Whole.antt =====
-- ParseHaisosFile of src/haisos/HaisosFileParser.cpp comes to a result, and what it accepts is valid.
use haisos.Common.{
  ℕ, zero, suc, ◌<◌, false, not, ◌≡◌, refl, List, [], ◌∷◌, ◌==◌, arith, Bytes, length, is_empty,
  if_cases, any, bytes_eq, ◌&&◌,
}
use haisos.HaisosFile.Text.{trim, first_word, strip_comment, lines_of}
use haisos.HaisosFile.Results.{Holds, Holds-bind, Holds-if}
use haisos.HaisosFile.Config.{ParserState, Config, initial_state, OperationType}
use haisos.HaisosFile.Parse.{
  Keyword, arg, var, env, root, fs, mount, run, create, append, builtin, copy, out_copy, delete,
  create_dir, unknown, keyword_of, is_fs_directive, is_setup_directive, is_file_directive,
  check_order, directive, line_round, lines_loop, check_overrides, check_runs, parse_haisos_file,
}
use haisos.HaisosFile.Valid.{
  IsValid, ValidState, with_entry-Valid, with_step-Valid, with_setup-Valid, with_out_copy-Valid,
  with_root-Valid, with_run-Valid,
}
use haisos.HaisosFile.Valid.Settings.{
  arg_directive-Keeps, var_directive-Keeps, env_directive-Keeps, root_directive-Keeps,
  fs_directive-Keeps, mount_directive-Keeps, run_directive-Keeps,
}
use haisos.HaisosFile.Valid.Files.{
  Advances, on_line-Keeps, write_directive-Keeps, path_directive-Keeps, copy_directive-Keeps,
  out_copy_directive-Keeps, builtin_directive-Keeps,
}

check_order-Valid :
    (keyword : Keyword) (key : Bytes) (n : ℕ) (st : ParserState)
    → ValidState st
    → Holds ValidState (check_order keyword key n st)
unfolding check_order
check_order-Valid keyword key n st v =
    Holds-if ValidState (is_fs_directive keyword && not (st.first_file_directive_line == 0)) _ _
      (λ _.
        Holds-if ValidState (is_setup_directive keyword && not (st.first_run_line == 0)) _ _ (λ _.
          if_cases (Holds ValidState)
            (is_file_directive keyword && st.first_file_directive_line == 0) _ _ (λ _. v) (λ _. v)))

directive-Valid :
    (overrides : List (Bytes × Bytes)) (keyword : Keyword) (key : Bytes) (n : ℕ) (rest raw : Bytes)
    (lines : List Bytes) (st : ParserState)
    → ValidState st
    → Holds (Advances ValidState lines) (directive overrides keyword key n rest raw lines st)
unfolding directive
directive-Valid overrides arg key n rest raw lines st v =
    on_line-Keeps ValidState n lines _
      (arg_directive-Keeps ValidState st (λ name value. v) overrides n rest)
directive-Valid overrides var key n rest raw lines st v =
    on_line-Keeps ValidState n lines _ (var_directive-Keeps ValidState st (λ name value. v) n rest)
directive-Valid overrides env key n rest raw lines st v =
    on_line-Keeps ValidState n lines _
      (env_directive-Keeps ValidState st (with_entry-Valid st v) n rest)
directive-Valid overrides root key n rest raw lines st v =
    on_line-Keeps ValidState n lines _
      (root_directive-Keeps ValidState st (with_root-Valid st v) n rest)
directive-Valid overrides fs key n rest raw lines st v =
    on_line-Keeps ValidState n lines _
      (fs_directive-Keeps ValidState st (with_step-Valid st v) n rest)
directive-Valid overrides mount key n rest raw lines st v =
    on_line-Keeps ValidState n lines _
      (mount_directive-Keeps ValidState st (with_step-Valid st v) n rest)
directive-Valid overrides run key n rest raw lines st v =
    on_line-Keeps ValidState n lines _
      (run_directive-Keeps ValidState st n (with_run-Valid st v n) rest)
directive-Valid overrides create key n rest raw lines st v =
    write_directive-Keeps ValidState st (with_setup-Valid st v) OperationType.create key n raw lines
      refl
directive-Valid overrides append key n rest raw lines st v =
    write_directive-Keeps ValidState st (with_setup-Valid st v) OperationType.append key n raw lines
      refl
directive-Valid overrides builtin key n rest raw lines st v =
    on_line-Keeps ValidState n lines _
      (builtin_directive-Keeps ValidState (λ st op v. with_setup-Valid st v op) st n rest v)
directive-Valid overrides copy key n rest raw lines st v =
    on_line-Keeps ValidState n lines _
      (copy_directive-Keeps ValidState st (with_setup-Valid st v) key n rest)
directive-Valid overrides out_copy key n rest raw lines st v =
    on_line-Keeps ValidState n lines _
      (out_copy_directive-Keeps ValidState st (with_out_copy-Valid st v) key n rest)
directive-Valid overrides delete key n rest raw lines st v = on_line-Keeps ValidState n lines _ (
    path_directive-Keeps ValidState st (with_setup-Valid st v) OperationType.delete key n rest refl)
directive-Valid overrides create_dir key n rest raw lines st v =
    on_line-Keeps ValidState n lines _ (
      path_directive-Keeps ValidState st (with_setup-Valid st v) OperationType.create_dir key n rest
        refl)
directive-Valid overrides unknown key n rest raw lines st v = tt

line_round-Valid :
    (overrides : List (Bytes × Bytes)) (n : ℕ) (raw : Bytes) (lines : List Bytes) (st : ParserState)
    → ValidState st
    → Holds (Advances ValidState lines) (line_round overrides n raw lines st)
unfolding line_round
line_round-Valid overrides n raw lines st v =
    let line = trim (strip_comment raw) in
    let key = (first_word line).0 in
    let keyword = keyword_of key in
    if_cases (Holds (Advances ValidState lines)) (is_empty line) _ _ (λ _. (v, omega arith))
      (λ _.
        Holds-bind ValidState (Advances ValidState lines) (check_order keyword key n st) _
          (check_order-Valid keyword key n st v)
          (λ st' v'.
            directive-Valid overrides keyword key n (trim (first_word line).1) raw lines st' v'))

-- What every round keeps, the loop keeps, and its fuel lasts.
pub lines_loop-Keeps :
    (P : ParserState → Type 0) (overrides : List (Bytes × Bytes))
    (round : (n : ℕ) (raw : Bytes) (lines : List Bytes) (st : ParserState)
      → P st
      → Holds (Advances P lines) (line_round overrides (suc n) raw lines st))
    (f n : ℕ) (lines : List Bytes) (st : ParserState)
    → length lines < f
    → P st
    → Holds P (lines_loop f overrides n lines st)
unfolding lines_loop
lines_loop-Keeps P overrides round zero n lines st h v = absurd (omega arith)
lines_loop-Keeps P overrides round (suc f) n [] st h v = v
lines_loop-Keeps P overrides round (suc f) n (raw ∷ lines) st h v =
    Holds-bind (Advances P lines) P (line_round overrides (suc n) raw lines st) _
      (round n raw lines st v)
      (λ (st', lines', n') (v', k).
        lines_loop-Keeps P overrides round f n' lines' st' (omega arith) v')

check_overrides-Valid :
    (overrides : List (Bytes × Bytes)) (st : ParserState)
    → ValidState st
    → Holds ValidState (check_overrides overrides st)
unfolding check_overrides
check_overrides-Valid [] st v = v
check_overrides-Valid ((name, value) ∷ overrides) st v =
    if_cases (Holds ValidState) (any (bytes_eq name) st.declared_args) _ _
      (λ _. check_overrides-Valid overrides st v) (λ _. tt)

initial_state-Valid : ValidState initial_state
initial_state-Valid = record { runs = tt; setup = tt; out_copies = tt; steps = tt; variables = tt }

abbrev pub Accepted : Config → Type 0
Accepted c = IsValid c × (is_empty c.run_entries ≡ false)

-- ParseHaisosFile comes to a result for any text and any overrides, and a manifest that it accepts
-- has a program to run, has absolute paths for its programs and for its files in the OS, has its
-- operations in the list of their kind, gives every filesystem the number of arguments that its type
-- takes, and gives every variable of the environment a name.
pub parse_haisos_file-Accepted :
    (content : Bytes) (overrides : List (Bytes × Bytes))
    → Holds Accepted (parse_haisos_file content overrides)
unfolding parse_haisos_file
parse_haisos_file-Accepted content overrides =
    let lines = lines_of content in
    Holds-bind ValidState Accepted (lines_loop (suc (length lines)) overrides 0 lines initial_state)
      _
      (lines_loop-Keeps ValidState overrides (λ n. line_round-Valid overrides (suc n))
        (suc (length lines)) 0 lines initial_state (omega arith) initial_state-Valid)
      (λ st v.
        Holds-bind ValidState Accepted (check_overrides overrides st) check_runs
          (check_overrides-Valid overrides st v)
          (λ st' v'. Holds-if Accepted (is_empty st'.config.run_entries) _ _ (λ e. (v', e))))
