-- ===== src/HaisosFile/Files.antt =====
-- src/haisos/HaisosFileParser.cpp: the directives on files.
use haisos.Common.{
  ℕ, not, Option, none, some, List, [], ◌∷◌, ◌++◌, if◌then◌else◌, Bytes, codes, length, drop,
}
use haisos.Common.Outcome.{ok, err, bind}
use haisos.HaisosFile.Text.{
  Parsed, line_error, split_at, substitute_or_fail, is_absolute_os_path, past_blanks, first_word,
  is_quote, strip_carriage_return,
}
use haisos.HaisosFile.Tokens.{ends_token}
use haisos.HaisosFile.Content.{parse_file_content}
use haisos.HaisosFile.Config.{
  ParserState, OperationType, copy, out_copy, builtin, FileOperation, operation, tokens_of,
}

abbrev pub with_setup : FileOperation → ParserState → ParserState
with_setup op st = record st {
  config = record st.config { setup_operations = st.config.setup_operations ++ (op ∷ []) };
}

abbrev pub with_out_copy : FileOperation → ParserState → ParserState
with_out_copy op st = record st {
  config = record st.config { out_copy_operations = st.config.out_copy_operations ++ (op ∷ []) };
}

-- The raw path of CREATE or APPEND and what is behind it, in a line from the path on.
abbrev pub quoted_path : Bytes → ℕ → Option (Bytes × Bytes) → Parsed (Bytes × Bytes)
quoted_path key n none = err (line_error n (key ++ codes ": the quoted path is never closed"))
quoted_path key n (some (path, behind)) =
    if ends_token behind
    then ok (path, behind)
    else err (
        line_error n (
          key ++ codes ": the quoted path is followed by more of it right after its closing quote"))

unfoldable pub path_and_rest : Bytes → ℕ → Bytes → Parsed (Bytes × Bytes)
unfolding split_at first_word
path_and_rest key n [] = err (line_error n (key ++ codes " requires a file path and its content"))
path_and_rest key n (c ∷ s) =
    if is_quote c then quoted_path key n (split_at c s) else ok (first_word (c ∷ s))

-- The rest of the stream and the number of the last line read go with the state.
abbrev pub Advanced : Type 0
Advanced = ParserState × List Bytes × ℕ

abbrev pub not_absolute : Bytes → Bytes → ℕ → Bytes → Bytes
not_absolute key what n path = line_error n (
    key
    ++ (codes " requires an absolute "
        ++ (what ++ (codes " (starting with '/'), got '" ++ (path ++ codes "'")))))

-- A file to write, once its path and the text of its content are known.
abbrev pub write_file :
    OperationType → Bytes → ℕ → List Bytes → ParserState → Bytes → Bytes → Parsed Advanced
write_file kind key n lines st path spec =
    if not (is_absolute_os_path path)
    then err (not_absolute key (codes "file path") n path)
    else bind (parse_file_content key spec n lines) (λ (content, lines', n').
      ok (with_setup (record (operation kind path n) { content = content }) st, lines', n'))

-- CREATE and APPEND, from the raw line.
unfoldable pub write_directive :
    OperationType → Bytes → ℕ → Bytes → List Bytes → ParserState → Parsed Advanced
unfolding path_and_rest past_blanks strip_carriage_return
write_directive kind key n raw lines st =
    let behind_key = drop (length key) (past_blanks (strip_carriage_return raw)) in
    bind (path_and_rest key n (past_blanks behind_key)) (λ (raw_path, behind).
      bind (substitute_or_fail st.values n raw_path)
        (λ path. write_file kind key n lines st path (past_blanks behind)))

-- The paths of BUILTIN.
unfoldable pub builtin_paths : ℕ → Bytes → Bytes → List Bytes → ParserState → Parsed ParserState
builtin_paths n fs_name builtin_name [] st = ok st
builtin_paths n fs_name builtin_name (path ∷ paths) st =
    let op = record (operation builtin path n) { fs_name = fs_name; builtin_name = builtin_name } in
    let rest = builtin_paths n fs_name builtin_name paths (with_setup op st) in
    if not (is_absolute_os_path path)
    then err (
        line_error n (
          codes "BUILTIN requires absolute paths (starting with '/'), got '"
          ++ (path ++ codes "'")))
    else rest

abbrev pub builtin_tokens : ℕ → ParserState → List Bytes → Parsed ParserState
builtin_tokens n st (fs_name ∷ builtin_name ∷ path ∷ paths) =
    builtin_paths n fs_name builtin_name (path ∷ paths) st
builtin_tokens n st _ =
    err (line_error n (codes "BUILTIN requires <fs_name> <builtin_name> <absolute_path>..."))

-- BUILTIN.
unfoldable pub builtin_directive : ℕ → Bytes → ParserState → Parsed ParserState
unfolding builtin_paths
builtin_directive n rest st = bind (tokens_of st n rest) (builtin_tokens n st)

-- COPY, OUTCOPY, DELETE and CREATE_DIR: the operation that the tokens make.
abbrev pub one_path : OperationType → Bytes → ℕ → List Bytes → Parsed FileOperation
one_path kind key n (path ∷ []) = ok (operation kind path n)
one_path kind key n _ = err (line_error n (key ++ codes " requires exactly one path"))

abbrev pub copy_paths : ℕ → List Bytes → Parsed FileOperation
copy_paths n (host_path ∷ path ∷ []) = ok (record (operation copy path n) { host_path = host_path })
copy_paths n _ = err (line_error n (codes "COPY requires <host_path> <absolute_path>"))

abbrev pub out_copy_paths : ℕ → List Bytes → Parsed FileOperation
out_copy_paths n (path ∷ host_path ∷ []) =
    ok (record (operation out_copy path n) { host_path = host_path })
out_copy_paths n _ = err (line_error n (codes "OUTCOPY requires <absolute_path> <host_path>"))

abbrev pub with_absolute :
    Bytes
    → ℕ
    → (FileOperation → ParserState → ParserState)
    → ParserState
    → FileOperation
    → Parsed ParserState
with_absolute key n add st op =
    if not (is_absolute_os_path op.path)
    then err (not_absolute key (codes "path inside the OS") n op.path)
    else ok (add op st)

-- DELETE and CREATE_DIR.
unfoldable pub path_directive : OperationType → Bytes → ℕ → Bytes → ParserState → Parsed ParserState
path_directive kind key n rest st =
    bind (tokens_of st n rest)
      (λ tokens. bind (one_path kind key n tokens) (with_absolute key n with_setup st))

-- COPY.
unfoldable pub copy_directive : Bytes → ℕ → Bytes → ParserState → Parsed ParserState
copy_directive key n rest st =
    bind (tokens_of st n rest)
      (λ tokens. bind (copy_paths n tokens) (with_absolute key n with_setup st))

-- OUTCOPY.
unfoldable pub out_copy_directive : Bytes → ℕ → Bytes → ParserState → Parsed ParserState
out_copy_directive key n rest st =
    bind (tokens_of st n rest)
      (λ tokens. bind (out_copy_paths n tokens) (with_absolute key n with_out_copy st))
