-- ===== src/HaisosFile/Examples.antt =====
-- Runs of src/haisos/HaisosFileParser.cpp, and the theorems about it at concrete manifests.
use haisos.Common.{
  arith, suc, true, ◌≡◌, refl, [], ◌∷◌, codes, some, List, Bytes, bytes_eq, map, All, starts_with,
  length,
}
use haisos.Common.Dict.{lookup, insert}
use haisos.Common.Outcome.{ok, err}
use haisos.Hsh.Arithmetic.Numerals.{digits_of}
use haisos.HaisosFile.Text.{
  strip_comment, strip_loop, holds_byte, substitute, substitute_loop, trim, trim_start, trim_end,
  split_at, past_blanks, first_word, strip_carriage_return, is_absolute_os_path, line_error,
  substitute_or_fail, lines_of,
}
use haisos.HaisosFile.Tokens.{split_tokens, tokens_loop}
use haisos.HaisosFile.Content.{multiline_loop, plain_content, parse_file_content}
use haisos.HaisosFile.Content.Multiline.{joined, multiline_loop-joined}
use haisos.HaisosFile.Config.{
  ParserState, initial_state, declare, operation, OperationType, tokens_of,
}
use haisos.HaisosFile.Settings.{
  arg_directive, override_of, fs_directive, expected_args, run_directive, run_tokens_of,
}
use haisos.HaisosFile.Files.{write_directive, path_and_rest}
use haisos.HaisosFile.Parse.{
  parse_haisos_file, lines_loop, line_round, directive, check_order, keyword_of, check_overrides,
}
use haisos.HaisosFile.Results.{Holds}
use haisos.HaisosFile.Valid.Whole.{Accepted, parse_haisos_file-Accepted}
use haisos.HaisosFile.Spelling.{Spelled, plain, quoted, token_of, spelled_line, Fits, read-spelled}
use haisos.HaisosFile.Order.{AfterRun, AfterFiles, lines_loop-AfterRun, lines_loop-AfterFiles}

tokens_split :
    split_tokens 3 (codes "docs PHYSICAL \"/c/My Documents\"  it's")
    ≡ ok (codes "docs" ∷ codes "PHYSICAL" ∷ codes "/c/My Documents" ∷ codes "it's" ∷ [])
unfolding split_tokens tokens_loop holds_byte
tokens_split = refl

comment_stripped :
    strip_comment (codes "FS x MEM \"# no\" a#b # an empty one") ≡ codes "FS x MEM \"# no\" a#b "
unfolding strip_comment strip_loop holds_byte
comment_stripped = refl

substituted :
    substitute ((codes "a", codes "1") ∷ []) (codes "x${a}y$ ${b} ${c")
    ≡ (codes "x1y$  ${c", codes "Unknown variable reference: ${b}\n")
unfolding substitute substitute_loop holds_byte lookup bytes_eq
substituted = refl

abbrev manifest : Bytes
manifest =
    codes
      "ARG n=x # a name\nFS r MEM\nCREATE /${n} multiline E\n# a\nb\n E\nRUN -i /${n}.md 'a b'\n"

abbrev overrides : List (Bytes × Bytes)
overrides = (codes "n", codes "y") ∷ []

manifest_read :
    parse_haisos_file manifest overrides
    ≡ ok (record {
      root_path = [];
      fs_steps = declare (record { name = codes "r"; fs_type = codes "MEM"; args = [] }) ∷ [];
      run_entries =
          record { program_path = codes "/y.md"; args = codes "a b" ∷ []; interactive = true } ∷ [];
      env_entries = [];
      setup_operations =
          record (operation OperationType.create (codes "/y") 3) { content = codes "# a\nb" } ∷ [];
      out_copy_operations = [];
    })
unfolding parse_haisos_file lines_of lines_loop line_round directive check_order keyword_of
    check_overrides arg_directive override_of fs_directive expected_args run_directive run_tokens_of
    write_directive path_and_rest tokens_of substitute_or_fail substitute substitute_loop
    split_tokens tokens_loop holds_byte split_at trim trim_start trim_end strip_comment strip_loop
    first_word past_blanks strip_carriage_return is_absolute_os_path parse_file_content
    plain_content multiline_loop starts_with bytes_eq lookup insert
manifest_read = refl

-- The path is taken from inside the keyword.
behind_carriage_return :
    parse_haisos_file (13 ∷ codes "CREATE /a 'x'\nRUN /b") []
    ≡ err (
        codes "Error: line 1: CREATE requires an absolute file path (starting with '/'), got 'E'\n")
unfolding parse_haisos_file lines_of lines_loop line_round directive check_order keyword_of
    check_overrides arg_directive override_of fs_directive expected_args run_directive run_tokens_of
    write_directive path_and_rest tokens_of substitute_or_fail substitute substitute_loop
    split_tokens tokens_loop holds_byte split_at trim trim_start trim_end strip_comment strip_loop
    first_word past_blanks strip_carriage_return is_absolute_os_path parse_file_content
    plain_content multiline_loop starts_with bytes_eq lookup insert line_error digits_of
behind_carriage_return = refl

parse_haisos_file-Accepted_example : Holds Accepted (parse_haisos_file manifest overrides)
parse_haisos_file-Accepted_example = parse_haisos_file-Accepted manifest overrides

abbrev spelled : List Spelled
spelled = plain b'd' (codes "ocs") ∷ quoted 34 (codes "/c/My #1's") ∷ quoted 39 [] ∷ []

spelled-Fits : All Fits spelled
unfolding holds_byte
spelled-Fits =
    ((refl, refl, (refl, (refl, (refl, (refl, tt))))), ((refl, refl), ((refl, refl), tt)))

read-spelled_example :
    (strip_comment (spelled_line spelled) ≡ spelled_line spelled)
    × (split_tokens 7 (spelled_line spelled) ≡ ok (map token_of spelled))
read-spelled_example = read-spelled 7 spelled spelled-Fits

multiline_loop-joined_example :
    multiline_loop
      (codes "E")
      true
      []
      3
      (codes "# a" ∷ codes "b" ∷ codes " E" ∷ codes "RUN /a" ∷ [])
    ≡ some (joined (codes "# a" ∷ codes "b" ∷ []), codes "RUN /a" ∷ [], 6)
unfolding trim trim_start trim_end strip_carriage_return bytes_eq
multiline_loop-joined_example =
    multiline_loop-joined (codes "E") (codes " E") refl (codes "RUN /a" ∷ []) 3
      (codes "# a" ∷ codes "b" ∷ []) ((refl, refl), ((refl, refl), tt))

abbrev later : List Bytes
later = codes "OUTCOPY /b b" ∷ codes "DELETE /c" ∷ []

abbrev running : ParserState
running = record initial_state { first_run_line = 4; first_file_directive_line = 3 }

ran : AfterRun [] running
ran = (refl, λ e. omega (arith, e))

placed : AfterFiles [] [] running
placed = (refl, refl, λ e. omega (arith, e))

lines_loop-AfterRun_example :
    Holds (AfterRun []) (lines_loop (suc (length later)) [] 4 later running)
lines_loop-AfterRun_example = lines_loop-AfterRun [] [] 4 later running ran

lines_loop-AfterFiles_example :
    Holds (AfterFiles [] []) (lines_loop (suc (length later)) [] 4 later running)
lines_loop-AfterFiles_example = lines_loop-AfterFiles [] [] [] 4 later running placed
