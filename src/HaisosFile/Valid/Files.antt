-- ===== src/HaisosFile/Valid/Files.antt =====
-- The directives of src/haisos/HaisosFileParser.cpp on files: each has a property that what it adds to
-- the state keeps.
use haisos.Common.{
  ℕ, suc, ◌≤◌, Bool, true, false, not, ◌≡◌, refl, Option, none, some, List, [], ◌∷◌, arith, Bytes,
  codes, length, is_empty, if_cases, bytes_eq, drop, starts_with, ◌&&◌, ◌||◌,
}
use haisos.Common.Outcome.{ok, err, out_of_fuel, bind}
use haisos.HaisosFile.Text.{
  Parsed, substitute_or_fail, is_absolute_os_path, split_at, trim, past_blanks,
  strip_carriage_return, is_quote, is_blank_byte,
}
use haisos.HaisosFile.Results.{
  Holds, Holds-bind, Holds-if, Holds-guard, Holds-weaken, substitute_or_fail-Ends, tokens_of-Holds,
}
use haisos.HaisosFile.Config.{ParserState, OperationType, FileOperation, operation}
use haisos.HaisosFile.Files.{
  Advanced, with_setup, with_out_copy, quoted_path, path_and_rest, write_file, write_directive,
  builtin_paths, builtin_tokens, builtin_directive, one_path, copy_paths, out_copy_paths,
  with_absolute, path_directive, copy_directive, out_copy_directive,
}
use haisos.HaisosFile.Content.{
  Content, parse_file_content, quoted_content, plain_content, multiline_loop, closed_by,
  starts_with_blank, starts_with_byte, more,
}
use haisos.HaisosFile.Parse.{on_line}
use haisos.HaisosFile.Valid.{Places, is_out_copy}

abbrev pub Shorter : List Bytes → Content → Type 0
Shorter lines c = length c.1 ≤ length lines

multiline_loop-Shorter :
    (key marker : Bytes) (n : ℕ) (first : Bool) (content : Bytes) (m : ℕ) (lines : List Bytes)
    → Holds (Shorter lines) (closed_by key n marker (multiline_loop marker first content m lines))
unfolding multiline_loop
multiline_loop-Shorter key marker n first content m [] = tt
multiline_loop-Shorter key marker n first content m (raw ∷ lines) =
    let line = strip_carriage_return raw in
    if_cases (λ o. Holds (Shorter (raw ∷ lines)) (closed_by key n marker o))
      (bytes_eq (trim line) marker) _ _
      (λ _. let k : length lines ≤ suc (length lines) = omega arith in k)
      (λ _.
        Holds-weaken (Shorter lines) (Shorter (raw ∷ lines)) _
          (multiline_loop-Shorter key marker n false (more first content line) (suc m) lines)
          (λ c k. omega arith))

plain_content-Shorter :
    (key spec : Bytes) (n : ℕ) (lines : List Bytes)
    → Holds (Shorter lines) (plain_content key spec n lines)
unfolding plain_content
plain_content-Shorter key spec n lines =
    if_cases (Holds (Shorter lines)) (starts_with spec (codes "text:")) _ _ (λ _. same)
      (λ _.
        if_cases (Holds (Shorter lines))
          (starts_with spec (codes "multiline")
            && (is_empty (drop 9 spec) || starts_with_blank (drop 9 spec)))
          _ _
          (λ _.
            Holds-if (Shorter lines) (is_empty (trim (drop 9 spec))) _ _
              (λ _. multiline_loop-Shorter key (trim (drop 9 spec)) n true [] n lines))
          (λ _. tt))
  where
    same : length lines ≤ length lines
    same = omega arith

parse_file_content-Shorter :
    (key spec : Bytes) (n : ℕ) (lines : List Bytes)
    → Holds (Shorter lines) (parse_file_content key spec n lines)
unfolding parse_file_content
parse_file_content-Shorter key [] n lines = plain_content-Shorter key [] n lines
parse_file_content-Shorter key (c ∷ s) n lines =
    if_cases (Holds (Shorter lines)) (is_quote c) _ _ (λ _. quoted (split_at c s))
      (λ _. plain_content-Shorter key (c ∷ s) n lines)
  where
    quoted : (o : Option (Bytes × Bytes)) → Holds (Shorter lines) (quoted_content key n c lines o)
    quoted none = tt
    quoted (some (inside, behind)) =
        Holds-if (Shorter lines)
          (not (is_empty (trim behind)) && not (starts_with_byte b'#' (trim behind))) _ _
          (λ _. let k : length lines ≤ length lines = omega arith in k)

path_and_rest-Ends : (key : Bytes) (n : ℕ) (s : Bytes) → Holds (λ a. Unit) (path_and_rest key n s)
unfolding path_and_rest
path_and_rest-Ends key n [] = tt
path_and_rest-Ends key n (c ∷ s) =
    if_cases (Holds (λ a. Unit)) (is_quote c) _ _ (λ _. quoted (split_at c s)) (λ _. tt)
  where
    quoted : (o : Option (Bytes × Bytes)) → Holds (λ a. Unit) (quoted_path key n o)
    quoted none = tt
    quoted (some (path, [])) = tt
    quoted (some (path, b ∷ behind)) =
        if_cases (Holds (λ a. Unit)) (is_blank_byte b) _ _ (λ _. tt) (λ _. tt)

-- A directive leaves a state with a property, and takes lines from the front of the stream.
abbrev pub Advances : (ParserState → Type 0) → List Bytes → Advanced → Type 0
Advances P lines a = P a.0 × (length a.1 ≤ length lines)

pub on_line-Keeps :
    (P : ParserState → Type 0) (n : ℕ) (lines : List Bytes) (r : Parsed ParserState)
    → Holds P r
    → Holds (Advances P lines) (on_line n lines r)
on_line-Keeps P n lines (ok st) v = (v, omega arith)
on_line-Keeps P n lines (err message) v = tt
on_line-Keeps P n lines out_of_fuel v = v

module _ (P : ParserState → Type 0) (st : ParserState) where
  write_file-Keeps :
      (keeps : (op : FileOperation) → Places false op → P (with_setup op st)) (kind : OperationType)
      (key : Bytes) (n : ℕ) (lines : List Bytes) (path spec : Bytes)
      → is_out_copy kind ≡ false
      → Holds (Advances P lines) (write_file kind key n lines st path spec)
  write_file-Keeps keeps kind key n lines path spec k =
      Holds-guard (Advances P lines) (is_absolute_os_path path) _ _ (λ h.
        Holds-bind (Shorter lines) (Advances P lines) (parse_file_content key spec n lines) _
          (parse_file_content-Shorter key spec n lines) (λ c s. (keeps _ (h, k), s)))

  pub write_directive-Keeps :
      (keeps : (op : FileOperation) → Places false op → P (with_setup op st)) (kind : OperationType)
      (key : Bytes) (n : ℕ) (raw : Bytes) (lines : List Bytes)
      → is_out_copy kind ≡ false
      → Holds (Advances P lines) (write_directive kind key n raw lines st)
  unfolding write_directive
  write_directive-Keeps keeps kind key n raw lines k =
      let here = past_blanks (drop (length key) (past_blanks (strip_carriage_return raw))) in
      Holds-bind (λ a. Unit) (Advances P lines) (path_and_rest key n here) _
        (path_and_rest-Ends key n here)
        (λ (raw_path, behind) u.
          Holds-bind (λ a. Unit) (Advances P lines) (substitute_or_fail st.values n raw_path) _
            (substitute_or_fail-Ends st n raw_path)
            (λ path w. write_file-Keeps keeps kind key n lines path (past_blanks behind) k))

  with_absolute-Keeps :
      (key : Bytes) (n : ℕ) (add : FileOperation → ParserState → ParserState) (b : Bool)
      (op : FileOperation)
      → is_out_copy op.kind ≡ b
      → ((o : FileOperation) → Places b o → P (add o st))
      → Holds P (with_absolute key n add st op)
  with_absolute-Keeps key n add b op k keeps =
      Holds-guard P (is_absolute_os_path op.path) _ _ (λ h. keeps op (h, k))

  pub path_directive-Keeps :
      (keeps : (op : FileOperation) → Places false op → P (with_setup op st)) (kind : OperationType)
      (key : Bytes) (n : ℕ) (rest : Bytes)
      → is_out_copy kind ≡ false
      → Holds P (path_directive kind key n rest st)
  unfolding path_directive
  path_directive-Keeps keeps kind key n rest k = tokens_of-Holds P st n rest _ made
    where
      made :
          (tokens : List Bytes)
          → Holds P (bind (one_path kind key n tokens) (with_absolute key n with_setup st))
      made [] = tt
      made (path ∷ []) = with_absolute-Keeps key n with_setup false (operation kind path n) k keeps
      made (a ∷ b ∷ c) = tt

  pub copy_directive-Keeps :
      (keeps : (op : FileOperation) → Places false op → P (with_setup op st)) (key : Bytes) (n : ℕ)
      (rest : Bytes)
      → Holds P (copy_directive key n rest st)
  unfolding copy_directive
  copy_directive-Keeps keeps key n rest = tokens_of-Holds P st n rest _ made
    where
      made :
          (tokens : List Bytes)
          → Holds P (bind (copy_paths n tokens) (with_absolute key n with_setup st))
      made [] = tt
      made (a ∷ []) = tt
      made (host_path ∷ path ∷ []) = with_absolute-Keeps key n with_setup false _ refl keeps
      made (a ∷ b ∷ c ∷ d) = tt

  pub out_copy_directive-Keeps :
      (keeps : (op : FileOperation) → Places true op → P (with_out_copy op st)) (key : Bytes)
      (n : ℕ) (rest : Bytes)
      → Holds P (out_copy_directive key n rest st)
  unfolding out_copy_directive
  out_copy_directive-Keeps keeps key n rest = tokens_of-Holds P st n rest _ made
    where
      made :
          (tokens : List Bytes)
          → Holds P (bind (out_copy_paths n tokens) (with_absolute key n with_out_copy st))
      made [] = tt
      made (a ∷ []) = tt
      made (path ∷ host_path ∷ []) = with_absolute-Keeps key n with_out_copy true _ refl keeps
      made (a ∷ b ∷ c ∷ d) = tt

module _ (P : ParserState → Type 0)
    (keeps : (st : ParserState) (op : FileOperation)
      → P st
      → Places false op
      → P (with_setup op st)) where
  builtin_paths-Keeps :
      (n : ℕ) (fs_name builtin_name : Bytes) (paths : List Bytes) (st : ParserState)
      → P st
      → Holds P (builtin_paths n fs_name builtin_name paths st)
  unfolding builtin_paths
  builtin_paths-Keeps n fs_name builtin_name [] st v = v
  builtin_paths-Keeps n fs_name builtin_name (path ∷ paths) st v =
      Holds-guard P (is_absolute_os_path path) _ _
        (λ h. builtin_paths-Keeps n fs_name builtin_name paths _ (keeps st _ v (h, refl)))

  pub builtin_directive-Keeps :
      (st : ParserState) (n : ℕ) (rest : Bytes) → P st → Holds P (builtin_directive n rest st)
  unfolding builtin_directive
  builtin_directive-Keeps st n rest v = tokens_of-Holds P st n rest _ made
    where
      made : (tokens : List Bytes) → Holds P (builtin_tokens n st tokens)
      made [] = tt
      made (a ∷ []) = tt
      made (a ∷ b ∷ []) = tt
      made (a ∷ b ∷ path ∷ paths) = builtin_paths-Keeps n a b (path ∷ paths) st v
