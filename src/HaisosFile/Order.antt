-- ===== src/HaisosFile/Order.antt =====
-- The rules of order of src/haisos/HaisosFileParser.cpp: what a RUN and a file directive fix.
use haisos.Common.{
  ℕ, suc, Bool, true, false, not, ◌≡◌, refl, sym, ◌≢◌, false≢true, List, ◌==◌, arith, Bytes,
  is_empty, length, if_cases, if◌then◌else◌, ◌&&◌,
}
use haisos.HaisosFile.Text.{trim, strip_comment, first_word}
use haisos.HaisosFile.Results.{Holds, Holds-bind, Holds-if}
use haisos.HaisosFile.Config.{ParserState, FsStep, FileOperation, OperationType}
use haisos.HaisosFile.Parse.{
  Keyword, arg, var, env, root, fs, mount, run, create, append, builtin, copy, out_copy, delete,
  create_dir, unknown, keyword_of, is_fs_directive, is_setup_directive, is_file_directive,
  check_order, directive, line_round, lines_loop,
}
use haisos.HaisosFile.Valid.Settings.{
  arg_directive-Keeps, var_directive-Keeps, env_directive-Keeps, root_directive-Keeps,
  fs_directive-Keeps, mount_directive-Keeps, run_directive-Keeps,
}
use haisos.HaisosFile.Valid.Files.{
  Advances, on_line-Keeps, write_directive-Keeps, path_directive-Keeps, copy_directive-Keeps,
  out_copy_directive-Keeps, builtin_directive-Keeps,
}
use haisos.HaisosFile.Valid.Whole.{lines_loop-Keeps}

-- Behind a RUN, the operations that set up files are fixed.
abbrev pub AfterRun : List FileOperation → ParserState → Type 0
AfterRun operations st = (st.config.setup_operations ≡ operations) × (st.first_run_line ≢ 0)

-- Behind a file directive, the filesystems, the mounts and the root are fixed.
abbrev pub AfterFiles : List FsStep → Bytes → ParserState → Type 0
AfterFiles steps root_path st =
    (st.config.fs_steps ≡ steps)
    × (st.config.root_path ≡ root_path)
    × (st.first_file_directive_line ≢ 0)

-- A RUN line stays one.
run_line-kept : (n m : ℕ) → m ≢ 0 → (if m == 0 then n else m) ≢ 0
run_line-kept n m h = ground arith

-- What the rules of order let through, and in what state.
allowed : (b : Bool) (m : ℕ) → m ≢ 0 → (b && not (m == 0)) ≡ false → b ≡ false
allowed true m h e = ground arith
allowed false m h e = refl

not_first : (b : Bool) (m : ℕ) → m ≢ 0 → (b && m == 0) ≡ true → ⊥
not_first true m h e = ground arith
not_first false m h e = false≢true e

check_order-AfterRun :
    (operations : List FileOperation) (keyword : Keyword) (key : Bytes) (n : ℕ) (st : ParserState)
    → AfterRun operations st
    → Holds
        (λ after. AfterRun operations after × (is_setup_directive keyword ≡ false))
        (check_order keyword key n st)
unfolding check_order
check_order-AfterRun operations keyword key n st v =
    let P : ParserState → Type 0 =
      λ after. AfterRun operations after × (is_setup_directive keyword ≡ false) in
    Holds-if P (is_fs_directive keyword && not (st.first_file_directive_line == 0)) _ _ (λ _.
      Holds-if P (is_setup_directive keyword && not (st.first_run_line == 0)) _ _ (λ e.
        let k = allowed (is_setup_directive keyword) st.first_run_line v.1 e in
        if_cases (Holds P) (is_file_directive keyword && st.first_file_directive_line == 0) _ _
          (λ _. (v, k)) (λ _. (v, k))))

check_order-AfterFiles :
    (steps : List FsStep) (root_path : Bytes) (keyword : Keyword) (key : Bytes) (n : ℕ)
    (st : ParserState)
    → AfterFiles steps root_path st
    → Holds
        (λ after. AfterFiles steps root_path after × (is_fs_directive keyword ≡ false))
        (check_order keyword key n st)
unfolding check_order
check_order-AfterFiles steps root_path keyword key n st v =
    let P : ParserState → Type 0 =
      λ after. AfterFiles steps root_path after × (is_fs_directive keyword ≡ false) in
    Holds-if P (is_fs_directive keyword && not (st.first_file_directive_line == 0)) _ _ (λ e.
      let k = allowed (is_fs_directive keyword) st.first_file_directive_line v.2 e in
      Holds-if P (is_setup_directive keyword && not (st.first_run_line == 0)) _ _ (λ _.
        if_cases (Holds P) (is_file_directive keyword && st.first_file_directive_line == 0) _ _
          (λ f. absurd (not_first (is_file_directive keyword) st.first_file_directive_line v.2 f))
          (λ _. (v, k))))

directive-AfterRun :
    (operations : List FileOperation) (overrides : List (Bytes × Bytes)) (keyword : Keyword)
    (key : Bytes) (n : ℕ) (rest raw : Bytes) (lines : List Bytes) (st : ParserState)
    → is_setup_directive keyword ≡ false
    → AfterRun operations st
    → Holds
        (Advances (AfterRun operations) lines)
        (directive overrides keyword key n rest raw lines st)
unfolding directive
directive-AfterRun operations overrides arg key n rest raw lines st k v =
    on_line-Keeps (AfterRun operations) n lines _
      (arg_directive-Keeps (AfterRun operations) st (λ name value. v) overrides n rest)
directive-AfterRun operations overrides var key n rest raw lines st k v =
    on_line-Keeps (AfterRun operations) n lines _
      (var_directive-Keeps (AfterRun operations) st (λ name value. v) n rest)
directive-AfterRun operations overrides env key n rest raw lines st k v =
    on_line-Keeps (AfterRun operations) n lines _
      (env_directive-Keeps (AfterRun operations) st (λ entry e. v) n rest)
directive-AfterRun operations overrides root key n rest raw lines st k v =
    on_line-Keeps (AfterRun operations) n lines _
      (root_directive-Keeps (AfterRun operations) st (λ name. v) n rest)
directive-AfterRun operations overrides fs key n rest raw lines st k v =
    on_line-Keeps (AfterRun operations) n lines _
      (fs_directive-Keeps (AfterRun operations) st (λ step e. v) n rest)
directive-AfterRun operations overrides mount key n rest raw lines st k v =
    on_line-Keeps (AfterRun operations) n lines _
      (mount_directive-Keeps (AfterRun operations) st (λ step e. v) n rest)
directive-AfterRun operations overrides run key n rest raw lines st k v =
    on_line-Keeps (AfterRun operations) n lines _ (
      run_directive-Keeps (AfterRun operations) st n
        (λ entry e. (v.0, run_line-kept n st.first_run_line v.1)) rest)
directive-AfterRun operations overrides create key n rest raw lines st k v =
    absurd (false≢true (sym k))
directive-AfterRun operations overrides append key n rest raw lines st k v =
    absurd (false≢true (sym k))
directive-AfterRun operations overrides builtin key n rest raw lines st k v =
    absurd (false≢true (sym k))
directive-AfterRun operations overrides copy key n rest raw lines st k v =
    absurd (false≢true (sym k))
directive-AfterRun operations overrides out_copy key n rest raw lines st k v =
    on_line-Keeps (AfterRun operations) n lines _
      (out_copy_directive-Keeps (AfterRun operations) st (λ op e. v) key n rest)
directive-AfterRun operations overrides delete key n rest raw lines st k v =
    absurd (false≢true (sym k))
directive-AfterRun operations overrides create_dir key n rest raw lines st k v =
    absurd (false≢true (sym k))
directive-AfterRun operations overrides unknown key n rest raw lines st k v = tt

directive-AfterFiles :
    (steps : List FsStep) (root_path : Bytes) (overrides : List (Bytes × Bytes)) (keyword : Keyword)
    (key : Bytes) (n : ℕ) (rest raw : Bytes) (lines : List Bytes) (st : ParserState)
    → is_fs_directive keyword ≡ false
    → AfterFiles steps root_path st
    → Holds
        (Advances (AfterFiles steps root_path) lines)
        (directive overrides keyword key n rest raw lines st)
unfolding directive
directive-AfterFiles steps root_path overrides arg key n rest raw lines st k v =
    on_line-Keeps (AfterFiles steps root_path) n lines _
      (arg_directive-Keeps (AfterFiles steps root_path) st (λ name value. v) overrides n rest)
directive-AfterFiles steps root_path overrides var key n rest raw lines st k v =
    on_line-Keeps (AfterFiles steps root_path) n lines _
      (var_directive-Keeps (AfterFiles steps root_path) st (λ name value. v) n rest)
directive-AfterFiles steps root_path overrides env key n rest raw lines st k v =
    on_line-Keeps (AfterFiles steps root_path) n lines _
      (env_directive-Keeps (AfterFiles steps root_path) st (λ entry e. v) n rest)
directive-AfterFiles steps root_path overrides root key n rest raw lines st k v =
    absurd (false≢true (sym k))
directive-AfterFiles steps root_path overrides fs key n rest raw lines st k v =
    absurd (false≢true (sym k))
directive-AfterFiles steps root_path overrides mount key n rest raw lines st k v =
    absurd (false≢true (sym k))
directive-AfterFiles steps root_path overrides run key n rest raw lines st k v =
    on_line-Keeps (AfterFiles steps root_path) n lines _
      (run_directive-Keeps (AfterFiles steps root_path) st n (λ entry e. v) rest)
directive-AfterFiles steps root_path overrides create key n rest raw lines st k v =
    write_directive-Keeps (AfterFiles steps root_path) st (λ op e. v) OperationType.create key n raw
      lines refl
directive-AfterFiles steps root_path overrides append key n rest raw lines st k v =
    write_directive-Keeps (AfterFiles steps root_path) st (λ op e. v) OperationType.append key n raw
      lines refl
directive-AfterFiles steps root_path overrides builtin key n rest raw lines st k v =
    on_line-Keeps (AfterFiles steps root_path) n lines _
      (builtin_directive-Keeps (AfterFiles steps root_path) (λ st op v e. v) st n rest v)
directive-AfterFiles steps root_path overrides copy key n rest raw lines st k v =
    on_line-Keeps (AfterFiles steps root_path) n lines _
      (copy_directive-Keeps (AfterFiles steps root_path) st (λ op e. v) key n rest)
directive-AfterFiles steps root_path overrides out_copy key n rest raw lines st k v =
    on_line-Keeps (AfterFiles steps root_path) n lines _
      (out_copy_directive-Keeps (AfterFiles steps root_path) st (λ op e. v) key n rest)
directive-AfterFiles steps root_path overrides delete key n rest raw lines st k v =
    on_line-Keeps (AfterFiles steps root_path) n lines _ (
      path_directive-Keeps (AfterFiles steps root_path) st (λ op e. v) OperationType.delete key n
        rest refl)
directive-AfterFiles steps root_path overrides create_dir key n rest raw lines st k v =
    on_line-Keeps (AfterFiles steps root_path) n lines _ (
      path_directive-Keeps (AfterFiles steps root_path) st (λ op e. v) OperationType.create_dir key
        n rest refl)
directive-AfterFiles steps root_path overrides unknown key n rest raw lines st k v = tt

-- A round of the loop, by what its check and its directive keep.
line_round-Keeps :
    (P : ParserState → Type 0) (excluded : Keyword → Bool) (overrides : List (Bytes × Bytes))
    (n : ℕ) (raw : Bytes) (lines : List Bytes) (st : ParserState)
    (check : (keyword : Keyword) (key : Bytes)
      → Holds (λ after. P after × (excluded keyword ≡ false)) (check_order keyword key n st))
    (goes : (keyword : Keyword) (key rest : Bytes) (after : ParserState)
      → excluded keyword ≡ false
      → P after
      → Holds (Advances P lines) (directive overrides keyword key n rest raw lines after))
    → P st
    → Holds (Advances P lines) (line_round overrides n raw lines st)
unfolding line_round
line_round-Keeps P excluded overrides n raw lines st check goes v =
    let line = trim (strip_comment raw) in
    let key = (first_word line).0 in
    let keyword = keyword_of key in
    if_cases (Holds (Advances P lines)) (is_empty line) _ _ (λ _. (v, omega arith))
      (λ _.
        Holds-bind (λ after. P after × (excluded keyword ≡ false)) (Advances P lines)
          (check_order keyword key n st) _ (check keyword key)
          (λ after (w, k). goes keyword key (trim (first_word line).1) after k w))

-- From a state in which the parser has read a RUN, whatever lines follow, the loop comes to an end, with
-- an error or with the operations that set up files before any process starts as they were then.
pub lines_loop-AfterRun :
    (operations : List FileOperation) (overrides : List (Bytes × Bytes)) (n : ℕ)
    (lines : List Bytes) (st : ParserState)
    → AfterRun operations st
    → Holds (AfterRun operations) (lines_loop (suc (length lines)) overrides n lines st)
lines_loop-AfterRun operations overrides n lines st v =
    lines_loop-Keeps (AfterRun operations) overrides
      (λ m raw more s w.
        line_round-Keeps (AfterRun operations) is_setup_directive overrides (suc m) raw more s
          (λ keyword key. check_order-AfterRun operations keyword key (suc m) s w)
          (λ keyword key rest after k x.
            directive-AfterRun operations overrides keyword key (suc m) rest raw more after k x)
          w)
      (suc (length lines)) n lines st (omega arith) v

-- From a state in which the parser has read a file directive, whatever lines follow, the loop comes to
-- an end, with an error or with the filesystems, the mounts and the root as they were then.
pub lines_loop-AfterFiles :
    (steps : List FsStep) (root_path : Bytes) (overrides : List (Bytes × Bytes)) (n : ℕ)
    (lines : List Bytes) (st : ParserState)
    → AfterFiles steps root_path st
    → Holds (AfterFiles steps root_path) (lines_loop (suc (length lines)) overrides n lines st)
lines_loop-AfterFiles steps root_path overrides n lines st v =
    lines_loop-Keeps (AfterFiles steps root_path) overrides
      (λ m raw more s w.
        line_round-Keeps (AfterFiles steps root_path) is_fs_directive overrides (suc m) raw more s
          (λ keyword key. check_order-AfterFiles steps root_path keyword key (suc m) s w)
          (λ keyword key rest after k x.
            directive-AfterFiles steps root_path overrides keyword key (suc m) rest raw more after k
              x)
          w)
      (suc (length lines)) n lines st (omega arith) v
