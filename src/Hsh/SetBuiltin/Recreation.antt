-- ===== src/Hsh/SetBuiltin/Recreation.antt =====
-- The listing of `set +o`, run again: src/components/BuiltinCommands/commands/hsh/HshBuiltinSet.cpp.
use haisos.Common.{
  ℕ, Bool, true, false, ◌≡◌, refl, ap, ◌∙◌, Option, none, some, List, [], ◌∷◌, ◌++◌, ◌||◌, ◌==◌,
  Bytes, codes, bytes_eq, if◌then◌else◌, All,
}
use haisos.Common.Dict.{Dict}
use haisos.Hsh.Variables.{ShellOptions, Variable}
use haisos.Hsh.Options.{
  ShellOptionInfo, OptionField, option_at, assign_option, shell_option_table, find_named_option,
  find_name,
}
use haisos.Hsh.SetBuiltin.{
  SetState, SetOutcome, finished, failed, out_of_fuel, is_on, recreation_line, recreation_lines,
  builtin_set, set_loop, set_round, classify_set_argument, letters_loop, set_named, set_option,
  set_sign, report_not_treated_option,
}

-- The byte in front of the first word.
abbrev pub onto : ℕ → List Bytes → List Bytes
onto c [] = (c ∷ []) ∷ []
onto c (w ∷ ws) = (c ∷ w) ∷ ws

-- A line taken apart at its blanks and its end, as the shell reads one that has no quotes.
unfoldable pub words : Bytes → List Bytes
words [] = []
words (c ∷ s) = let rest = words s in if c == b' ' || c == 10 then [] ∷ rest else onto c rest

-- The arguments of a line behind the name of its command.
abbrev pub arguments : List Bytes → List Bytes
arguments [] = []
arguments (w ∷ ws) = ws

-- The lines of a listing, run one after another for as long as none of them fails.
abbrev pub and_then : SetOutcome → (SetState → SetOutcome) → SetOutcome
and_then (finished state) next = next state
and_then (failed message state) next = failed message state
and_then out_of_fuel next = out_of_fuel

unfoldable pub replay : Dict Variable → List Bytes → SetState → SetOutcome
replay variables [] state = finished state
replay variables (line ∷ lines) state =
    and_then (builtin_set variables (arguments (words line)) state) (replay variables lines)

-- The options of a shell in which what a row names is set to what it is in |from|, or every row of a
-- table.
abbrev set_one : ShellOptions → Option OptionField → ShellOptions → ShellOptions
set_one from none options = options
set_one from (some field) options = assign_option field (option_at field from) options

abbrev set_all : ShellOptions → List ShellOptionInfo → ShellOptions → ShellOptions
set_all from [] options = options
set_all from (info ∷ table) options = set_all from table (set_one from info.field options)

abbrev spelled : Bool → Bytes → Bytes
spelled on name = (if on then codes "set -o " else codes "set +o ") ++ (name ++ codes "\n")

-- What the rows of the table have to be for their lines to be read back.
abbrev Readable : ShellOptionInfo → Type 0
Readable info =
    (find_named_option info.name ≡ some info)
    × (words (spelled true info.name) ≡ codes "set" ∷ codes "-o" ∷ info.name ∷ [])
    × (words (spelled false info.name) ≡ codes "set" ∷ codes "+o" ∷ info.name ∷ [])

shell_option_table-Readable : All Readable shell_option_table
unfolding find_named_option find_name bytes_eq words
shell_option_table-Readable = (
  (refl, refl, refl),
  (
    (refl, refl, refl),
    (
      (refl, refl, refl),
      (
        (refl, refl, refl),
        (
          (refl, refl, refl),
          (
            (refl, refl, refl),
            (
              (refl, refl, refl),
              (
                (refl, refl, refl),
                (
                  (refl, refl, refl),
                  (
                    (refl, refl, refl),
                    (
                      (refl, refl, refl),
                      (
                        (refl, refl, refl),
                        (
                          (refl, refl, refl),
                          (
                            (refl, refl, refl),
                            (
                              (refl, refl, refl),
                              ((refl, refl, refl), ((refl, refl, refl), ((refl, refl, refl), tt))),
                            ),
                          ),
                        ),
                      ),
                    ),
                  ),
                ),
              ),
            ),
          ),
        ),
      ),
    ),
  ),
)

-- What a run of the builtin has done that only set options.
pub record OnlySets (options : ShellOptions) (before : SetState) (o : SetOutcome) : Type 0 where
  pub after : SetState
  pub ends : o ≡ finished after
  pub options_set : after.options ≡ options
  pub positional_kept : after.positional ≡ before.positional
  pub nothing_written : after.written ≡ before.written

-- The set of one named option with nothing behind it.
builtin_set_option :
    (variables : Dict Variable) (on : Bool) (info : ShellOptionInfo) (state : SetState)
    → find_named_option info.name ≡ some info
    → builtin_set variables ((set_sign on ++ codes "o") ∷ info.name ∷ []) state
      ≡ set_option on
          (codes "-o " ++ info.name)
          (set_sign on ++ (codes "o " ++ info.name))
          (some info)
          state
          (λ after. finished after)
unfolding builtin_set set_loop set_round classify_set_argument letters_loop set_named bytes_eq
builtin_set_option variables true info state e = rw e refl
builtin_set_option variables false info state e = rw e refl

set_option-OnlySets :
    (from : ShellOptions) (field : Option OptionField) (info : ShellOptionInfo)
    (shown reported : Bytes) (state : SetState)
    → info.field ≡ field
    → OnlySets
        (set_one from field state.options)
        state
        (set_option (is_on from field) shown reported (some info) state (λ after. finished after))
unfolding set_option
set_option-OnlySets from none info shown reported state e = record {
  after = report_not_treated_option reported state;
  ends = rw e refl;
  options_set = refl;
  positional_kept = refl;
  nothing_written = refl;
}
set_option-OnlySets from (some field) info shown reported state e = record {
  after = record state { options = assign_option field (option_at field from) state.options };
  ends = rw e refl;
  options_set = refl;
  positional_kept = refl;
  nothing_written = refl;
}

words-spelled :
    (name : Bytes)
    → words (spelled true name) ≡ codes "set" ∷ codes "-o" ∷ name ∷ []
    → words (spelled false name) ≡ codes "set" ∷ codes "+o" ∷ name ∷ []
    → (on : Bool) → words (spelled on name) ≡ codes "set" ∷ (set_sign on ++ codes "o") ∷ name ∷ []
words-spelled name h k true = h
words-spelled name h k false = k

line-OnlySets :
    (variables : Dict Variable) (from : ShellOptions) (info : ShellOptionInfo) (state : SetState)
    → Readable info
    → OnlySets
        (set_one from info.field state.options)
        state
        (builtin_set variables (arguments (words (recreation_line from info))) state)
unfolding recreation_line
line-OnlySets variables from info state (found, on, off) =
    let is = is_on from info.field in
    let name = info.name in
    rw (words-spelled name on off is, builtin_set_option variables is info state found)
      (set_option-OnlySets from info.field info (codes "-o " ++ name)
        (set_sign is ++ (codes "o " ++ name)) state refl)

-- A run with a result, and then one from there.
replay-OnlySets :
    (variables : Dict Variable) (from : ShellOptions) (table : List ShellOptionInfo)
    (state : SetState)
    → All Readable table
    → OnlySets
        (set_all from table state.options)
        state
        (replay variables (recreation_lines from table) state)
unfolding replay recreation_lines
replay-OnlySets variables from [] state r = record {
  after = state;
  ends = refl;
  options_set = refl;
  positional_kept = refl;
  nothing_written = refl;
}
replay-OnlySets variables from (info ∷ table) state (r, rs) =
    let first = line-OnlySets variables from info state r in
    let later = replay-OnlySets variables from table first.after rs in
    record {
      after = later.after;
      ends = rw (first.ends) later.ends;
      options_set = later.options_set ∙ ap (set_all from table) first.options_set;
      positional_kept = later.positional_kept ∙ first.positional_kept;
      nothing_written = later.nothing_written ∙ first.nothing_written;
    }

-- Running the lines that `set +o` writes, each taken apart at its blanks, gives every option of the
-- table the setting that it had when they were written, whatever was set in between, leaves -v as it
-- is, and changes neither the positional parameters nor the output. No line of them fails.
pub replay-recreation :
    (variables : Dict Variable) (from : ShellOptions) (state : SetState)
    → OnlySets
        (record from { verbose = state.options.verbose })
        state
        (replay variables (recreation_lines from shell_option_table) state)
unfolding assign_option option_at
replay-recreation variables from state =
    replay-OnlySets variables from shell_option_table state shell_option_table-Readable
