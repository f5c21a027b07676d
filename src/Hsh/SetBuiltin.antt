-- ===== src/Hsh/SetBuiltin.antt =====
-- src/components/BuiltinCommands/commands/hsh/HshBuiltinSet.cpp: the builtin that lists variables, sets
-- options and sets the positional parameters.
pub mod Recreation
pub mod Reading
pub mod Positional
mod Examples
use haisos.Common.{
  ℕ, zero, suc, ◌+◌, ◌-◌, Bool, true, false, not, ◌&&◌, ◌||◌, Option, none, some, List, [], ◌∷◌,
  ◌++◌, ◌==◌, ltb, if◌then◌else◌, Bytes, codes, bytes_eq, length, is_empty, drop, replicate,
}
use haisos.Common.Dict.{Dict}
use haisos.Hsh.Bracket.{at}
use haisos.Hsh.Variables.{ShellOptions, Variable, names, get}
use haisos.Hsh.Quote.{shell_single_quote}
use haisos.Hsh.Options.{
  ShellOptionInfo, OptionField, option_at, assign_option, shell_option_table, find_shell_option,
  find_named_option,
}

-- HshVersion.
abbrev pub hsh_version : Bytes
hsh_version = codes "1.0.1"

-- What set reads and changes of a shell: its options and positional parameters, and what it has written
-- to the shell's output and error output.
pub record SetState : Type 0 where
  pub options : ShellOptions
  pub positional : List Bytes
  pub written : Bytes
  pub reported : Bytes

-- How set ends. `failed` is Shell::Fail with its message; `out_of_fuel` belongs to the model alone.
pub data SetOutcome : Type 0 where
  finished : SetState → SetOutcome
  failed : Bytes → SetState → SetOutcome
  out_of_fuel : SetOutcome

abbrev pub write_out : Bytes → SetState → SetState
write_out text state = record state { written = state.written ++ text }

-- ReportNotTreatedOption.
abbrev pub report_not_treated_option : Bytes → SetState → SetState
report_not_treated_option spelling state = record state {
  reported =
      state.reported
      ++ (codes "Parameter "
          ++ (spelling
              ++ (codes " is not treated by HaisosOS hsh v. " ++ (hsh_version ++ codes "\n"))));
}

-- info.field && options.*(info.field).
abbrev pub is_on : ShellOptions → Option OptionField → Bool
is_on options none = false
is_on options (some field) = option_at field options

-- The rows that PrintOptionSettings writes, and what it does.
unfoldable pub setting_row : ShellOptions → ShellOptionInfo → Bytes
setting_row options info =
    (info.name ++ replicate (16 - length info.name) b' ')
    ++ (if is_on options info.field then codes "on\n" else codes "off\n")

unfoldable pub setting_rows : ShellOptions → List ShellOptionInfo → Bytes
unfolding setting_row
setting_rows options [] = []
setting_rows options (info ∷ table) = setting_row options info ++ setting_rows options table

unfoldable pub print_option_settings : SetState → SetState
unfolding setting_rows
print_option_settings state =
    write_out (codes "Current option settings\n" ++ setting_rows state.options shell_option_table)
      state

-- The lines that PrintOptionRecreation writes, and what it does.
unfoldable pub recreation_line : ShellOptions → ShellOptionInfo → Bytes
recreation_line options info =
    (if is_on options info.field then codes "set -o " else codes "set +o ")
    ++ (info.name ++ codes "\n")

unfoldable pub recreation_lines : ShellOptions → List ShellOptionInfo → List Bytes
recreation_lines options [] = []
recreation_lines options (info ∷ table) =
    recreation_line options info ∷ recreation_lines options table

abbrev pub concat : List Bytes → Bytes
concat [] = []
concat (line ∷ lines) = line ++ concat lines

unfoldable pub print_option_recreation : SetState → SetState
unfolding recreation_lines recreation_line
print_option_recreation state =
    write_out (concat (recreation_lines state.options shell_option_table)) state

-- The listing of the variables that `set` alone writes.
unfoldable pub listing : List Bytes → Dict Variable → Bytes
unfolding get
listing [] variables = []
listing (name ∷ others) variables =
    let rest = listing others variables in
    elim (get name variables) [
      | none ↦ rest
      | some value ↦ (name ++ (codes "=" ++ (shell_single_quote value ++ codes "\n"))) ++ rest
    ]

-- What an argument is to the loop, by the tests at its head. `cluster` has whether its letters turn on,
-- and the letters.
pub data SetArgument : Type 0 where
  operand lone_dash double_dash : SetArgument
  cluster : Bool → Bytes → SetArgument

unfoldable pub classify_set_argument : Bytes → SetArgument
classify_set_argument arg =
    let on = at arg 0 == b'-' in
    if is_empty arg || (not (at arg 0 == b'-') && not (at arg 0 == b'+'))
    then operand
    else if on && bytes_eq arg (codes "-")
    then lone_dash
    else if on && bytes_eq arg (codes "--")
    then double_dash
    else cluster on (drop 1 arg)

abbrev pub set_sign : Bool → Bytes
set_sign on = if on then codes "-" else codes "+"

-- An option that was looked up: Fail with |spelling| behind "set: Illegal option ", or its setting or
-- its report under |reported|, and the rest of the loop.
unfoldable pub set_option :
    Bool → Bytes → Bytes → Option ShellOptionInfo → SetState → (SetState → SetOutcome) → SetOutcome
unfolding assign_option
set_option on spelling reported none state next =
    failed (codes "set: Illegal option " ++ spelling) state
set_option on spelling reported (some info) state next = elim info.field [
  | none ↦ next (report_not_treated_option reported state)
  | some field ↦ next (record state { options = assign_option field on state.options })
]

-- The letter o: the name of an option is the next argument, and without one the options are listed.
unfoldable pub set_named :
    Bool → List Bytes → SetState → (List Bytes → SetState → SetOutcome) → SetOutcome
unfolding set_option print_option_settings print_option_recreation
set_named on [] state next =
    next [] (if on then print_option_settings state else print_option_recreation state)
set_named on (name ∷ rest) state next =
    set_option on (codes "-o " ++ name) (set_sign on ++ (codes "o " ++ name))
      (find_named_option name) state (next rest)

-- The loop over the letters of an argument; |rest| are the arguments behind it, and |next| is the
-- rest of the outer loop.
unfoldable pub letters_loop :
    Bool → Bytes → List Bytes → SetState → (List Bytes → SetState → SetOutcome) → SetOutcome
unfolding set_named set_option
letters_loop on [] rest state next = next rest state
letters_loop on (c ∷ letters) rest state next =
    if c == b'o'
    then set_named on rest state (λ rest' state'. letters_loop on letters rest' state' next)
    else set_option on (set_sign on ++ (c ∷ [])) (set_sign on ++ (c ∷ [])) (find_shell_option c)
        state (λ state'. letters_loop on letters rest state' next)

-- What follows the loop.
abbrev pub assign_positional : List Bytes → SetState → SetState
assign_positional [] state = state
assign_positional (arg ∷ rest) state = record state { positional = arg ∷ rest }

-- What a lone "-" does, and "--".
abbrev pub without_tracing : SetState → SetState
without_tracing state = record state {
  options = record state.options { xtrace = false; verbose = false };
}

abbrev pub cleared_where_last : List Bytes → SetState → SetState
cleared_where_last rest state = if is_empty rest then record state { positional = [] } else state

-- A round of the loop at |arg|, with |rest| behind it.
unfoldable pub set_round :
    SetArgument → Bytes → List Bytes → SetState → (List Bytes → SetState → SetOutcome) → SetOutcome
unfolding letters_loop
set_round operand arg rest state next = finished (assign_positional (arg ∷ rest) state)
set_round lone_dash arg rest state next = finished (assign_positional rest (without_tracing state))
set_round double_dash arg rest state next =
    finished (assign_positional rest (cleared_where_last rest state))
set_round (cluster on letters) arg rest state next = letters_loop on letters rest state next

-- The loop. Every round that goes on takes an argument, so fuel above their number is enough.
unfoldable pub set_loop : ℕ → List Bytes → SetState → SetOutcome
unfolding classify_set_argument set_round
set_loop zero args state = out_of_fuel
set_loop (suc f) [] state = finished state
set_loop (suc f) (arg ∷ rest) state =
    set_round (classify_set_argument arg) arg rest state (set_loop f)

-- BuiltinSet, of the arguments behind its name.
unfoldable pub builtin_set : Dict Variable → List Bytes → SetState → SetOutcome
unfolding listing set_loop names
builtin_set variables [] state = finished (write_out (listing (names variables) variables) state)
builtin_set variables (arg ∷ rest) state = set_loop (suc (length (arg ∷ rest))) (arg ∷ rest) state
