-- ===== src/Hsh/Invocation.antt =====
-- src/components/BuiltinCommands/commands/hsh/HshInvocation.cpp: what the command line of hsh asks for.
pub mod Accounts
mod Examples
use haisos.Common.{
  ℕ, zero, suc, ◌+◌, Bool, true, false, not, ◌&&◌, ◌||◌, Option, none, some, List, [], ◌∷◌, ◌++◌,
  ◌==◌, ltb, if◌then◌else◌, Bytes, codes, bytes_eq, length, is_empty, drop,
}
use haisos.Hsh.Bracket.{at}
use haisos.Hsh.Variables.{ShellOptions}
use haisos.Hsh.Options.{
  ShellOptionInfo, OptionField, assign_option, default_options, option_at, find_shell_option,
  find_named_option,
}

pub data Source : Type 0 where
  command_string_source script_file standard_input : Source

pub record Invocation : Type 0 where
  pub source : Source
  pub command_string : Bytes
  pub script_path : Bytes
  pub arg0 : Bytes
  pub positional : List Bytes
  pub options : ShellOptions
  pub not_treated : List Bytes
  pub error : Bytes

-- A default-constructed Invocation.
abbrev pub blank_invocation : Invocation
blank_invocation = record {
  source = standard_input;
  command_string = [];
  script_path = [];
  arg0 = codes "hsh";
  positional = [];
  options = default_options;
  not_treated = [];
  error = [];
}

-- How the loop over the options ends: with an error, or with whether -c was seen, the
-- options, and the arguments behind them. `out_of_fuel` belongs to the model alone.
pub data Scan : Type 0 where
  refused : Invocation → Scan
  scanned : Bool → Invocation → List Bytes → Scan
  out_of_fuel : Scan

-- What an argument is to the loop. `cluster` has whether its letters turn on, and the letters.
pub data Argument : Type 0 where
  operand end_of_options unknown_long : Argument
  cluster : Bool → Bytes → Argument

-- The tests at the head of the loop, in their order.
unfoldable pub classify_argument : Bytes → Argument
classify_argument arg =
    let on = at arg 0 == b'-' in
    if is_empty arg || (not (at arg 0 == b'-') && not (at arg 0 == b'+'))
    then operand
    else if bytes_eq arg (codes "--") || bytes_eq arg (codes "-")
    then end_of_options
    else if bytes_eq arg (codes "+")
    then operand
    else if on && (ltb 2 (length arg) && at arg 1 == b'-')
    then unknown_long
    else cluster on (drop 1 arg)

abbrev pub sign : Bool → Bytes
sign on = if on then codes "-" else codes "+"

-- What is done with an option that was looked up, under the spelling that messages use.
unfoldable pub treat : Bool → Bytes → Option ShellOptionInfo → Invocation → Option Invocation
treat on spelling none invocation = none
treat on spelling (some info) invocation = elim info.field [
  | none ↦ some (record invocation { not_treated = invocation.not_treated ++ (spelling ∷ []) })
  | some field ↦ some (record invocation { options = assign_option field on invocation.options })
]

abbrev pub with_error : Bytes → Invocation → Invocation
with_error message invocation = record invocation { error = message }

-- The return with an error of an option that is not in the table, or the rest of the loop.
abbrev pub treated_or : Bytes → Invocation → Option Invocation → (Invocation → Scan) → Scan
treated_or spelling before none next =
    refused (with_error (codes "Illegal option " ++ spelling) before)
treated_or spelling before (some invocation) next = next invocation

-- The letter o: the name of an option is the next argument.
unfoldable pub read_name : Bool → Invocation → List Bytes → (List Bytes → Invocation → Scan) → Scan
unfolding treat
read_name on invocation [] next = refused (with_error (codes "-o requires an argument") invocation)
read_name on invocation (name ∷ rest) next =
    let spelling = sign on ++ (codes "o " ++ name) in
    treated_or spelling invocation (treat on spelling (find_named_option name) invocation)
      (next rest)

-- The loop over the letters of an argument; |rest| are the arguments behind it.
unfoldable pub cluster_loop : Bool → Bytes → List Bytes → Bool → Invocation → Scan
unfolding treat read_name
cluster_loop on [] rest flag invocation = scanned flag invocation rest
cluster_loop on (c ∷ letters) rest flag invocation =
    if c == b'c'
    then cluster_loop on letters rest true invocation
    else if c == b'l'
    then cluster_loop on letters rest flag (record invocation {
      not_treated = invocation.not_treated ++ ((sign on ++ codes "l") ∷ []);
    })
    else if c == b'o'
    then read_name on invocation rest (λ rest'. cluster_loop on letters rest' flag)
    else (let spelling = sign on ++ (c ∷ []) in
        treated_or spelling invocation (treat on spelling (find_shell_option c) invocation)
          (cluster_loop on letters rest flag))

abbrev pub after_cluster : Scan → (Bool → Invocation → List Bytes → Scan) → Scan
after_cluster (refused invocation) next = refused invocation
after_cluster (scanned flag invocation rest) next = next flag invocation rest
after_cluster out_of_fuel next = out_of_fuel

-- A round of the loop over the arguments, at |arg|, and the rest of the loop.
unfoldable pub argument_round :
    Argument
    → Bytes
    → List Bytes
    → Bool
    → Invocation
    → (Bool → Invocation → List Bytes → Scan)
    → Scan
unfolding cluster_loop
argument_round operand arg rest flag invocation next = scanned flag invocation (arg ∷ rest)
argument_round end_of_options arg rest flag invocation next = scanned flag invocation rest
argument_round unknown_long arg rest flag invocation next =
    refused (with_error (codes "Illegal option --") invocation)
argument_round (cluster on letters) arg rest flag invocation next =
    after_cluster (cluster_loop on letters rest flag invocation) next

-- The loop. Every round that goes on takes an argument, so fuel above their number is enough.
unfoldable pub option_loop : ℕ → Bool → Invocation → List Bytes → Scan
unfolding classify_argument argument_round
option_loop zero flag invocation args = out_of_fuel
option_loop (suc f) flag invocation [] = scanned flag invocation []
option_loop (suc f) flag invocation (arg ∷ rest) =
    argument_round (classify_argument arg) arg rest flag invocation (option_loop f)

-- What follows the loop.
unfoldable pub take_operands : Bool → Invocation → List Bytes → Invocation
unfolding assign_option
take_operands true invocation [] = with_error (codes "-c requires an argument") invocation
take_operands true invocation (command ∷ []) = record invocation {
  command_string = command;
  positional = [];
  source = command_string_source;
}
take_operands true invocation (command ∷ name ∷ rest) = record invocation {
  command_string = command;
  arg0 = name;
  positional = rest;
  source = command_string_source;
}
take_operands false invocation [] = record invocation {
  source = standard_input;
  options = assign_option OptionField.stdin_input true invocation.options;
  positional = [];
}
take_operands false invocation (script ∷ rest) =
    if option_at OptionField.stdin_input invocation.options
    then record invocation {
      source = standard_input;
      options = assign_option OptionField.stdin_input true invocation.options;
      positional = script ∷ rest;
    }
    else record invocation {
      script_path = script;
      arg0 = script;
      positional = rest;
      source = script_file;
    }

-- The invocation that a loop ends with; `none` where the model runs out of fuel.
abbrev pub conclude : Scan → Option Invocation
conclude (refused invocation) = some invocation
conclude (scanned flag invocation operands) = some (take_operands flag invocation operands)
conclude out_of_fuel = none

-- ParseInvocation.
unfoldable pub parse_invocation : List Bytes → Option Invocation
unfolding option_loop
parse_invocation args = conclude (option_loop (suc (length args)) false blank_invocation args)
