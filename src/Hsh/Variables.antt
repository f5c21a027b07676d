-- ===== src/Hsh/Variables.antt =====
-- src/components/BuiltinCommands/commands/hsh/HshVariables.cpp: the named variables of the shell.
pub mod Readonly
mod Examples
use haisos.Common.{
  ℕ, Bool, true, false, not, ◌&&◌, ◌||◌, Option, none, some, List, [], ◌∷◌, ◌++◌, ◌==◌,
  if◌then◌else◌, Bytes, is_empty,
}
use haisos.Common.Dict.{Dict, lookup, insert, erase}
use haisos.Environment.{Environment, get_variable, get_variable_names}
use haisos.Hsh.Bracket.{is_alpha, is_digit}

-- ShellVariables::Entry.
pub record Variable : Type 0 where
  pub value : Option Bytes
  pub exported : Bool
  pub is_readonly : Bool

-- A default-constructed Entry.
abbrev pub fresh_variable : Variable
fresh_variable = record { value = none; exported = false; is_readonly = false }

abbrev pub or_fresh : Option Variable → Variable
or_fresh none = fresh_variable
or_fresh (some entry) = entry

-- m_variables[name], which puts a fresh entry in where there is none.
unfoldable pub entry_at : Bytes → Dict Variable → Variable
entry_at name variables = or_fresh (lookup name variables)

-- IsNameStart and IsNameChar of HshWord.cpp.
abbrev pub is_name_start : ℕ → Bool
is_name_start c = is_alpha c || c == b'_'

abbrev pub is_name_char : ℕ → Bool
is_name_char c = is_name_start c || is_digit c

abbrev pub all_name_chars : Bytes → Bool
all_name_chars [] = true
all_name_chars (c ∷ name) = is_name_char c && all_name_chars name

-- IsValidShellName of HshWord.cpp.
unfoldable pub is_valid_shell_name : Bytes → Bool
is_valid_shell_name [] = false
is_valid_shell_name (c ∷ name) = is_name_start c && all_name_chars (c ∷ name)

-- ImportFrom's loop.
unfoldable pub import_loop : List Bytes → Environment → Dict Variable → Dict Variable
import_loop [] environment variables = variables
import_loop (name ∷ names) environment variables =
    if not (is_valid_shell_name name)
    then import_loop names environment variables
    else (elim (get_variable name environment) [
      | none ↦ import_loop names environment variables
      | some value ↦ import_loop names environment (
          insert name (record (entry_at name variables) { value = some value; exported = true })
            variables)
    ])

-- ImportFrom.
unfoldable pub import_from : Environment → Dict Variable → Dict Variable
import_from environment variables =
    import_loop (get_variable_names environment) environment variables

-- Get and IsSet.
unfoldable pub get : Bytes → Dict Variable → Option Bytes
get name variables = elim (lookup name variables) [ none ↦ none | some entry ↦ entry.value ]

abbrev pub has_value : Option Bytes → Bool
has_value none = false
has_value (some value) = true

unfoldable pub is_set : Bytes → Dict Variable → Bool
is_set name variables = elim (lookup name variables) [
  | none ↦ false
  | some entry ↦ has_value entry.value
]

-- Set: the variables, and its result.
unfoldable pub set : Bytes → Bytes → Dict Variable → Dict Variable × Bool
set name value variables =
    let entry = entry_at name variables in
    if entry.is_readonly
    then (insert name entry variables, false)
    else (insert name (record entry { value = some value }) variables, true)

-- Unset.
unfoldable pub unset : Bytes → Dict Variable → Dict Variable × Bool
unset name variables = elim (lookup name variables) [
  | none ↦ (variables, true)
  | some entry ↦ if entry.is_readonly then (variables, false) else (erase name variables, true)
]

-- Export and MakeReadonly.
unfoldable pub export_variable : Bytes → Dict Variable → Dict Variable
export_variable name variables =
    insert name (record (entry_at name variables) { exported = true }) variables

unfoldable pub make_readonly : Bytes → Dict Variable → Dict Variable
make_readonly name variables =
    insert name (record (entry_at name variables) { is_readonly = true }) variables

-- IsExported and IsReadonly.
unfoldable pub exports : Bytes → Dict Variable → Bool
exports name variables = elim (lookup name variables) [ none ↦ false | some entry ↦ entry.exported ]

unfoldable pub protects : Bytes → Dict Variable → Bool
protects name variables = elim (lookup name variables) [
  | none ↦ false
  | some entry ↦ entry.is_readonly
]

-- Names.
unfoldable pub names : Dict Variable → List Bytes
names [] = []
names ((name, entry) ∷ variables) = name ∷ names variables

abbrev pub with_value : Bytes → Option Bytes → List (Bytes × Bytes) → List (Bytes × Bytes)
with_value name none rest = rest
with_value name (some value) rest = (name, value) ∷ rest

-- ExportedVariables.
unfoldable pub exported_variables : Dict Variable → List (Bytes × Bytes)
exported_variables [] = []
exported_variables ((name, entry) ∷ variables) =
    let rest = exported_variables variables in
    if entry.exported then with_value name entry.value rest else rest

-- ShellOptions.
pub record ShellOptions : Type 0 where
  pub errexit : Bool
  pub noglob : Bool
  pub interactive : Bool
  pub noexec : Bool
  pub stdin_input : Bool
  pub xtrace : Bool
  pub verbose : Bool
  pub noclobber : Bool
  pub allexport : Bool
  pub nounset : Bool

abbrev pub letter : Bool → ℕ → Bytes
letter b c = if b then c ∷ [] else []

-- OptionLetters.
unfoldable pub option_letters : ShellOptions → Bytes
option_letters o =
    letter o.nounset b'u'
    ++ (letter o.allexport b'a'
        ++ (letter o.noclobber b'C'
            ++ (letter o.verbose b'v'
                ++ (letter o.xtrace b'x'
                    ++ (letter o.stdin_input b's'
                        ++ (letter o.noexec b'n'
                            ++ (letter o.interactive b'i'
                                ++ (letter o.noglob b'f' ++ letter o.errexit b'e'))))))))
