-- ===== src/Hsh/Invocation/Accounts.antt =====
-- Every argument of hsh is an option or is used once:
-- src/components/BuiltinCommands/commands/hsh/HshInvocation.cpp.
use haisos.Common.{ℕ, true, false, ◌≡◌, ◌⊎◌, List, [], ◌∷◌, Bytes, codes, is_empty, drop}
use haisos.Hsh.Invocation.{
  command_string_source, script_file, standard_input, Invocation, Scan, refused, scanned,
  out_of_fuel,
}

-- What the arguments behind the options are used as.
pub data Uses (i : Invocation) : List Bytes → Type 0 where
  command_alone :
      i.source ≡ command_string_source
      → i.positional ≡ []
      → i.arg0 ≡ codes "hsh"
      → Uses i (i.command_string ∷ [])
  command_named :
      i.source ≡ command_string_source → Uses i (i.command_string ∷ i.arg0 ∷ i.positional)
  script :
      i.source ≡ script_file
      → i.script_path ≡ i.arg0
      → i.options.stdin_input ≡ false
      → Uses i (i.script_path ∷ i.positional)
  input : i.source ≡ standard_input → i.options.stdin_input ≡ true → Uses i i.positional

-- An invocation has an error, or its operands are the arguments from some place on.
abbrev pub Accounts : List Bytes → Invocation → Type 0
Accounts args i = (is_empty i.error ≡ false) ⊎ ((i.error ≡ []) × ((n : ℕ) × Uses i (drop n args)))

-- What the loop has not changed yet.
abbrev Clean : Invocation → Type 0
Clean i = (i.error ≡ []) × (i.arg0 ≡ codes "hsh")

abbrev Good : List Bytes → Scan → Type 0
Good args (refused i) = is_empty i.error ≡ false
Good args (scanned flag i rest) = Clean i × ((n : ℕ) × (rest ≡ drop n args))
Good args out_of_fuel = ⊥
