-- ===== src/Hsh/Options.antt =====
-- src/components/BuiltinCommands/commands/hsh/HshInvocation.cpp: the table of the shell's options, which
-- the command line of hsh and the set builtin read.
use haisos.Common.{
  ℕ, Bool, false, Option, none, some, List, [], ◌∷◌, ◌==◌, if◌then◌else◌, Bytes, codes, bytes_eq,
}
use haisos.Hsh.Variables.{ShellOptions}

-- The members of ShellOptions that the table points to. `verbose` is not among them.
pub data OptionField : Type 0 where
  errexit noglob interactive noexec stdin_input xtrace noclobber allexport nounset : OptionField

-- options.*field, read and assigned.
unfoldable pub option_at : OptionField → ShellOptions → Bool
option_at errexit o = o.errexit
option_at noglob o = o.noglob
option_at interactive o = o.interactive
option_at noexec o = o.noexec
option_at stdin_input o = o.stdin_input
option_at xtrace o = o.xtrace
option_at noclobber o = o.noclobber
option_at allexport o = o.allexport
option_at nounset o = o.nounset

unfoldable pub assign_option : OptionField → Bool → ShellOptions → ShellOptions
assign_option errexit b o = record o { errexit = b }
assign_option noglob b o = record o { noglob = b }
assign_option interactive b o = record o { interactive = b }
assign_option noexec b o = record o { noexec = b }
assign_option stdin_input b o = record o { stdin_input = b }
assign_option xtrace b o = record o { xtrace = b }
assign_option noclobber b o = record o { noclobber = b }
assign_option allexport b o = record o { allexport = b }
assign_option nounset b o = record o { nounset = b }

-- A default-constructed ShellOptions.
abbrev pub default_options : ShellOptions
default_options = record {
  errexit = false;
  noglob = false;
  interactive = false;
  noexec = false;
  stdin_input = false;
  xtrace = false;
  verbose = false;
  noclobber = false;
  allexport = false;
  nounset = false;
}

-- ShellOptionInfo: `none` is the null member pointer, of an option that hsh does not act on.
pub record ShellOptionInfo : Type 0 where
  pub option_letter : ℕ
  pub name : Bytes
  pub field : Option OptionField

abbrev pub row : ℕ → Bytes → Option OptionField → ShellOptionInfo
row c s f = record { option_letter = c; name = s; field = f }

-- ShellOptionTable.
abbrev pub shell_option_table : List ShellOptionInfo
shell_option_table =
    row b'e' (codes "errexit") (some errexit)
    ∷ row b'f' (codes "noglob") (some noglob)
    ∷ row b'I' (codes "ignoreeof") none
    ∷ row b'i' (codes "interactive") (some interactive)
    ∷ row b'm' (codes "monitor") none
    ∷ row b'n' (codes "noexec") (some noexec)
    ∷ row b's' (codes "stdin") (some stdin_input)
    ∷ row b'x' (codes "xtrace") (some xtrace)
    ∷ row b'v' (codes "verbose") none
    ∷ row b'V' (codes "vi") none
    ∷ row b'E' (codes "emacs") none
    ∷ row b'C' (codes "noclobber") (some noclobber)
    ∷ row b'a' (codes "allexport") (some allexport)
    ∷ row b'b' (codes "notify") none
    ∷ row b'u' (codes "nounset") (some nounset)
    ∷ row b'p' (codes "privileged") none
    ∷ row 0 (codes "nolog") none
    ∷ row 0 (codes "debug") none
    ∷ []

-- The two loops of FindShellOption.
unfoldable pub find_letter : ℕ → List ShellOptionInfo → Option ShellOptionInfo
find_letter c [] = none
find_letter c (info ∷ table) =
    let later = find_letter c table in if info.option_letter == c then some info else later

unfoldable pub find_name : Bytes → List ShellOptionInfo → Option ShellOptionInfo
find_name s [] = none
find_name s (info ∷ table) =
    let later = find_name s table in if bytes_eq info.name s then some info else later

-- FindShellOption, of a letter and of a name, with `none` for nullptr.
unfoldable pub find_shell_option : ℕ → Option ShellOptionInfo
unfolding find_letter
find_shell_option c = find_letter c shell_option_table

unfoldable pub find_named_option : Bytes → Option ShellOptionInfo
unfolding find_name bytes_eq
find_named_option s = find_name s shell_option_table
