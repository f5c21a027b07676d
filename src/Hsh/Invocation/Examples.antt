-- ===== src/Hsh/Invocation/Examples.antt =====
-- Runs of src/components/BuiltinCommands/commands/hsh/HshInvocation.cpp, and the theorem about it at a
-- concrete command line.
use haisos.Common.{◌≡◌, refl, some, List, ◌∷◌, [], Bytes, codes, bytes_eq}
use haisos.Hsh.Options.{find_letter, find_shell_option, assign_option}
use haisos.Hsh.Invocation.{
  Invocation, blank_invocation, parse_invocation, option_loop, argument_round, classify_argument,
  cluster_loop, treat, take_operands, command_string_source, with_error,
}
use haisos.Hsh.Invocation.Accounts.{Accounts}

abbrev line : List Bytes
line = codes "-xc" ∷ codes "+x" ∷ codes "-l" ∷ codes "echo $1" ∷ codes "me" ∷ codes "one" ∷ []

line_parsed :
    parse_invocation line
    ≡ some (record blank_invocation {
      source = command_string_source;
      command_string = codes "echo $1";
      arg0 = codes "me";
      positional = codes "one" ∷ [];
      not_treated = codes "-l" ∷ [];
    })
unfolding parse_invocation option_loop argument_round classify_argument cluster_loop treat
    take_operands find_shell_option find_letter assign_option bytes_eq
line_parsed = refl

refused_line :
    parse_invocation (codes "-y" ∷ [])
    ≡ some (with_error (codes "Illegal option -y") blank_invocation)
unfolding parse_invocation option_loop argument_round classify_argument cluster_loop treat
    find_shell_option find_letter bytes_eq
refused_line = refl
