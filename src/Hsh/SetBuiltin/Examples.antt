-- ===== src/Hsh/SetBuiltin/Examples.antt =====
-- Runs of src/components/BuiltinCommands/commands/hsh/HshBuiltinSet.cpp, and the theorems about it at
-- concrete arguments.
use haisos.Common.{true, ◌≡◌, refl, List, ◌∷◌, [], Bytes, codes, bytes_eq}
use haisos.Hsh.Options.{
  default_options, shell_option_table, find_named_option, find_name, find_letter, find_shell_option,
  assign_option,
}
use haisos.Hsh.SetBuiltin.{
  SetState, builtin_set, set_loop, set_round, classify_set_argument, letters_loop, set_named,
  set_option, finished, recreation_lines, report_not_treated_option,
}
use haisos.Hsh.SetBuiltin.Recreation.{OnlySets, replay, replay-recreation}
use haisos.Hsh.SetBuiltin.Reading.{Told}
use haisos.Hsh.SetBuiltin.Positional.{builtin_set-Told}

abbrev started : SetState
started = record {
  options = default_options;
  positional = codes "one" ∷ [];
  written = [];
  reported = [];
}

abbrev arguments : List Bytes
arguments = codes "-em" ∷ codes "+o" ∷ codes "errexit" ∷ codes "-x" ∷ codes "--" ∷ codes "two" ∷ []

-- -m is not treated, the last setting of errexit counts, and what is behind "--" is positional.
arguments_set :
    builtin_set [] arguments started
    ≡ finished (record (report_not_treated_option (codes "-m") started) {
      options = record default_options { xtrace = true };
      positional = codes "two" ∷ [];
    })
unfolding builtin_set set_loop set_round classify_set_argument letters_loop set_named set_option
    find_named_option find_name find_letter find_shell_option assign_option bytes_eq
arguments_set = refl

builtin_set-Told_example : Told (codes "one" ∷ []) arguments (builtin_set [] arguments started)
builtin_set-Told_example = builtin_set-Told [] arguments started

replay-recreation_example :
    OnlySets
      (record default_options { errexit = true; nounset = true })
      started
      (replay []
        (recreation_lines
          (record default_options { errexit = true; nounset = true })
          shell_option_table)
        started)
replay-recreation_example =
    replay-recreation [] (record default_options { errexit = true; nounset = true }) started
