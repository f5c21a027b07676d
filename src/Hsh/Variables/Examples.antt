-- ===== src/Hsh/Variables/Examples.antt =====
-- Runs of src/components/BuiltinCommands/commands/hsh/HshVariables.cpp, and the theorem at concrete
-- variables.
use haisos.Common.{[], ◌∷◌, ◌≡◌, refl, true, false, codes, bytes_eq, bytes_compare}
use haisos.Common.Dict.{Dict, lookup, insert}
use haisos.Environment.{create_environment, set_variable, names_of}
use haisos.Hsh.Variables.{
  Variable, get, set, unset, make_readonly, exported_variables, import_from, import_loop,
  is_valid_shell_name, entry_at, option_letters,
}
use haisos.Hsh.Variables.Readonly.{here, next, sets, unsets, make_readonly-Steps}

abbrev imported : Dict Variable
imported =
    import_from
      (set_variable (codes "A-B") (codes "x")
        (set_variable (codes "PATH") (codes "/bin") create_environment))
      []

import_valid_names : exported_variables imported ≡ (codes "PATH", codes "/bin") ∷ []
unfolding import_from import_loop is_valid_shell_name entry_at exported_variables lookup insert
    names_of bytes_compare bytes_eq
import_valid_names = refl

options_shown :
    option_letters (record {
      errexit = true;
      noglob = true;
      interactive = false;
      noexec = false;
      stdin_input = false;
      xtrace = true;
      verbose = false;
      noclobber = true;
      allexport = true;
      nounset = true;
    })
    ≡ codes "uaCxfe"
unfolding option_letters
options_shown = refl

abbrev protected : Dict Variable
protected = make_readonly (codes "PATH") imported

make_readonly-Steps_example :
    (get (codes "PATH") (unset (codes "PATH") (set (codes "X") (codes "1") protected).0).0
      ≡ get (codes "PATH") imported)
    × ((set
          (codes "PATH")
          (codes "/")
          (unset (codes "PATH") (set (codes "X") (codes "1") protected).0).0).1
        ≡ false)
    × ((unset (codes "PATH") (unset (codes "PATH") (set (codes "X") (codes "1") protected).0).0).1
        ≡ false)
make_readonly-Steps_example = make_readonly-Steps (codes "PATH") (codes "/") imported (
    next (next here (sets protected (codes "X") (codes "1")))
      (unsets (set (codes "X") (codes "1") protected).0 (codes "PATH")))
