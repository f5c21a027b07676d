-- ===== src/Environment/Examples.antt =====
-- Runs of src/components/Environment/Environment.cpp, and the theorem at a concrete environment.
use haisos.Common.{[], ◌∷◌, ◌≡◌, refl, false, codes, bytes_eq, bytes_compare}
use haisos.Common.Dict.{lookup, insert}
use haisos.Environment.{
  Environment, create_environment, set_variable, add_variable, get_variable_names, emplace,
  names_of,
}
use haisos.Environment.Maps.{adds, on_variables, run, Same, store_of, step, run-Same}

abbrev two : Environment
two =
    set_variable (codes "HOME") (codes "/")
      (set_variable (codes "PATH") (codes "/bin") create_environment)

names_in_order : get_variable_names two ≡ codes "HOME" ∷ codes "PATH" ∷ []
unfolding names_of insert bytes_compare
names_in_order = refl

add_keeps : (add_variable (codes "HOME") (codes "/root") two).1 ≡ false
unfolding emplace lookup insert bytes_compare bytes_eq
add_keeps = refl

run-Same_example :
    Same
      (store_of (run (on_variables (adds (codes "HOME") (codes "/root"))) two).0)
      (step (on_variables (adds (codes "HOME") (codes "/root"))) (store_of two)).0
    × ((run (on_variables (adds (codes "HOME") (codes "/root"))) two).1
        ≡ (step (on_variables (adds (codes "HOME") (codes "/root"))) (store_of two)).1)
run-Same_example = run-Same (on_variables (adds (codes "HOME") (codes "/root"))) two
