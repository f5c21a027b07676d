-- ===== src/Hsh/Test/Examples.antt =====
-- Runs of src/components/BuiltinCommands/commands/hsh/HshBuiltinTest.cpp in a process without files, and the
-- theorems at concrete operands.
use haisos.Common.{
  true, not, ◌≡◌, refl, [], ◌∷◌, none, some, codes, bytes_eq, bytes_eq_iff, false≢true,
}
use haisos.Common.Outcome.{ok, bind}
use haisos.Hsh.Number.{atomax10, skip_blanks, digits_loop, signed, int_max}
use haisos.Hsh.Test.Table.{binary, string_equal, lookup_op, entry, lex, is_token, is_operand}
use haisos.Hsh.Test.Primaries.{TestHost, illegal_number, binary_test, unary_test}
use haisos.Hsh.Test.Grammar.{
  or_expression, or_loop, and_expression, and_loop, not_expression, not_loop, primary,
}
use haisos.Hsh.Test.Command.{in_expression, evaluate, run_loop, run, builtin_test, drop_last}
use haisos.Hsh.Test.Total.{HasStatus, builtin_test-HasStatus}
use haisos.Hsh.Test.Posix.{run-three, run-negated}

abbrev no_files : TestHost
no_files = record { stat = λ path. none; resolve_path = λ path. path; terminal = λ fd. none }

joined :
    builtin_test no_files (codes "[") (
      codes "x"
      ∷ codes "-a"
      ∷ codes "("
      ∷ codes "-z"
      ∷ codes "y"
      ∷ codes "-o"
      ∷ codes "!"
      ∷ codes ""
      ∷ codes ")"
      ∷ codes "]"
      ∷ [])
    ≡ some (0, none)
unfolding builtin_test run run_loop evaluate or_expression or_loop and_expression and_loop
    not_expression not_loop primary lex is_token lookup_op bytes_eq drop_last unary_test is_operand
joined = refl

not_a_number :
    builtin_test no_files (codes "test") (codes "1" ∷ codes "-lt" ∷ codes "x" ∷ [])
    ≡ some (2, some (in_expression (illegal_number (codes "x"))))
unfolding builtin_test run run_loop evaluate or_expression or_loop and_expression and_loop
    not_expression not_loop primary lex is_token lookup_op bytes_eq binary_test atomax10 skip_blanks
    digits_loop signed int_max
not_a_number = refl

-- The second "!" is lost, so the two do not cancel out.
twice_negated : run no_files (codes "!" ∷ codes "!" ∷ codes "-n" ∷ codes "x" ∷ []) ≡ ok true
unfolding run run_loop evaluate or_expression or_loop and_expression and_loop not_expression
    not_loop primary lex is_token lookup_op bytes_eq unary_test is_operand
twice_negated = refl

builtin_test-HasStatus_example :
    HasStatus
      (builtin_test no_files (codes "[") (codes "!" ∷ codes "(" ∷ codes "x" ∷ codes "]" ∷ []))
builtin_test-HasStatus_example =
    builtin_test-HasStatus no_files (codes "[") (codes "!" ∷ codes "(" ∷ codes "x" ∷ codes "]" ∷ [])

run-three_example :
    run no_files (codes "!" ∷ codes "=" ∷ codes "(" ∷ [])
    ≡ bind (binary_test no_files string_equal (codes "!") (codes "(")) (λ value. ok (not value))
unfolding lookup_op bytes_eq
run-three_example =
    run-three no_files (codes "!") (codes "=") (codes "(") (entry (codes "=") string_equal binary)
      refl refl

run-negated_example :
    run no_files (codes "!" ∷ codes "a" ∷ codes "=" ∷ codes "b" ∷ [])
    ≡ bind (run no_files (codes "a" ∷ codes "=" ∷ codes "b" ∷ [])) (λ result. ok (not result))
unfolding bytes_eq
run-negated_example =
    run-negated no_files (codes "a") (codes "=") (codes "b")
      (λ e. false≢true ((bytes_eq_iff (codes "a") (codes "!")).1 e))
