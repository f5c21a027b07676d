-- ===== src/Hsh/Arithmetic/Examples.antt =====
-- Runs of src/components/BuiltinCommands/commands/hsh/HshArithmetic.cpp over the variables of the shell, and the
-- theorems at concrete expressions.
use haisos.Common.{
  List, ◌∷◌, some, true, false, ◌≡◌, ◌⊎◌, ◌+◌, ◌<◌, refl, [], codes, length, bytes_eq, arith,
}
use haisos.Common.Dict.{Dict, lookup, insert}
use haisos.Hsh.Variables
use haisos.Hsh.Variables.{Variable, entry_at}
use haisos.Hsh.Number.{ℤ, pos, negsuc}
use haisos.Hsh.Arithmetic.Word.{add, sub, neg, mul, div, modulo}
use haisos.Hsh.Arithmetic.Token.{
  Token, tokenize, token_round, operator_round, one_byte_token, two_byte_token, take_name,
  tokenize_loop,
}
use haisos.Hsh.Arithmetic.Numerals.{to_string, strtoimax, read_magnitude, digits_of, read_digits}
use haisos.Hsh.Arithmetic.Operators.{
  ArithmeticError, division_by_zero, ok, err, ArithmeticVariables, Value, unary_at, operator_at,
  apply_binary, assign_at, is_token, mapped,
}
use haisos.Hsh.Arithmetic.Parser.{
  State, parse_assign, evaluate_arithmetic, variable_value, stored, run_tokens, parse_conditional,
  parse_logical_or, logical, parse_bit_or, chain, parse_unary, parse_primary, chain_loop,
  logical_loop,
}
use haisos.Hsh.Arithmetic.Wrapping.{Wraps, above, below, additive-Wraps, Divides, div-Divides}
use haisos.Hsh.Arithmetic.Decimal.{variable_value-stored}
use haisos.Hsh.Arithmetic.Good.{IsSyntax}
use haisos.Hsh.Arithmetic.Total.{parse_assign-unevaluated, evaluate_arithmetic-total}

abbrev of_shell : ArithmeticVariables (Dict Variable)
of_shell = record { get = Variables.get; set = Variables.set }

precedence : evaluate_arithmetic of_shell (codes "1 + 2 * 3") [] ≡ ok (pos 7, [])
unfolding evaluate_arithmetic run_tokens parse_assign parse_conditional parse_logical_or logical
    parse_bit_or chain parse_unary unary_at tokenize token_round strtoimax read_magnitude
    parse_primary chain_loop operator_at operator_round apply_binary assign_at is_token mapped
    logical_loop variable_value digits_of one_byte_token read_digits take_name to_string
    tokenize_loop two_byte_token add mul
precedence = refl

additive-Wraps_example :
    Wraps
      (add (pos 9223372036854775807) (pos 1))
      (above (pos 9223372036854775807) + above (pos 1))
      (below (pos 9223372036854775807) + below (pos 1))
    × Wraps
        (sub (pos 9223372036854775807) (pos 1))
        (above (pos 9223372036854775807) + below (pos 1))
        (below (pos 9223372036854775807) + above (pos 1))
    × Wraps
        (neg (pos 9223372036854775807))
        (below (pos 9223372036854775807))
        (above (pos 9223372036854775807))
additive-Wraps_example =
    additive-Wraps (pos 9223372036854775807) (pos 1) (omega arith) (omega arith)

div-Divides_example :
    Divides (negsuc 6) (pos 2) (div (negsuc 6) (pos 2)) (modulo (negsuc 6) (pos 2))
div-Divides_example = div-Divides (negsuc 6) (pos 2) (omega arith) (omega arith) (λ e. cc) refl

assigns :
    evaluate_arithmetic of_shell (codes "0 ? 1/0 : (x = 7) - 1") []
    ≡ ok (pos 6, (Variables.set (codes "x") (codes "7") []).0)
unfolding evaluate_arithmetic run_tokens parse_assign parse_conditional parse_logical_or logical
    parse_bit_or chain parse_unary unary_at tokenize token_round strtoimax read_magnitude
    parse_primary chain_loop operator_at operator_round apply_binary assign_at is_token mapped
    logical_loop variable_value digits_of one_byte_token read_digits take_name to_string
    tokenize_loop two_byte_token add mul div modulo sub Variables.set insert entry_at lookup
    bytes_eq
assigns = refl

no_division : evaluate_arithmetic of_shell (codes "1 && 5 % 0") [] ≡ err division_by_zero
unfolding evaluate_arithmetic run_tokens parse_assign parse_conditional parse_logical_or logical
    parse_bit_or chain parse_unary unary_at tokenize token_round strtoimax read_magnitude
    parse_primary chain_loop operator_at operator_round apply_binary assign_at is_token mapped
    logical_loop variable_value digits_of one_byte_token read_digits take_name to_string
    tokenize_loop two_byte_token add mul div modulo sub
no_division = refl

-- The tokens of "x = 1/0", of which the division is never made.
abbrev divides : List Token
divides =
    Token.name (codes "x")
    ∷ Token.assign
    ∷ Token.number (pos 1)
    ∷ Token.divide
    ∷ Token.number (pos 0)
    ∷ Token.end
    ∷ []

divides_read : tokenize (codes "x = 1/0") ≡ some divides
unfolding tokenize token_round strtoimax read_magnitude operator_round one_byte_token read_digits
    take_name tokenize_loop two_byte_token
divides_read = refl

abbrev skipped : State (Dict Variable)
skipped = record { tokens = divides; store = [] }

parse_assign-unevaluated_example :
    ((v : Value) × (st' : State (Dict Variable)) × (parse_assign of_shell 7 false skipped
        ≡ ok (v, st'))
      × (length st'.tokens < length skipped.tokens)
      × (st'.store ≡ skipped.store))
    ⊎ ((e : ArithmeticError) × IsSyntax e × (parse_assign of_shell 7 false skipped ≡ err e))
parse_assign-unevaluated_example = parse_assign-unevaluated of_shell 7 skipped (omega arith)

evaluate_arithmetic-total_example :
    ((v : ℤ) × (store' : Dict Variable) × (evaluate_arithmetic of_shell (codes "1 +") []
        ≡ ok (v, store')))
    ⊎ ((e : ArithmeticError) × (evaluate_arithmetic of_shell (codes "1 +") [] ≡ err e))
evaluate_arithmetic-total_example = evaluate_arithmetic-total of_shell (codes "1 +") []

abbrev before : State (Dict Variable)
before = record { tokens = []; store = [] }

variable_value-stored_example :
    (r : Value) × (st' : State (Dict Variable)) × (stored of_shell (codes "x") (negsuc 41) before
      ≡ ok (r, st'))
    × (variable_value of_shell true (codes "x") st'.store ≡ ok (negsuc 41))
    × (r.value ≡ negsuc 41)
unfolding lookup insert entry_at to_string digits_of Variables.set Variables.get bytes_eq
variable_value-stored_example =
    variable_value-stored of_shell (codes "x") (negsuc 41) before (omega arith) refl refl
