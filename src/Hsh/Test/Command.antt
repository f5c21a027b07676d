-- ===== src/Hsh/Test/Command.antt =====
-- src/components/BuiltinCommands/commands/hsh/HshBuiltinTest.cpp: Run of TestEvaluation, and BuiltinTest. The window
-- from m_begin to m_end is the list of its operands.
use haisos.Common.{
  ℕ, suc, Bool, true, false, not, ◌&&◌, ◌||◌, Option, none, some, List, [], ◌∷◌, ◌==◌,
  if◌then◌else◌, Bytes, length, bytes_eq, codes,
}
use haisos.Common.Outcome.{Result, ok, err, out_of_fuel, bind}
use haisos.Hsh.Test.Table.{Lexed, lookup_op, is_binary, token_operand, lex, is_last}
use haisos.Hsh.Test.Primaries.{TestHost, TestError, unexpected_operator}
use haisos.Hsh.Test.Grammar.{word_at, rest_of, or_expression}

-- What a round of Run's loop does with its operands.
pub data Reduction : Type 0 where
  negated : Reduction
  evaluated : Lexed → List Bytes → Reduction

-- m_args[m_end - 1], and the operands before it.
abbrev pub last_word : Bytes → List Bytes → Bytes
last_word word [] = word
last_word word (next ∷ rest) = last_word next rest

unfoldable pub drop_last : List Bytes → List Bytes
drop_last [] = []
drop_last (word ∷ rest) = let front = drop_last rest in if is_last rest then [] else word ∷ front

abbrev pub operand_token : List Bytes → Bool
operand_token ops = length ops == 3 && is_binary (lookup_op (word_at (rest_of ops)))

abbrev pub reduction : Bytes → List Bytes → Reduction
reduction word rest =
    if operand_token (word ∷ rest)
    then evaluated token_operand (word ∷ rest)
    else if length (word ∷ rest) == 3 || length (word ∷ rest) == 4
    then (if bytes_eq word (codes "(") && bytes_eq (last_word word rest) (codes ")")
        then evaluated (lex (drop_last rest)) (drop_last rest)
        else if bytes_eq word (codes "!")
        then negated
        else evaluated (lex (word ∷ rest)) (word ∷ rest))
    else evaluated (lex (word ∷ rest)) (word ∷ rest)

-- result ^= value, of a result that is 0 or 1: `true` for 1.
abbrev pub flip_by : Bool → Bool → Bool
flip_by value result = if value then not result else result

-- The test behind the call of OrExpression: two words or more are left.
abbrev pub leftover : Bool → Bool × List Bytes → Result TestError Bool
leftover result (value, []) = ok (flip_by value result)
leftover result (value, word ∷ []) = ok (flip_by value result)
leftover result (value, word ∷ next ∷ rest) = err (unexpected_operator word)

-- What BuiltinTest reports.
pub data Report : Type 0 where
  missing_bracket : Report
  in_expression : TestError → Report

abbrev pub status : Bool → ℕ
status false = 0
status true = 1

-- The catch of BuiltinTest: a status, with what was reported.
abbrev pub caught : Result TestError Bool → Option (ℕ × Option Report)
caught (ok result) = some (status result, none)
caught (err e) = some (2, some (in_expression e))
caught out_of_fuel = none

-- Whether a word begins with ']'.
abbrev pub is_bracket : Bytes → Bool
is_bracket [] = false
is_bracket (c ∷ word) = c == b']'

module _ (host : TestHost) where
  -- The call of OrExpression for the operands, with fuel for their number.
  unfoldable pub evaluate : Bool → Lexed → List Bytes → Result TestError Bool
  evaluate result lexed ops =
      bind (or_expression host (suc (length ops)) lexed ops) (leftover result)

  -- Run, from a result on.
  unfoldable pub run_loop : Bool → List Bytes → Result TestError Bool
  run_loop result [] = ok result
  run_loop result (word ∷ rest) = elim (reduction word rest) [
    | negated ↦ run_loop false rest
    | evaluated lexed ops ↦ evaluate result lexed ops
  ]

  unfoldable pub run : List Bytes → Result TestError Bool
  run ops = run_loop true ops

  -- BuiltinTest, for args[0] and the rest of args; `none` only where the model runs out of fuel.
  unfoldable pub builtin_test : Bytes → List Bytes → Option (ℕ × Option Report)
  builtin_test command args =
      if bytes_eq command (codes "[")
      then (elim args [
        | [] ↦ some (2, some missing_bracket)
        | word ∷ rest ↦
            if is_bracket (last_word word rest)
            then caught (run (drop_last (word ∷ rest)))
            else some (2, some missing_bracket)
      ])
      else caught (run args)
