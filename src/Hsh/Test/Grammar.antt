-- ===== src/Hsh/Test/Grammar.antt =====
-- src/components/BuiltinCommands/commands/hsh/HshBuiltinTest.cpp: the expressions of TestEvaluation, and the command.
-- m_pos is the operands from it on, and m_currentOp comes with the token that Lex returned last.
use haisos.Common.{
  ℕ, suc, zero, Bool, true, false, not, ◌&&◌, ◌||◌, Option, none, some, List, [], ◌∷◌,
  if◌then◌else◌, Bytes, length, is_empty,
}
use haisos.Common.Outcome.{Result, ok, err, out_of_fuel, bind}
use haisos.Hsh.Test.Table.{
  end, not_sign, and, or, open_paren, close_paren, TestOp, Lexed, is_unary, is_binary, is_token,
  lex,
}
use haisos.Hsh.Test.Primaries.{
  TestHost, TestError, argument_expected, closing_paren_expected, unary_test, binary_test,
}

abbrev pub rest_of : List Bytes → List Bytes
rest_of [] = []
rest_of (word ∷ rest) = rest

-- m_args[m_pos]; it is asked for where there is a word.
abbrev pub word_at : List Bytes → Bytes
word_at [] = []
word_at (word ∷ rest) = word

-- A value, with the operands from m_pos on.
abbrev pub Grammar : Type 0
Grammar = Lexed → List Bytes → Result TestError (Bool × List Bytes)

-- Primary behind an opening parenthesis that is not closed at once.
abbrev pub close : Bool × List Bytes → Result TestError (Bool × List Bytes)
close (value, ops) =
    if is_token close_paren ((lex (rest_of ops)).token)
    then ok (value, rest_of ops)
    else err closing_paren_expected

module _ (host : TestHost) where
  -- Primary's call of UnaryTest.
  abbrev pub unary_expression : TestOp → List Bytes → Result TestError (Bool × List Bytes)
  unary_expression op [] = err (argument_expected op.text)
  unary_expression op (word ∷ rest) =
      bind (unary_test host op.token word) λ value. ok (value, word ∷ rest)

  -- BinaryTest: its operator and what is behind that.
  abbrev pub binary_expression : TestOp → Bytes → List Bytes → Result TestError (Bool × List Bytes)
  binary_expression op first [] = err (argument_expected op.text)
  binary_expression op first (word ∷ rest) =
      bind (binary_test host op.token first word) λ value. ok (value, word ∷ rest)

  -- The last lines of Primary, with the operator that Lex finds behind the operand.
  abbrev pub operand_expression : Option TestOp → List Bytes → Result TestError (Bool × List Bytes)
  operand_expression none ops = ok (not (is_empty (word_at ops)), ops)
  operand_expression (some op) ops =
      if is_binary (some op)
      then binary_expression op (word_at ops) (rest_of (rest_of ops))
      else ok (not (is_empty (word_at ops)), ops)

  abbrev pub word_expression : Option TestOp → List Bytes → Result TestError (Bool × List Bytes)
  word_expression none ops = operand_expression (lex (rest_of ops)).current ops
  word_expression (some op) ops =
      if is_unary (some op)
      then unary_expression op (rest_of ops)
      else operand_expression (lex (rest_of ops)).current ops

  -- Primary; `nested` is OrExpression.
  unfoldable pub primary : Grammar → Grammar
  primary nested lexed ops =
      if is_token end lexed.token
      then ok (false, ops)
      else if is_token open_paren lexed.token
      then (if is_token close_paren ((lex (rest_of ops)).token)
          then ok (false, rest_of ops)
          else bind (nested (lex (rest_of ops)) (rest_of ops)) close)
      else word_expression lexed.current ops

  -- NotExpression. Each "!" is a word of its own, so one round more than the words is enough.
  unfoldable pub not_loop : ℕ → Grammar → Grammar
  not_loop zero nested lexed ops = out_of_fuel
  not_loop (suc f) nested lexed ops = elim (is_token not_sign lexed.token) [
    | false ↦ primary nested lexed ops
    | true ↦
        bind
          (not_loop f nested (lex (rest_of ops))
            (if is_token end ((lex (rest_of ops)).token) then ops else rest_of ops))
          λ (value, ops'). ok (not value, ops')
  ]

  unfoldable pub not_expression : Grammar → Grammar
  not_expression nested lexed ops = not_loop (suc (length ops)) nested lexed ops

  -- AndExpression. Each round but the last takes a word or more.
  unfoldable pub and_loop : ℕ → Grammar → Bool → Grammar
  and_loop zero nested result lexed ops = out_of_fuel
  and_loop (suc f) nested result lexed ops = bind (not_expression nested lexed ops) λ (value, ops').
      elim (is_token and ((lex (rest_of ops')).token)) [
        | false ↦ ok (result && value, ops')
        | true ↦
            and_loop f nested (result && value) (lex (rest_of (rest_of ops')))
              (rest_of (rest_of ops'))
      ]

  unfoldable pub and_expression : Grammar → Grammar
  and_expression nested lexed ops = and_loop (suc (length ops)) nested true lexed ops

  unfoldable pub or_loop : ℕ → Grammar → Bool → Grammar
  or_loop zero nested result lexed ops = out_of_fuel
  or_loop (suc f) nested result lexed ops = bind (and_expression nested lexed ops) λ (value, ops').
      elim (is_token or ((lex (rest_of ops')).token)) [
        | false ↦ ok (result || value, ops')
        | true ↦
            or_loop f nested (result || value) (lex (rest_of (rest_of ops')))
              (rest_of (rest_of ops'))
      ]

  -- OrExpression. A call within another is behind a parenthesis.
  unfoldable pub or_expression : ℕ → Grammar
  or_expression zero lexed ops = out_of_fuel
  or_expression (suc f) lexed ops = or_loop (suc (length ops)) (or_expression f) false lexed ops
