-- ===== src/Hsh/Arithmetic/Parser.antt =====
-- src/components/BuiltinCommands/commands/hsh/HshArithmetic.cpp: the class ArithmeticParser, which evaluates as
-- it parses. m_evaluating is an argument, since WithEvaluation always puts it back; a throw is an error.
-- The variables are those of IArithmeticVariables, src/components/BuiltinCommands/commands/hsh/HshArithmetic.h.
use haisos.Common.{
  ℕ, suc, zero, Bool, true, false, not, ◌&&◌, ◌||◌, Option, none, some, List, [], ◌∷◌, ◌==◌,
  if◌then◌else◌, Bytes, length, is_empty,
}
use haisos.Hsh.Number.{ℤ, pos}
use haisos.Hsh.Arithmetic.Word.{is_nonzero, of_bool}
use haisos.Hsh.Arithmetic.Token.{Token, tokenize, is_blank}
use haisos.Hsh.Arithmetic.Numerals.{strtoimax, to_string}
use haisos.Hsh.Arithmetic.Operators.{
  ArithmeticError, expecting_eof, expecting_colon, expecting_paren, expecting_primary,
  illegal_number, read_only, Result, ok, err, out_of_fuel, bind, ArithmeticVariables, Value, plain,
  BinaryOp, apply_binary, Level, multiplicative, additive, shift, relational, equality, bits_and,
  bits_xor, bits_or, operator_at, unary_at, mapped, AssignOp, simple, compound, assign_at,
  is_assign_op, is_token, Logical, logical_and, logical_or, logical_token, goes_on, logical_value,
}

-- Tokens with m_pos at their front, and the store.
pub record State (V : Type 0) : Type 0 where
  pub tokens : List Token
  pub store : V

abbrev pub Parser : Type 0 → Type 0
Parser V = Bool → State V → Result ArithmeticError (Value × State V)

-- Blanks, then the end of the text.
abbrev pub only_blanks : Bytes → Bool
only_blanks [] = true
only_blanks (c ∷ s) = c == 0 || (is_blank c && only_blanks s)

abbrev pub number_of_text : Bytes → Option (ℤ × Bytes) → Result ArithmeticError ℤ
number_of_text text none = err (illegal_number text)
number_of_text text (some (v, rest)) = if only_blanks rest then ok v else err (illegal_number text)

module _ {V : Type 0} where
  -- Peek, and Next where the token is known.
  abbrev pub peek : State V → Token
  peek st = elim st.tokens [ [] ↦ Token.end | t ∷ r ↦ t ]

  abbrev pub advance : State V → State V
  advance st = record st { tokens = elim st.tokens [ [] ↦ [] | t ∷ r ↦ r ] }

  module _ (variables : ArithmeticVariables V) where
    open variables use {get, set}

    -- VariableValue.
    unfoldable pub variable_value : Bool → Bytes → V → Result ArithmeticError ℤ
    variable_value evaluating x store = if not evaluating then ok (pos 0) else (elim (get x store) [
      | none ↦ ok (pos 0)
      | some text ↦ if is_empty text then ok (pos 0) else number_of_text text (strtoimax text)
    ])

    abbrev pub close_paren : Value × State V → Result ArithmeticError (Value × State V)
    close_paren (v, st) =
        if is_token Token.rparen (peek st)
        then ok (plain v.value, advance st)
        else err expecting_paren

    -- ParsePrimary; `nested` is ParseAssign.
    abbrev pub primary_at : Token → Parser V → Parser V
    primary_at (Token.number n) nested evaluating st = ok (plain n, advance st)
    primary_at (Token.name x) nested evaluating st =
        bind
          (if is_assign_op (assign_at (peek (advance st)))
            then ok (pos 0)
            else variable_value evaluating x st.store)
          λ v. ok (record { value = v; lvalue = x }, advance st)
    primary_at Token.lparen nested evaluating st = bind (nested evaluating (advance st)) close_paren
    primary_at _ nested evaluating st = err expecting_primary

    unfoldable pub parse_primary : Parser V → Parser V
    parse_primary nested evaluating st = primary_at (peek st) nested evaluating st

    -- ParseUnary.
    unfoldable pub parse_unary : ℕ → Parser V → Parser V
    parse_unary zero nested evaluating st = out_of_fuel
    parse_unary (suc f) nested evaluating st = elim (unary_at (peek st)) [
      | none ↦ parse_primary nested evaluating st
      | some op ↦
          bind (parse_unary f nested evaluating (advance st))
            λ (v, st'). ok (mapped op evaluating v, st')
    ]

    -- What a round of a loop makes of the two values.
    abbrev pub combine : BinaryOp → Bool → ℤ → ℤ → Result ArithmeticError ℤ
    combine op evaluating a b = if evaluating then apply_binary op a b else ok (pos 0)

    -- The loop of ParseMultiplicative, ParseAdditive, ParseShift, ParseRelational, ParseEquality and
    -- ParseBinaryBits, and those functions with what they call for an operand.
    unfoldable pub chain_loop :
        ℕ → Level → Parser V → Bool → Value → State V → Result ArithmeticError (Value × State V)
    chain_loop zero level operand evaluating lhs st = out_of_fuel
    chain_loop (suc f) level operand evaluating lhs st = elim (operator_at level (peek st)) [
      | none ↦ ok (lhs, st)
      | some op ↦ bind (operand evaluating (advance st)) λ (rhs, st').
          bind (combine op evaluating lhs.value rhs.value)
            λ v. chain_loop f level operand evaluating (plain v) st'
    ]

    unfoldable pub chain : ℕ → Level → Parser V → Parser V
    chain f level operand evaluating st =
        bind (operand evaluating st) λ (lhs, st'). chain_loop f level operand evaluating lhs st'

    -- ParseBitOr, with the levels below it.
    unfoldable pub parse_bit_or : ℕ → Parser V → Parser V
    parse_bit_or f nested = chain f bits_or (
        chain f bits_xor (
          chain f bits_and (
            chain f equality (
              chain f relational (
                chain f shift
                  (chain f additive (chain f multiplicative (parse_unary (suc f) nested))))))))

    -- The loops of ParseLogicalAnd and ParseLogicalOr.
    unfoldable pub logical_loop :
        ℕ → Logical → Parser V → Bool → Value → State V → Result ArithmeticError (Value × State V)
    logical_loop zero op operand evaluating lhs st = out_of_fuel
    logical_loop (suc f) op operand evaluating lhs st =
        elim (is_token (logical_token op) (peek st)) [
          | false ↦ ok (lhs, st)
          | true ↦ bind (operand (evaluating && goes_on op lhs.value) (advance st)) λ (rhs, st').
              logical_loop f op operand evaluating
                (plain (of_bool (evaluating && logical_value op lhs.value rhs.value))) st'
        ]

    unfoldable pub logical : ℕ → Logical → Parser V → Parser V
    logical f op operand evaluating st =
        bind (operand evaluating st) λ (lhs, st'). logical_loop f op operand evaluating lhs st'

    -- ParseLogicalOr.
    unfoldable pub parse_logical_or : ℕ → Parser V → Parser V
    parse_logical_or f nested = logical f logical_or (logical f logical_and (parse_bit_or f nested))

    -- The rest of ParseConditional behind its '?'.
    abbrev pub branches : Parser V → Bool → ℤ → State V → Result ArithmeticError (Value × State V)
    branches nested evaluating condition st =
        bind (nested (evaluating && is_nonzero condition) st) λ (t, st1).
          if is_token Token.colon (peek st1)
          then (bind (nested (evaluating && not (is_nonzero condition)) (advance st1)) λ (e, st2).
              ok (
                plain (
                    if evaluating
                    then (if is_nonzero condition then t.value else e.value)
                    else pos 0),
                st2,
              ))
          else err expecting_colon

    -- ParseConditional.
    unfoldable pub parse_conditional : ℕ → Parser V → Parser V
    parse_conditional f nested evaluating st =
        bind (parse_logical_or f nested evaluating st) λ (c, st1).
          if is_token Token.question (peek st1)
          then branches nested evaluating c.value (advance st1)
          else ok (c, st1)

    abbrev pub assigned : AssignOp → Bytes → ℤ → ℤ → V → Result ArithmeticError ℤ
    assigned simple x lhs rhs store = ok rhs
    assigned (compound op) x lhs rhs store =
        bind (variable_value true x store) λ old. apply_binary op old rhs

    abbrev pub stored : Bytes → ℤ → State V → Result ArithmeticError (Value × State V)
    stored x v st =
        let (store', done) = set x (to_string v) st.store in
        if not done then err (read_only x) else ok (plain v, record st { store = store' })

    -- ParseAssign behind its operator and its right side.
    abbrev pub assign_to :
        AssignOp → Bool → Value → Value → State V → Result ArithmeticError (Value × State V)
    assign_to op evaluating lhs rhs st =
        if not evaluating
        then ok (plain (pos 0), st)
        else (bind (assigned op lhs.lvalue lhs.value rhs.value st.store)
            λ v. stored lhs.lvalue v st)

    -- ParseAssign. Every call that it nests comes behind a token that was taken, so fuel above the
    -- number of tokens is enough.
    unfoldable pub parse_assign : ℕ → Parser V
    parse_assign zero evaluating st = out_of_fuel
    parse_assign (suc f) evaluating st =
        bind (parse_conditional f (parse_assign f) evaluating st) λ (lhs, st1).
          elim (assign_at (peek st1)) [
            | none ↦ ok (lhs, st1)
            | some op ↦ elim (is_empty lhs.lvalue) [
              | true ↦ ok (lhs, st1)
              | false ↦
                  bind (parse_assign f evaluating (advance st1))
                    λ (rhs, st2). assign_to op evaluating lhs rhs st2
            ]
          ]

    abbrev pub finish : Value × State V → Result ArithmeticError (ℤ × V)
    finish (v, st) =
        if is_token Token.end (peek st) then ok (v.value, st.store) else err expecting_eof

    -- Run.
    unfoldable pub run_tokens : List Token → V → Result ArithmeticError (ℤ × V)
    run_tokens tokens store =
        bind (parse_assign (suc (length tokens)) true (record { tokens = tokens; store = store }))
          finish

    -- Run of the tokens that Tokenize made; `none` is a Tokenize that ran out of fuel.
    abbrev pub run_tokenized : Option (List Token) → V → Result ArithmeticError (ℤ × V)
    run_tokenized none store = out_of_fuel
    run_tokenized (some tokens) store = run_tokens tokens store

    -- EvaluateArithmetic.
    unfoldable pub evaluate_arithmetic : Bytes → V → Result ArithmeticError (ℤ × V)
    unfolding run_tokens
    evaluate_arithmetic expression store = run_tokenized (tokenize expression) store
