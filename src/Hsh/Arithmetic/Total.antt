-- ===== src/Hsh/Arithmetic/Total.antt =====
-- The parser of src/components/BuiltinCommands/commands/hsh/HshArithmetic.cpp ends, and leaves alone what it
-- does not evaluate.
use haisos.Common.{
  List, ℕ, suc, zero, ◌<◌, Bool, true, false, not, ◌&&◌, ◌≡◌, ◌⊎◌, refl, sym, inl, inr, arith,
  if◌then◌else◌, Bytes, length, is_empty, Bool-cases, Option-cases, false≢true,
}
use haisos.Hsh.Number.{ℤ, pos}
use haisos.Hsh.Arithmetic.Word.{is_nonzero}
use haisos.Hsh.Arithmetic.Token.{Token}
use haisos.Hsh.Arithmetic.Consumes.{tokenize-ends}
use haisos.Hsh.Arithmetic.Numerals.{to_string}
use haisos.Hsh.Arithmetic.Operators.{
  ArithmeticError, ArithmeticError, expecting_eof, Result, ok, err, bind, ArithmeticVariables,
  Value, plain, apply_binary, multiplicative, additive, shift, relational, equality, bits_and,
  bits_xor, bits_or, AssignOp, simple, compound, assign_at, is_token, logical_and, logical_or,
}
use haisos.Hsh.Arithmetic.Parser.{
  State, peek, advance, Parser, parse_bit_or, parse_logical_or, branches, parse_conditional,
  assigned, stored, assign_to, parse_assign, finish, run_tokens, evaluate_arithmetic,
}
use haisos.Hsh.Arithmetic.Good.{
  IsSyntax, no_colon, Quiet, quiet, Quiet-bind, Good, good, bad, Good-bind, Good-pure, Good-from,
  Sound, variable_value-Quiet, apply_binary-Quiet,
}
use haisos.Hsh.Arithmetic.Loops.{
  rest_le, itself, off, parse_unary-Sound, chain-Sound, logical-Sound,
}

module _ {V : Type 0} (variables : ArithmeticVariables V) where
  module _ (f : ℕ) (nested : Parser V) (h : Sound f nested) where
    parse_bit_or-Sound : Sound (suc f) (parse_bit_or variables f nested)
    unfolding parse_bit_or
    parse_bit_or-Sound =
        chain-Sound variables (suc f) _
          (chain-Sound variables (suc f) _
            (chain-Sound variables (suc f) _
              (chain-Sound variables (suc f) _
                (chain-Sound variables (suc f) _
                  (chain-Sound variables (suc f) _
                    (chain-Sound variables (suc f) _
                      (chain-Sound variables (suc f) _
                        (parse_unary-Sound variables f nested h (suc f) (itself f)) f multiplicative
                        (itself f))
                      f additive (itself f))
                    f shift (itself f))
                  f relational (itself f))
                f equality (itself f))
              f bits_and (itself f))
            f bits_xor (itself f))
          f bits_or (itself f)

    parse_logical_or-Sound : Sound (suc f) (parse_logical_or variables f nested)
    unfolding parse_logical_or
    parse_logical_or-Sound =
        logical-Sound variables (suc f) _
          (logical-Sound variables (suc f) _ parse_bit_or-Sound f logical_and (itself f)) f
          logical_or (itself f)

    branches-Good :
        (n : ℕ) (evaluating : Bool) (s : V) (condition : ℤ) (st : State V)
        → length st.tokens < f
        → length st.tokens < n
        → (evaluating ≡ false → st.store ≡ s)
        → Good n evaluating s (branches variables nested evaluating condition st)
    branches-Good n evaluating s condition st lf ln same =
        Good-bind (length st.tokens) n evaluating s _
          (Good-from (length st.tokens) (length st.tokens) evaluating
            (evaluating && is_nonzero condition) s st.store (omega arith)
            (off (is_nonzero condition) evaluating) same
            (h (evaluating && is_nonzero condition) st lf))
          (λ t st1 l1 e1.
            let c = rest_le st1.tokens in
            elim (Bool-cases (is_token Token.colon (peek st1))) [
              | inr b ↦ rw b (bad (λ o. no_colon))
              | inl b ↦ rw b (
                  Good-bind (length st1.tokens) n evaluating s
                    (λ (e, st2). ok (
                      plain (
                          if evaluating
                          then (if is_nonzero condition then t.value else e.value)
                          else pos 0),
                      st2,
                    ))
                    (Good-from (length (advance st1).tokens) (length st1.tokens) evaluating
                      (evaluating && not (is_nonzero condition)) s st1.store c
                      (off (not (is_nonzero condition)) evaluating) e1
                      (h (evaluating && not (is_nonzero condition)) (advance st1)
                        (omega (arith, c, l1, lf))))
                    (λ e st2 l2 e2. good (omega (arith, l2, l1, ln)) e2))
            ])

    parse_conditional-Sound : Sound (suc f) (parse_conditional variables f nested)
    unfolding parse_conditional
    parse_conditional-Sound evaluating st l =
        Good-bind (length st.tokens) (length st.tokens) evaluating st.store _
          (parse_logical_or-Sound evaluating st l)
          (λ v st1 l1 e1.
            let c = rest_le st1.tokens in
            elim (Bool-cases (is_token Token.question (peek st1))) [
              | inl b ↦ rw b (
                  branches-Good (length st.tokens) evaluating st.store v.value (advance st1)
                    (omega (arith, c, l1, l)) (omega (arith, c, l1)) e1)
              | inr b ↦ rw b (good l1 e1)
            ])

  assigned-Quiet :
      (op : AssignOp) (x : Bytes) (a b : ℤ) (s : V) → Quiet true (assigned variables op x a b s)
  assigned-Quiet simple x a b s = quiet
  assigned-Quiet (compound op) x a b s =
      Quiet-bind true (λ old. apply_binary op old b) (variable_value-Quiet variables true x s)
        (λ old. apply_binary-Quiet op old b)

  stored-Good :
      (n : ℕ) (s : V) (x : Bytes) (v : ℤ) (st : State V)
      → length st.tokens < n
      → Good n true s (stored variables x v st)
  stored-Good n s x v st l = elim (Bool-cases ((variables.set x (to_string v) st.store).1)) [
    | inl b ↦ rw b (good l (λ o. absurd (false≢true (sym o))))
    | inr b ↦ rw b (bad (λ o. absurd (false≢true (sym o))))
  ]

  assign_to-Good :
      (n : ℕ) (op : AssignOp) (evaluating : Bool) (s : V) (lhs rhs : Value) (st : State V)
      → length st.tokens < n
      → (evaluating ≡ false → st.store ≡ s)
      → Good n evaluating s (assign_to variables op evaluating lhs rhs st)
  assign_to-Good n op false s lhs rhs st l e = good l e
  assign_to-Good n op true s lhs rhs st l e =
      Good-pure n true s (λ v. stored variables lhs.lvalue v st)
        (assigned-Quiet op lhs.lvalue lhs.value rhs.value st.store)
        (λ v. stored-Good n s lhs.lvalue v st l)

  parse_assign-Sound : (f : ℕ) → Sound f (parse_assign variables f)
  unfolding parse_assign
  parse_assign-Sound zero evaluating st l = absurd (omega (arith, l))
  parse_assign-Sound (suc f) evaluating st l =
      Good-bind (length st.tokens) (length st.tokens) evaluating st.store _
        (parse_conditional-Sound f (parse_assign variables f) (parse_assign-Sound f) evaluating st
          l)
        (λ lhs st1 l1 e1.
          let c = rest_le st1.tokens in
          elim (Option-cases (assign_at (peek st1))) [
            | inl e ↦ rw e (good l1 e1)
            | inr (op, e) ↦ rw e (elim (Bool-cases (is_empty lhs.lvalue)) [
              | inl b ↦ rw b (good l1 e1)
              | inr b ↦ rw b (
                  Good-bind (length (advance st1).tokens) (length st.tokens) evaluating st.store _
                    (Good-from (length (advance st1).tokens) (length (advance st1).tokens)
                      evaluating evaluating st.store st1.store (omega arith) (λ o. o) e1
                      (parse_assign-Sound f evaluating (advance st1) (omega (arith, c, l1, l))))
                    (λ rhs st2 l2 e2.
                      assign_to-Good (length st.tokens) op evaluating st.store lhs rhs st2
                        (omega (arith, c, l1, l2)) e2))
            ])
          ])

  unevaluated :
      {r : Result ArithmeticError (Value × State V)} (n : ℕ) (s : V)
      → Good n false s r
      → ((v : Value) × (st' : State V) × (r ≡ ok (v, st'))
          × (length st'.tokens < n)
          × (st'.store ≡ s))
        ⊎ ((e : ArithmeticError) × IsSyntax e × (r ≡ err e))
  unevaluated n s (good {v} {st} l same) = inl (v, st, refl, l, same refl)
  unevaluated n s (bad {e} h) = inr (e, h refl, refl)

  finished :
      {r : Result ArithmeticError (Value × State V)} (n : ℕ) (s : V)
      → Good n true s r
      → ((v : ℤ) × (store' : V) × (bind r (finish variables) ≡ ok (v, store')))
        ⊎ ((e : ArithmeticError) × (bind r (finish variables) ≡ err e))
  finished n s (good {v} {st} l same) = elim (Bool-cases (is_token Token.end (peek st))) [
    | inl b ↦ inl (v.value, st.store, rw b refl)
    | inr b ↦ inr (expecting_eof, rw b refl)
  ]
  finished n s (bad {e} h) = inr (e, refl)

  -- An unevaluated expression, with fuel above the number of its tokens, is parsed to a rest of fewer
  -- tokens with the store as it was, or is a syntax error: nothing is looked up, assigned or divided.
  pub parse_assign-unevaluated :
      (f : ℕ) (st : State V)
      → length st.tokens < f
      → ((v : Value) × (st' : State V) × (parse_assign variables f false st ≡ ok (v, st'))
          × (length st'.tokens < length st.tokens)
          × (st'.store ≡ st.store))
        ⊎ ((e : ArithmeticError) × IsSyntax e × (parse_assign variables f false st ≡ err e))
  parse_assign-unevaluated f st l = unevaluated _ st.store (parse_assign-Sound f false st l)

  run_tokens-total :
      (tokens : List Token) (store : V)
      → ((v : ℤ) × (store' : V) × (run_tokens variables tokens store ≡ ok (v, store')))
        ⊎ ((e : ArithmeticError) × (run_tokens variables tokens store ≡ err e))
  unfolding run_tokens
  run_tokens-total tokens store = finished _ store (
      parse_assign-Sound (suc (length tokens)) true (record { tokens = tokens; store = store })
        (omega arith))

  -- Every text is taken apart into tokens and evaluates to a number and a store, or to an error: the
  -- fuel given to the loop of the tokens and that given to the parser are enough.
  pub evaluate_arithmetic-total :
      (expression : Bytes) (store : V)
      → ((v : ℤ) × (store' : V) × (evaluate_arithmetic variables expression store ≡ ok (v, store')))
        ⊎ ((e : ArithmeticError) × (evaluate_arithmetic variables expression store ≡ err e))
  unfolding evaluate_arithmetic
  evaluate_arithmetic-total expression store =
      let (tokens, e) = tokenize-ends expression in rw e (run_tokens-total tokens store)
