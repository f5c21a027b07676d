-- ===== src/Hsh/Arithmetic/Loops.antt =====
-- The parser of src/components/BuiltinCommands/commands/hsh/HshArithmetic.cpp: the primaries, and the loops over
-- the operators of a level, on the fuel they are given.
use haisos.Common.{
  ℕ, suc, zero, ◌≤◌, ◌<◌, Bool, true, false, ◌&&◌, Option, none, some, List, [], ◌∷◌, ◌≡◌, ◌≢◌,
  refl, ap, inl, inr, arith, length, Bool-cases, Option-cases,
}
use haisos.Hsh.Arithmetic.Word.{of_bool}
use haisos.Hsh.Arithmetic.Token.{Token}
use haisos.Hsh.Arithmetic.Operators.{
  ok, bind, ArithmeticVariables, Value, plain, Level, operator_at, UnaryOp, unary_at, mapped,
  assign_at, is_assign_op, is_token, Logical, logical_token, goes_on, logical_value,
}
use haisos.Hsh.Arithmetic.Parser.{
  State, peek, advance, Parser, close_paren, primary_at, parse_primary, parse_unary, combine,
  chain_loop, chain, logical_loop, logical,
}
use haisos.Hsh.Arithmetic.Good.{
  no_paren, no_primary, Good, good, bad, Good-bind, Good-pure, Good-from, Sound, consumes,
  combine-Quiet, variable_value-Quiet,
}

pub rest_le : (ts : List Token) → length (elim ts [ [] ↦ [] | t ∷ r ↦ r ]) ≤ length ts
rest_le [] = omega arith
rest_le (t ∷ r) = omega arith

pub itself : (f : ℕ) → suc f ≤ suc f
itself f = omega arith

pub off : (b evaluating : Bool) → evaluating ≡ false → evaluating && b ≡ false
off b true o = cc
off b false o = refl

apart : (o : Option UnaryOp) (op : UnaryOp) → o ≡ some op → o ≢ none
apart o op e k = cc

starts_unary : (t : Token) (op : UnaryOp) → unary_at t ≡ some op → t ≢ Token.end
unfolding unary_at
starts_unary t op e k = apart (unary_at t) op e (ap unary_at k)

module _ {V : Type 0} (variables : ArithmeticVariables V) where
  module _ (f : ℕ) (nested : Parser V) (h : Sound f nested) where
    close_paren-Good :
        (n : ℕ) (evaluating : Bool) (s : V) (v : Value) (st : State V)
        → length st.tokens < n
        → (evaluating ≡ false → st.store ≡ s)
        → Good n evaluating s (close_paren variables (v, st))
    close_paren-Good n evaluating s v st l e = elim (Bool-cases (is_token Token.rparen (peek st))) [
      | inl b ↦ rw b (good (omega (arith, l, rest_le st.tokens)) e)
      | inr b ↦ rw b (bad (λ o. no_paren))
    ]

    primary_at-Good :
        (t : Token) (evaluating : Bool) (st : State V)
        → peek st ≡ t
        → length st.tokens < suc f
        → Good (length st.tokens) evaluating st.store (primary_at variables t nested evaluating st)
    primary_at-Good (Token.number n) evaluating st e l = good (consumes st (λ k. cc)) (λ o. refl)
    primary_at-Good (Token.name x) evaluating st e l =
        elim (Bool-cases (is_assign_op (assign_at (peek (advance st))))) [
          | inl b ↦ rw b (good (consumes st (λ k. cc)) (λ o. refl))
          | inr b ↦ rw b (
              Good-pure (length st.tokens) evaluating st.store
                (λ v. ok (record { value = v; lvalue = x }, advance st))
                (variable_value-Quiet variables evaluating x st.store)
                (λ v. good (consumes st (λ k. cc)) (λ o. refl)))
        ]
    primary_at-Good Token.lparen evaluating st e l =
        let c = consumes st (λ k. cc) in
        Good-bind (length (advance st).tokens) (length st.tokens) evaluating st.store
          (close_paren variables) (h evaluating (advance st) (omega (arith, c, l)))
          (λ v st' l' e'.
            close_paren-Good (length st.tokens) evaluating st.store v st' (omega (arith, c, l')) e')
    primary_at-Good _ evaluating st e l = bad (λ o. no_primary)

    parse_primary-Sound : Sound (suc f) (parse_primary variables nested)
    unfolding parse_primary
    parse_primary-Sound evaluating st l = primary_at-Good (peek st) evaluating st refl l

    pub parse_unary-Sound : (g : ℕ) → g ≤ suc f → Sound g (parse_unary variables g nested)
    unfolding parse_unary
    parse_unary-Sound zero k evaluating st l = absurd (omega (arith, l))
    parse_unary-Sound (suc g) k evaluating st l = elim (Option-cases (unary_at (peek st))) [
      | inl e ↦ rw (parse_unary, e) (parse_primary-Sound evaluating st (omega (arith, k, l)))
      | inr (op, e) ↦
          let c = consumes st (starts_unary (peek st) op e) in
          rw (parse_unary, e)
            (Good-bind (length (advance st).tokens) (length st.tokens) evaluating st.store
              (λ (v, st'). ok (mapped op evaluating v, st'))
              (parse_unary-Sound g (omega (arith, k)) evaluating (advance st) (omega (arith, c, l)))
              (λ v st' l' e'. good (omega (arith, c, l')) e'))
    ]

  module _ (k : ℕ) (operand : Parser V) (h : Sound k operand) where
    chain_loop-Good :
        (f : ℕ) (level : Level) (evaluating : Bool) (lhs : Value) (st : State V) (n : ℕ) (s : V)
        → length st.tokens < f
        → length st.tokens < k
        → length st.tokens < n
        → (evaluating ≡ false → st.store ≡ s)
        → Good n evaluating s (chain_loop variables f level operand evaluating lhs st)
    unfolding chain_loop
    chain_loop-Good zero level evaluating lhs st n s lf lk ln same = absurd (omega (arith, lf))
    chain_loop-Good (suc f) level evaluating lhs st n s lf lk ln same =
        elim (Option-cases (operator_at level (peek st))) [
          | inl e ↦ rw (chain_loop, e) (good ln same)
          | inr (op, e) ↦
              let c = rest_le st.tokens in
              rw (chain_loop, e)
                (Good-bind (length (advance st).tokens) n evaluating s
                  (λ (rhs, st').
                    bind (combine variables op evaluating lhs.value rhs.value)
                      λ v. chain_loop variables f level operand evaluating (plain v) st')
                  (Good-from (length (advance st).tokens) (length (advance st).tokens) evaluating
                    evaluating s st.store (omega arith) (λ o. o) same
                    (h evaluating (advance st) (omega (arith, c, lk))))
                  (λ rhs st' l' e'.
                    Good-pure n evaluating s
                      (λ v. chain_loop variables f level operand evaluating (plain v) st')
                      (combine-Quiet variables op evaluating lhs.value rhs.value)
                      (λ v.
                        chain_loop-Good f level evaluating (plain v) st' n s
                          (omega (arith, c, lf, l')) (omega (arith, c, lk, l'))
                          (omega (arith, c, ln, l')) e')))
        ]

    pub chain-Sound :
        (f : ℕ) (level : Level) → k ≤ suc f → Sound k (chain variables f level operand)
    unfolding chain
    chain-Sound f level j evaluating st l =
        Good-bind (length st.tokens) (length st.tokens) evaluating st.store
          (λ (lhs, st'). chain_loop variables f level operand evaluating lhs st')
          (h evaluating st l)
          (λ lhs st' l' e'.
            chain_loop-Good f level evaluating lhs st' (length st.tokens) st.store
              (omega (arith, j, l, l')) (omega (arith, l, l')) l' e')

    logical_loop-Good :
        (f : ℕ) (op : Logical) (evaluating : Bool) (lhs : Value) (st : State V) (n : ℕ) (s : V)
        → length st.tokens < f
        → length st.tokens < k
        → length st.tokens < n
        → (evaluating ≡ false → st.store ≡ s)
        → Good n evaluating s (logical_loop variables f op operand evaluating lhs st)
    unfolding logical_loop
    logical_loop-Good zero op evaluating lhs st n s lf lk ln same = absurd (omega (arith, lf))
    logical_loop-Good (suc f) op evaluating lhs st n s lf lk ln same =
        elim (Bool-cases (is_token (logical_token op) (peek st))) [
          | inr e ↦ rw (logical_loop, e) (good ln same)
          | inl e ↦
              let c = rest_le st.tokens in
              rw (logical_loop, e)
                (Good-bind (length (advance st).tokens) n evaluating s
                  (λ (rhs, st').
                    logical_loop variables f op operand evaluating
                      (plain (of_bool (evaluating && logical_value op lhs.value rhs.value))) st')
                  (Good-from (length (advance st).tokens) (length (advance st).tokens) evaluating
                    (evaluating && goes_on op lhs.value) s st.store (omega arith)
                    (off (goes_on op lhs.value) evaluating) same
                    (h (evaluating && goes_on op lhs.value) (advance st) (omega (arith, c, lk))))
                  (λ rhs st' l' e'.
                    logical_loop-Good f op evaluating
                      (plain (of_bool (evaluating && logical_value op lhs.value rhs.value))) st' n s
                      (omega (arith, c, lf, l')) (omega (arith, c, lk, l'))
                      (omega (arith, c, ln, l')) e'))
        ]

    pub logical-Sound :
        (f : ℕ) (op : Logical) → k ≤ suc f → Sound k (logical variables f op operand)
    unfolding logical
    logical-Sound f op j evaluating st l =
        Good-bind (length st.tokens) (length st.tokens) evaluating st.store
          (λ (lhs, st'). logical_loop variables f op operand evaluating lhs st') (h evaluating st l)
          (λ lhs st' l' e'.
            logical_loop-Good f op evaluating lhs st' (length st.tokens) st.store
              (omega (arith, j, l, l')) (omega (arith, l, l')) l' e')
