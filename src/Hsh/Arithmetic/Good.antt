-- ===== src/Hsh/Arithmetic/Good.antt =====
-- What the parts of the parser of src/components/BuiltinCommands/commands/hsh/HshArithmetic.cpp come back with.
use haisos.Common.{
  ℕ, ◌≤◌, ◌<◌, Bool, true, false, Option, none, some, List, [], ◌∷◌, ◌≡◌, ◌≢◌, refl, sym, ◌∙◌, inl,
  inr, arith, if◌then◌else◌, Bytes, length, is_empty, Bool-cases, Option-cases, false≢true,
}
use haisos.Hsh.Number.{ℤ, pos}
use haisos.Hsh.Arithmetic.Word.{eq_ℤ, div, modulo}
use haisos.Hsh.Arithmetic.Token.{Token}
use haisos.Hsh.Arithmetic.Numerals.{strtoimax}
use haisos.Hsh.Arithmetic.Operators.{
  ArithmeticError, ArithmeticError, expecting_eof, expecting_colon, expecting_paren,
  expecting_primary, division_by_zero, Result, ok, err, bind, ArithmeticVariables, Value, BinaryOp,
  apply_binary, multiply, divide_by, modulo_by, plus_by, minus_by, shift_left_by, shift_right_by,
  less, less_equal, greater, greater_equal, equal, not_equal, both_bits, either_bits, any_bits,
  Level, multiplicative, additive, shift, relational, equality, bits_and, bits_xor, bits_or,
  operator_at,
}
use haisos.Hsh.Arithmetic.Parser.{
  State, peek, advance, Parser, variable_value, number_of_text, only_blanks, combine,
}

-- An error of the text itself, not of a value.
pub data IsSyntax : ArithmeticError → Type 0 where
  eof : IsSyntax expecting_eof
  no_colon : IsSyntax expecting_colon
  no_paren : IsSyntax expecting_paren
  no_primary : IsSyntax expecting_primary

-- A run kept within its fuel; unevaluated, it raises no error but one of the text.
pub data Quiet {A : Type 0} (evaluating : Bool) : Result ArithmeticError A → Type 0 where
  quiet : {a : A} → Quiet evaluating (ok a)
  raised : {e : ArithmeticError} → (evaluating ≡ false → IsSyntax e) → Quiet evaluating (err e)

pub Quiet-bind :
    {A B : Type 0} (evaluating : Bool) {r : Result ArithmeticError A}
    (f : A → Result ArithmeticError B)
    → Quiet evaluating r
    → ((a : A) → Quiet evaluating (f a))
    → Quiet evaluating (bind r f)
Quiet-bind evaluating f (quiet {a}) k = k a
Quiet-bind evaluating f (raised h) k = raised h

abbrev head_or_end : List Token → Token
head_or_end ts = elim ts [ [] ↦ Token.end | t ∷ r ↦ t ]

consumes_list :
    (ts : List Token)
    → head_or_end ts ≢ Token.end
    → length (elim ts [ [] ↦ [] | t ∷ r ↦ r ]) < length ts
consumes_list [] h = absurd (h refl)
consumes_list (t ∷ r) h = omega arith

module _ {V : Type 0} where
  -- And then leaves fewer tokens than `n`, and the store as it was.
  pub data Good (n : ℕ) (evaluating : Bool) (s : V)
      : Result ArithmeticError (Value × State V) → Type 0 where
    good :
        {v : Value} {st : State V}
        → length st.tokens < n
        → (evaluating ≡ false → st.store ≡ s)
        → Good n evaluating s (ok (v, st))
    bad : {e : ArithmeticError} → (evaluating ≡ false → IsSyntax e) → Good n evaluating s (err e)

  pub Good-bind :
      (n m : ℕ) (evaluating : Bool) (s : V) {r : Result ArithmeticError (Value × State V)}
      (f : Value × State V → Result ArithmeticError (Value × State V))
      → Good n evaluating s r
      → ((v : Value) (st : State V)
          → length st.tokens < n
          → (evaluating ≡ false → st.store ≡ s)
          → Good m evaluating s (f (v, st)))
      → Good m evaluating s (bind r f)
  Good-bind n m evaluating s f (good {v} {st} l e) k = k v st l e
  Good-bind n m evaluating s f (bad h) k = bad h

  pub Good-pure :
      (m : ℕ) (evaluating : Bool) (s : V) {r : Result ArithmeticError ℤ}
      (f : ℤ → Result ArithmeticError (Value × State V))
      → Quiet evaluating r
      → ((v : ℤ) → Good m evaluating s (f v))
      → Good m evaluating s (bind r f)
  Good-pure m evaluating s f (quiet {a}) k = k a
  Good-pure m evaluating s f (raised h) k = bad h

  -- A run from a later store, or with less evaluated.
  pub Good-from :
      (n m : ℕ) (evaluating evaluating' : Bool) (s s' : V)
      {r : Result ArithmeticError (Value × State V)}
      → n ≤ m
      → (evaluating ≡ false → evaluating' ≡ false)
      → (evaluating ≡ false → s' ≡ s)
      → Good n evaluating' s' r
      → Good m evaluating s r
  Good-from n m evaluating evaluating' s s' h off same (good l e) =
      good (omega (arith, h, l)) (λ o. e (off o) ∙ same o)
  Good-from n m evaluating evaluating' s s' h off same (bad k) = bad (λ o. k (off o))

  -- A parser that takes a token or more, on inputs of less than `k` tokens.
  abbrev pub Sound : ℕ → Parser V → Type 0
  Sound k p =
      (evaluating : Bool) (st : State V)
      → length st.tokens < k
      → Good (length st.tokens) evaluating st.store (p evaluating st)

  pub consumes :
      (st : State V) → peek st ≢ Token.end → length (advance st).tokens < length st.tokens
  consumes st h = consumes_list st.tokens h

number_of_text-Quiet : (text : Bytes) (o : Option (ℤ × Bytes)) → Quiet true (number_of_text text o)
number_of_text-Quiet text none = raised (λ o. absurd (false≢true (sym o)))
number_of_text-Quiet text (some (v, rest)) = elim (Bool-cases (only_blanks rest)) [
  | inl e ↦ rw e quiet
  | inr e ↦ rw e (raised (λ o. absurd (false≢true (sym o))))
]

dividing : (b a : ℤ) → Quiet true (if eq_ℤ b (pos 0) then err division_by_zero else ok a)
dividing b a = elim (Bool-cases (eq_ℤ b (pos 0))) [
  | inl e ↦ rw e (raised (λ o. absurd (false≢true (sym o))))
  | inr e ↦ rw e quiet
]

pub apply_binary-Quiet : (op : BinaryOp) (a b : ℤ) → Quiet true (apply_binary op a b)
unfolding apply_binary
apply_binary-Quiet divide_by a b = dividing b (div a b)
apply_binary-Quiet modulo_by a b = dividing b (modulo a b)
apply_binary-Quiet multiply a b = quiet
apply_binary-Quiet plus_by a b = quiet
apply_binary-Quiet minus_by a b = quiet
apply_binary-Quiet shift_left_by a b = quiet
apply_binary-Quiet shift_right_by a b = quiet
apply_binary-Quiet less a b = quiet
apply_binary-Quiet less_equal a b = quiet
apply_binary-Quiet greater a b = quiet
apply_binary-Quiet greater_equal a b = quiet
apply_binary-Quiet equal a b = quiet
apply_binary-Quiet not_equal a b = quiet
apply_binary-Quiet both_bits a b = quiet
apply_binary-Quiet either_bits a b = quiet
apply_binary-Quiet any_bits a b = quiet

pub combine-Quiet :
    {V : Type 0} (variables : ArithmeticVariables V) (op : BinaryOp) (evaluating : Bool) (a b : ℤ)
    → Quiet evaluating (combine variables op evaluating a b)
combine-Quiet variables op true a b = apply_binary-Quiet op a b
combine-Quiet variables op false a b = quiet

pub variable_value-Quiet :
    {V : Type 0} (variables : ArithmeticVariables V) (evaluating : Bool) (x : Bytes) (s : V)
    → Quiet evaluating (variable_value variables evaluating x s)
unfolding variable_value
variable_value-Quiet variables false x s = quiet
variable_value-Quiet variables true x s = elim (Option-cases (variables.get x s)) [
  | inl e ↦ rw e quiet
  | inr (text, e) ↦ rw e (elim (Bool-cases (is_empty text)) [
    | inl b ↦ rw b quiet
    | inr b ↦ rw b (number_of_text-Quiet text (strtoimax text))
  ])
]

-- The end is no operator.
pub operator_at-end : (level : Level) → operator_at level Token.end ≡ none
unfolding operator_at
operator_at-end multiplicative = refl
operator_at-end additive = refl
operator_at-end shift = refl
operator_at-end relational = refl
operator_at-end equality = refl
operator_at-end bits_and = refl
operator_at-end bits_xor = refl
operator_at-end bits_or = refl
