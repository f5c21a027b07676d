-- ===== src/Hsh/Test/Leaves.antt =====
-- src/components/BuiltinCommands/commands/hsh/HshBuiltinTest.cpp ends: what its parts leave of
-- the operands, and that they keep within their fuel.
use haisos.Common.{
  ℕ, ◌≤◌, ◌<◌, Bool, true, false, Option, none, some, List, [], ◌∷◌, ◌≡◌, inl, inr, refl, sym,
  false≢true, Bytes, length, arith, Bool-cases, Option-cases,
}
use haisos.Common.Outcome.{Result, ok, err, bind}
use haisos.Hsh.Number.{ℤ, atomax10}
use haisos.Hsh.Test.Table.{
  TestToken, end, not_sign, and, or, TestOp, Lexed, is_unary, is_binary, is_token, lex,
}
use haisos.Hsh.Test.Primaries.{
  TestHost, TestError, unary_test, binary_test, number_of_operand, compare_numbers,
}
use haisos.Hsh.Test.Grammar.{
  rest_of, word_at, unary_expression, binary_expression, operand_expression, word_expression,
}

-- A result that is no lack of fuel.
pub data Returns {A : Type 0} : Result TestError A → Type 0 where
  returned : {a : A} → Returns (ok a)
  raised : {e : TestError} → Returns (err e)

pub Returns-bind :
    {A B : Type 0} {r : Result TestError A} (f : A → Result TestError B)
    → Returns r
    → ((a : A) → Returns (f a))
    → Returns (bind r f)
Returns-bind f (returned {a}) k = k a
Returns-bind f raised k = raised

-- And that leaves no more than `n` operands.
pub data Leaves (n : ℕ) : Result TestError (Bool × List Bytes) → Type 0 where
  left : {value : Bool} {ops : List Bytes} → length ops ≤ n → Leaves n (ok (value, ops))
  stopped : {e : TestError} → Leaves n (err e)

pub Leaves-bind :
    (n m : ℕ) {r : Result TestError (Bool × List Bytes)}
    (f : Bool × List Bytes → Result TestError (Bool × List Bytes))
    → Leaves n r
    → ((value : Bool) (ops : List Bytes) → length ops ≤ n → Leaves m (f (value, ops)))
    → Leaves m (bind r f)
Leaves-bind n m f (left {value} {ops} l) k = k value ops l
Leaves-bind n m f stopped k = stopped

pub Leaves-value :
    (m : ℕ) {r : Result TestError Bool} (ops : List Bytes)
    → length ops ≤ m
    → Returns r
    → Leaves m (bind r (λ value. ok (value, ops)))
Leaves-value m ops l returned = left l
Leaves-value m ops l raised = stopped

pub number_of_operand-Returns : (text : Bytes) → Returns (number_of_operand text)
number_of_operand-Returns text = elim (Option-cases (atomax10 text)) [
  | inl e ↦ rw e raised
  | inr (n, e) ↦ rw e returned
]

pub compare_numbers-Returns :
    (relation : ℤ → ℤ → Bool) (a b : Bytes) → Returns (compare_numbers relation a b)
compare_numbers-Returns relation a b =
    Returns-bind _ (number_of_operand-Returns a)
      (λ m. Returns-bind _ (number_of_operand-Returns b) (λ n. returned))

-- A token that is not the end is that of a word.
abbrev pub Fits : Lexed → List Bytes → Type 0
Fits lexed ops = is_token end lexed.token ≡ false → 0 < length ops

pub lex-Fits : (ops : List Bytes) → Fits (lex ops) ops
unfolding lex is_token
lex-Fits [] h = absurd (false≢true (sym h))
lex-Fits (word ∷ rest) h = omega arith

pub rest_of-shorter : (ops : List Bytes) → 0 < length ops → length (rest_of ops) < length ops
rest_of-shorter [] l = absurd (omega (arith, l))
rest_of-shorter (word ∷ rest) l = omega arith

pub rest_of-le : (ops : List Bytes) → length (rest_of ops) ≤ length ops
rest_of-le [] = omega arith
rest_of-le (word ∷ rest) = omega arith

pub not_sign-end : (t : TestToken) → is_token not_sign t ≡ true → is_token end t ≡ false
unfolding is_token
not_sign-end TestToken.not_sign e = refl
not_sign-end TestToken.end e = sym e
not_sign-end _ e = refl

pub and-end : (t : TestToken) → is_token and t ≡ true → is_token end t ≡ false
unfolding is_token
and-end TestToken.and e = refl
and-end TestToken.end e = sym e
and-end _ e = refl

pub or-end : (t : TestToken) → is_token or t ≡ true → is_token end t ≡ false
unfolding is_token
or-end TestToken.or e = refl
or-end TestToken.end e = sym e
or-end _ e = refl

pub Leaves-weaken :
    (n m : ℕ) {r : Result TestError (Bool × List Bytes)} → n ≤ m → Leaves n r → Leaves m r
Leaves-weaken n m h (left l) = left (omega (arith, h, l))
Leaves-weaken n m h stopped = stopped

pub ending :
    (n : ℕ) {r : Result TestError (Bool × List Bytes)}
    (f : Bool × List Bytes → Result TestError Bool)
    → Leaves n r
    → ((value : Bool) (ops : List Bytes) → length ops ≤ n → Returns (f (value, ops)))
    → Returns (bind r f)
ending n f (left {value} {ops} l) k = k value ops l
ending n f stopped k = raised

-- The operands behind an operator that is no end.
pub behind_operator :
    (ops : List Bytes)
    → is_token end (lex (rest_of ops)).token ≡ false
    → length (rest_of (rest_of ops)) < length ops
behind_operator ops h =
    omega (arith, rest_of-shorter (rest_of ops) (lex-Fits (rest_of ops) h), rest_of-le ops)

module _ (host : TestHost) where
  pub unary_test-Returns :
      (token : TestToken) (operand : Bytes) → Returns (unary_test host token operand)
  unfolding unary_test
  unary_test-Returns TestToken.file_terminal operand =
      Returns-bind _ (number_of_operand-Returns operand) (λ fd. returned)
  unary_test-Returns TestToken.string_empty operand = returned
  unary_test-Returns TestToken.string_not_empty operand = returned
  unary_test-Returns TestToken.file_symlink operand = returned
  unary_test-Returns TestToken.file_read operand = returned
  unary_test-Returns TestToken.file_write operand = returned
  unary_test-Returns TestToken.file_exec operand = returned
  unary_test-Returns TestToken.file_owner_uid operand = returned
  unary_test-Returns TestToken.file_owner_gid operand = returned
  unary_test-Returns _ operand = elim (Option-cases (host.stat operand)) [
    | inl e ↦ rw (unary_test, e) returned
    | inr (s, e) ↦ rw (unary_test, e) returned
  ]

  pub binary_test-Returns : (token : TestToken) (a b : Bytes) → Returns (binary_test host token a b)
  unfolding binary_test
  binary_test-Returns TestToken.int_equal a b = compare_numbers-Returns _ a b
  binary_test-Returns TestToken.int_not_equal a b = compare_numbers-Returns _ a b
  binary_test-Returns TestToken.int_greater_equal a b = compare_numbers-Returns _ a b
  binary_test-Returns TestToken.int_greater a b = compare_numbers-Returns _ a b
  binary_test-Returns TestToken.int_less_equal a b = compare_numbers-Returns _ a b
  binary_test-Returns TestToken.int_less a b = compare_numbers-Returns _ a b
  binary_test-Returns _ a b = returned

  pub unary_expression-Leaves :
      (op : TestOp) (n : ℕ) (ops : List Bytes)
      → length ops ≤ n
      → Leaves n (unary_expression host op ops)
  unary_expression-Leaves op n [] l = stopped
  unary_expression-Leaves op n (word ∷ rest) l =
      Leaves-value n (word ∷ rest) l (unary_test-Returns op.token word)

  pub binary_expression-Leaves :
      (op : TestOp) (first : Bytes) (n : ℕ) (ops : List Bytes)
      → length ops ≤ n
      → Leaves n (binary_expression host op first ops)
  binary_expression-Leaves op first n [] l = stopped
  binary_expression-Leaves op first n (word ∷ rest) l =
      Leaves-value n (word ∷ rest) l (binary_test-Returns op.token first word)

  pub operand_expression-Leaves :
      (o : Option TestOp) (ops : List Bytes) → Leaves (length ops) (operand_expression host o ops)
  operand_expression-Leaves none ops = left (omega arith)
  operand_expression-Leaves (some op) ops = elim (Bool-cases (is_binary (some op))) [
    | inl e ↦ rw e (
        binary_expression-Leaves op (word_at ops) (length ops) (rest_of (rest_of ops))
          (omega (arith, rest_of-le ops, rest_of-le (rest_of ops))))
    | inr e ↦ rw e (left (omega arith))
  ]

  pub word_expression-Leaves :
      (o : Option TestOp) (ops : List Bytes) → Leaves (length ops) (word_expression host o ops)
  word_expression-Leaves none ops = operand_expression-Leaves (lex (rest_of ops)).current ops
  word_expression-Leaves (some op) ops = elim (Bool-cases (is_unary (some op))) [
    | inl e ↦ rw e (unary_expression-Leaves op (length ops) (rest_of ops) (rest_of-le ops))
    | inr e ↦ rw e (operand_expression-Leaves (lex (rest_of ops)).current ops)
  ]
