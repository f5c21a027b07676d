-- ===== src/Hsh/Test/Posix.antt =====
-- src/components/BuiltinCommands/commands/hsh/HshBuiltinTest.cpp: what POSIX says of three and four operands.
use haisos.Common.{
  ℕ, suc, Bool, true, false, not, ◌&&◌, some, List, [], ◌∷◌, ◌≡◌, ◌≢◌, inl, inr, refl, sym, ap, ◌∙◌,
  Bytes, length, bytes_eq, bytes_eq_iff, codes, Bool-cases,
}
use haisos.Common.Outcome.{Result, ok, err, out_of_fuel, bind}
use haisos.Hsh.Test.Table.{
  entry, TestToken, TestOp, TestOpType, unary, binary, unary_not, binary_logical, paren, lookup_op,
  is_unary, is_binary, is_token, lex_word, lex, token_operand, Lexed,
}
use haisos.Hsh.Test.Primaries.{TestHost, TestError, binary_test}
use haisos.Hsh.Test.Grammar.{
  Grammar, primary, not_loop, not_expression, and_loop, and_expression, or_loop, or_expression,
}
use haisos.Hsh.Test.Command.{
  evaluate, leftover, flip_by, reduction, negated, evaluated, run_loop, run, drop_last,
}

kind-unary :
    (text : Bytes) (token : TestToken) (k : TestOpType)
    → is_binary (some (entry text token k)) ≡ true
    → is_unary (some (entry text token k)) ≡ false
kind-unary text token unary h = sym h
kind-unary text token binary h = refl
kind-unary text token unary_not h = refl
kind-unary text token binary_logical h = refl
kind-unary text token paren h = refl

-- A binary operator with a word behind it is read as one.
lex_word-binary :
    (op : TestOp) (b : Bytes)
    → is_binary (some op) ≡ true
    → (lex_word (some op) (b ∷ [])).current ≡ some op
lex_word-binary op b h =
    rw (kind-unary op.text op.token op.kind h)
      (elim (Bool-cases (is_token TestToken.open_paren op.token)) [
        | inl e ↦ rw e refl
        | inr e ↦ rw e refl
      ])

differs : (a b : Bytes) → a ≢ b → bytes_eq a b ≡ false
differs a b h = elim (Bool-cases (bytes_eq a b)) [
  | inl e ↦ absurd (h ((bytes_eq_iff a b).0 e))
  | inr e ↦ e
]

module _ (host : TestHost) where
  -- A primary that ends on the last operand is the whole expression.
  or_expression-primary :
      (f : ℕ) (lexed : Lexed) (ops : List Bytes) (b : Bytes) (r : Result TestError Bool)
      → is_token TestToken.not_sign lexed.token ≡ false
      → primary host (or_expression host f) lexed ops ≡ bind r (λ value. ok (value, b ∷ []))
      → or_expression host (suc f) lexed ops ≡ bind r (λ value. ok (value, b ∷ []))
  unfolding or_expression or_loop and_expression and_loop not_expression not_loop lex is_token
  or_expression-primary f lexed ops b (ok true) n e =
      rw (or_loop, and_expression, and_loop, not_expression, not_loop, n, e) refl
  or_expression-primary f lexed ops b (ok false) n e =
      rw (or_loop, and_expression, and_loop, not_expression, not_loop, n, e) refl
  or_expression-primary f lexed ops b (err x) n e =
      rw (or_loop, and_expression, and_loop, not_expression, not_loop, n, e) refl
  or_expression-primary f lexed ops b out_of_fuel n e =
      rw (or_loop, and_expression, and_loop, not_expression, not_loop, n, e) refl

  primary-three :
      (nested : Grammar) (a word b : Bytes) (op : TestOp)
      → lookup_op word ≡ some op
      → is_binary (some op) ≡ true
      → primary host nested token_operand (a ∷ word ∷ b ∷ [])
        ≡ bind (binary_test host op.token a b) (λ value. ok (value, b ∷ []))
  unfolding primary lex is_token
  primary-three nested a word b op e h = rw (e, lex_word-binary op b h) (rw h refl)

  leftover-last :
      (r : Result TestError Bool) (b : Bytes) (result : Bool)
      → bind (bind r (λ value. ok (value, b ∷ []))) (leftover result)
        ≡ bind r (λ value. ok (flip_by value result))
  leftover-last (ok v) b result = refl
  leftover-last (err e) b result = refl
  leftover-last out_of_fuel b result = refl

  flipped :
      (r : Result TestError Bool)
      → bind r (λ value. ok (flip_by value true)) ≡ bind r (λ value. ok (not value))
  flipped (ok true) = refl
  flipped (ok false) = refl
  flipped (err e) = refl
  flipped out_of_fuel = refl

  reduction-three :
      (a word b : Bytes)
      → is_binary (lookup_op word) ≡ true
      → reduction a (word ∷ b ∷ []) ≡ evaluated token_operand (a ∷ word ∷ b ∷ [])
  reduction-three a word b h = rw h refl

  -- Three operands with a binary operator in the middle are its test of the other two, whatever these are.
  pub run-three :
      (a word b : Bytes) (op : TestOp)
      → lookup_op word ≡ some op
      → is_binary (some op) ≡ true
      → run host (a ∷ word ∷ b ∷ [])
        ≡ bind (binary_test host op.token a b) (λ value. ok (not value))
  unfolding run run_loop evaluate is_token lookup_op binary_test bytes_eq
  run-three a word b op e h = rw (reduction-three a word b (ap is_binary e ∙ h)) (
      rw
        (or_expression-primary 3 token_operand (a ∷ word ∷ b ∷ []) b (binary_test host op.token a b)
          refl (primary-three (or_expression host 3) a word b op e h))
        (leftover-last (binary_test host op.token a b) b true
          ∙ flipped (binary_test host op.token a b)))

  flip_by-true : (value : Bool) → flip_by value false ≡ not (flip_by value true)
  flip_by-true true = refl
  flip_by-true false = refl

  leftover-flip :
      (r : Result TestError (Bool × List Bytes))
      → bind r (leftover false) ≡ bind (bind r (leftover true)) (λ result. ok (not result))
  leftover-flip (ok (v, [])) = ap ok (flip_by-true v)
  leftover-flip (ok (v, word ∷ [])) = ap ok (flip_by-true v)
  leftover-flip (ok (v, word ∷ next ∷ rest)) = refl
  leftover-flip (err e) = refl
  leftover-flip out_of_fuel = refl

  reduction-negated : (a b c : Bytes) → reduction (codes "!") (a ∷ b ∷ c ∷ []) ≡ negated
  unfolding bytes_eq
  reduction-negated a b c = refl

  reduction-plain :
      (a b c : Bytes)
      → bytes_eq a (codes "!") ≡ false
      → (lexed : Lexed) × (ops : List Bytes) × (reduction a (b ∷ c ∷ []) ≡ evaluated lexed ops)
  reduction-plain a b c h = elim (Bool-cases (is_binary (lookup_op b))) [
    | inl e ↦ (token_operand, a ∷ b ∷ c ∷ [], rw e refl)
    | inr e ↦ elim (Bool-cases (bytes_eq a (codes "(") && bytes_eq c (codes ")"))) [
      | inl p ↦ (lex (drop_last (b ∷ c ∷ [])), drop_last (b ∷ c ∷ []), rw (e, p) refl)
      | inr p ↦ (lex (a ∷ b ∷ c ∷ []), a ∷ b ∷ c ∷ [], rw (e, p, h) refl)
    ]
  ]

  -- A "!" before three operands that do not begin with another turns their status round, and keeps their errors.
  pub run-negated :
      (a b c : Bytes)
      → a ≢ codes "!"
      → run host (codes "!" ∷ a ∷ b ∷ c ∷ [])
        ≡ bind (run host (a ∷ b ∷ c ∷ [])) (λ result. ok (not result))
  unfolding run run_loop evaluate bytes_eq lookup_op
  run-negated a b c h =
      let (lexed, ops, e) = reduction-plain a b c (differs a (codes "!") h) in
      rw (reduction-negated a b c)
        (rw e (leftover-flip (or_expression host (suc (length ops)) lexed ops)))
