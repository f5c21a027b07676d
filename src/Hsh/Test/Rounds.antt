-- ===== src/Hsh/Test/Rounds.antt =====
-- src/components/BuiltinCommands/commands/hsh/HshBuiltinTest.cpp keeps within its fuel: the loops
-- of OrExpression, AndExpression and NotExpression.
use haisos.Common.{
  ℕ, suc, zero, ◌≤◌, ◌<◌, Bool, true, false, ◌&&◌, ◌||◌, List, ◌≡◌, inl, inr, sym, ◌∙◌, false≢true,
  Bytes, length, arith, Bool-cases,
}
use haisos.Hsh.Test.Table.{end, not_sign, and, or, open_paren, close_paren, Lexed, is_token, lex}
use haisos.Hsh.Test.Primaries.{TestHost}
use haisos.Hsh.Test.Grammar.{
  rest_of, Grammar, close, primary, not_loop, not_expression, and_loop, and_expression, or_loop,
  or_expression,
}
use haisos.Hsh.Test.Leaves.{
  Leaves, left, stopped, Leaves-bind, Leaves-weaken, Fits, lex-Fits, rest_of-shorter, rest_of-le,
  not_sign-end, and-end, or-end, behind_operator, word_expression-Leaves,
}

module _ (host : TestHost) where
  -- An expression within parentheses, on fewer operands than `k`.
  abbrev pub Sound : ℕ → Grammar → Type 0
  Sound k g =
      (lexed : Lexed) (ops : List Bytes)
      → Fits lexed ops
      → length ops < k
      → Leaves (length ops) (g lexed ops)

  close-Leaves :
      (n : ℕ) (value : Bool) (ops : List Bytes) → length ops ≤ n → Leaves n (close (value, ops))
  close-Leaves n value ops l = elim (Bool-cases (is_token close_paren (lex (rest_of ops)).token)) [
    | inl e ↦ rw e (left (omega (arith, l, rest_of-le ops)))
    | inr e ↦ rw e stopped
  ]

  module _ (k : ℕ) (nested : Grammar) (h : Sound k nested) where
    primary-Leaves :
        (lexed : Lexed) (ops : List Bytes)
        → Fits lexed ops
        → length ops < suc k
        → Leaves (length ops) (primary host nested lexed ops)
    unfolding primary
    primary-Leaves lexed ops fits l = elim (Bool-cases (is_token end lexed.token)) [
      | inl e ↦ rw e (left (omega arith))
      | inr e ↦ rw e (elim (Bool-cases (is_token open_paren lexed.token)) [
        | inr o ↦ rw o (word_expression-Leaves host lexed.current ops)
        | inl o ↦
            let s = rest_of-shorter ops (fits e) in
            rw o (elim (Bool-cases (is_token close_paren (lex (rest_of ops)).token)) [
              | inl c ↦ rw c (left (omega (arith, s)))
              | inr c ↦ rw c (
                  Leaves-bind (length (rest_of ops)) (length ops) close
                    (h (lex (rest_of ops)) (rest_of ops) (lex-Fits (rest_of ops))
                      (omega (arith, s, l)))
                    (λ value ops' l'. close-Leaves (length ops) value ops' (omega (arith, s, l'))))
            ])
      ])
    ]

    not_loop-Leaves :
        (f : ℕ) (lexed : Lexed) (ops : List Bytes)
        → Fits lexed ops
        → 0 < f
        → (is_token end lexed.token ≡ false → length ops < f)
        → length ops < suc k
        → Leaves (length ops) (not_loop host f nested lexed ops)
    unfolding not_loop
    not_loop-Leaves zero lexed ops fits z f l = absurd (omega (arith, z))
    not_loop-Leaves (suc f) lexed ops fits z lf l =
        elim (Bool-cases (is_token not_sign lexed.token)) [
          | inr e ↦ rw (not_loop, e) (primary-Leaves lexed ops fits l)
          | inl e ↦
              let other = not_sign-end lexed.token e in
              let s = rest_of-shorter ops (fits other) in
              rw (not_loop, e)
                (elim (Bool-cases (is_token end (lex (rest_of ops)).token)) [
                  | inl d ↦ rw d (
                      Leaves-bind (length ops) (length ops) _
                        (not_loop-Leaves f (lex (rest_of ops)) ops (λ g. fits other)
                          (omega (arith, fits other, lf other))
                          (λ g. absurd (false≢true (sym g ∙ d))) l)
                        (λ value ops' l'. left l'))
                  | inr d ↦ rw d (
                      Leaves-bind (length (rest_of ops)) (length ops) _
                        (not_loop-Leaves f (lex (rest_of ops)) (rest_of ops)
                          (lex-Fits (rest_of ops)) (omega (arith, fits other, lf other))
                          (λ g. omega (arith, s, lf other)) (omega (arith, s, l)))
                        (λ value ops' l'. left (omega (arith, l', s))))
                ])
        ]

    not_expression-Leaves :
        (lexed : Lexed) (ops : List Bytes)
        → Fits lexed ops
        → length ops < suc k
        → Leaves (length ops) (not_expression host nested lexed ops)
    unfolding not_expression
    not_expression-Leaves lexed ops fits l =
        not_loop-Leaves (suc (length ops)) lexed ops fits (omega arith) (λ e. omega arith) l

    and_loop-Leaves :
        (f : ℕ) (result : Bool) (lexed : Lexed) (ops : List Bytes)
        → Fits lexed ops
        → length ops < f
        → length ops < suc k
        → Leaves (length ops) (and_loop host f nested result lexed ops)
    unfolding and_loop
    and_loop-Leaves zero result lexed ops fits lf l = absurd (omega (arith, lf))
    and_loop-Leaves (suc f) result lexed ops fits lf l =
        Leaves-bind (length ops) (length ops) _ (not_expression-Leaves lexed ops fits l)
          (λ value ops' l'. elim (Bool-cases (is_token and (lex (rest_of ops')).token)) [
            | inr e ↦ rw (and_loop, e) (left l')
            | inl e ↦
                let s = behind_operator ops' (and-end (lex (rest_of ops')).token e) in
                rw (and_loop, e)
                  (Leaves-weaken (length (rest_of (rest_of ops'))) (length ops)
                    (omega (arith, s, l'))
                    (and_loop-Leaves f (result && value) (lex (rest_of (rest_of ops')))
                      (rest_of (rest_of ops')) (lex-Fits (rest_of (rest_of ops')))
                      (omega (arith, s, l', lf)) (omega (arith, s, l', l))))
          ])

    and_expression-Leaves :
        (lexed : Lexed) (ops : List Bytes)
        → Fits lexed ops
        → length ops < suc k
        → Leaves (length ops) (and_expression host nested lexed ops)
    unfolding and_expression
    and_expression-Leaves lexed ops fits l =
        and_loop-Leaves (suc (length ops)) true lexed ops fits (omega arith) l

    or_loop-Leaves :
        (f : ℕ) (result : Bool) (lexed : Lexed) (ops : List Bytes)
        → Fits lexed ops
        → length ops < f
        → length ops < suc k
        → Leaves (length ops) (or_loop host f nested result lexed ops)
    unfolding or_loop
    or_loop-Leaves zero result lexed ops fits lf l = absurd (omega (arith, lf))
    or_loop-Leaves (suc f) result lexed ops fits lf l =
        Leaves-bind (length ops) (length ops) _ (and_expression-Leaves lexed ops fits l)
          (λ value ops' l'. elim (Bool-cases (is_token or (lex (rest_of ops')).token)) [
            | inr e ↦ rw (or_loop, e) (left l')
            | inl e ↦
                let s = behind_operator ops' (or-end (lex (rest_of ops')).token e) in
                rw (or_loop, e)
                  (Leaves-weaken (length (rest_of (rest_of ops'))) (length ops)
                    (omega (arith, s, l'))
                    (or_loop-Leaves f (result || value) (lex (rest_of (rest_of ops')))
                      (rest_of (rest_of ops')) (lex-Fits (rest_of (rest_of ops')))
                      (omega (arith, s, l', lf)) (omega (arith, s, l', l))))
          ])

  pub or_expression-Sound : (f : ℕ) → Sound f (or_expression host f)
  unfolding or_expression
  or_expression-Sound zero lexed ops fits l = absurd (omega (arith, l))
  or_expression-Sound (suc f) lexed ops fits l =
      or_loop-Leaves f (or_expression host f) (or_expression-Sound f) (suc (length ops)) false lexed
        ops fits (omega arith) l
