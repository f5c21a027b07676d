-- ===== src/Hsh/Test/Total.antt =====
-- src/components/BuiltinCommands/commands/hsh/HshBuiltinTest.cpp always comes to a status.
use haisos.Common.{
  ℕ, suc, ◌≤◌, Bool, true, false, ◌&&◌, ◌||◌, Option, none, some, List, [], ◌∷◌, ◌≡◌, ◌⊎◌, inl, inr,
  refl, ◌==◌, if◌then◌else◌, Bytes, length, bytes_eq, codes, arith, Bool-cases,
}
use haisos.Common.Outcome.{Result}
use haisos.Hsh.Test.Table.{Lexed, lex}
use haisos.Hsh.Test.Primaries.{TestHost, TestError}
use haisos.Hsh.Test.Command.{
  operand_token, evaluate, leftover, reduction, Reduction, negated, evaluated, run_loop, run,
  builtin_test, caught, Report, missing_bracket, in_expression, status, is_bracket, last_word,
  drop_last,
}
use haisos.Hsh.Test.Leaves.{Returns, returned, raised, ending, Fits, lex-Fits}
use haisos.Hsh.Test.Rounds.{or_expression-Sound}

-- A status that is a report's just where it is 2, and that is 0 or 1 otherwise.
abbrev pub HasStatus : Option (ℕ × Option Report) → Type 0
HasStatus r =
    ((s : ℕ) × (s ≤ 1) × (r ≡ some (s, none))) ⊎ ((report : Report) × (r ≡ some (2, some report)))

module _ (host : TestHost) where
  leftover-Returns :
      (result value : Bool) (ops : List Bytes) → Returns (leftover result (value, ops))
  leftover-Returns result value [] = returned
  leftover-Returns result value (word ∷ []) = returned
  leftover-Returns result value (word ∷ next ∷ rest) = raised

  evaluate-Returns :
      (result : Bool) (lexed : Lexed) (ops : List Bytes)
      → Fits lexed ops
      → Returns (evaluate host result lexed ops)
  unfolding evaluate
  evaluate-Returns result lexed ops fits =
      ending (length ops) _
        (or_expression-Sound host (suc (length ops)) lexed ops fits (omega arith))
        (λ value ops' l. leftover-Returns result value ops')

  -- What a reduction evaluates starts with the token that stands there.
  abbrev FitsIn : Reduction → Type 0
  FitsIn negated = true ≡ true
  FitsIn (evaluated lexed ops) = Fits lexed ops

  lex-FitsIn : (ops : List Bytes) → FitsIn (evaluated (lex ops) ops)
  lex-FitsIn ops = lex-Fits ops

  reduction-FitsIn : (word : Bytes) (rest : List Bytes) → FitsIn (reduction word rest)
  reduction-FitsIn word rest = elim (Bool-cases (operand_token (word ∷ rest))) [
    | inl e ↦ rw e (λ g. omega arith)
    | inr e ↦ rw e (elim (Bool-cases (length (word ∷ rest) == 3 || length (word ∷ rest) == 4)) [
      | inr n ↦ rw n (lex-FitsIn (word ∷ rest))
      | inl n ↦
          rw n
            (elim (Bool-cases
              (bytes_eq word (codes "(") && bytes_eq (last_word word rest) (codes ")"))) [
                | inl p ↦ rw p (lex-FitsIn (drop_last rest))
                | inr p ↦ rw p (elim (Bool-cases (bytes_eq word (codes "!"))) [
                  | inl q ↦ rw q refl
                  | inr q ↦ rw q (lex-FitsIn (word ∷ rest))
                ])
              ])
    ])
  ]

  round-Returns :
      (result : Bool) (rest : List Bytes) (r : Reduction)
      → FitsIn r
      → Returns (run_loop host false rest)
      → Returns (elim r [
        | negated ↦ run_loop host false rest
        | evaluated lexed ops ↦ evaluate host result lexed ops
      ])
  round-Returns result rest negated fits h = h
  round-Returns result rest (evaluated lexed ops) fits h = evaluate-Returns result lexed ops fits

  run_loop-Returns : (result : Bool) (ops : List Bytes) → Returns (run_loop host result ops)
  unfolding run_loop
  run_loop-Returns result [] = returned
  run_loop-Returns result (word ∷ rest) =
      round-Returns result rest (reduction word rest) (reduction-FitsIn word rest)
        (run_loop-Returns false rest)

  status-le : (result : Bool) → status result ≤ 1
  status-le true = omega arith
  status-le false = omega arith

  caught-HasStatus : {r : Result TestError Bool} → Returns r → HasStatus (caught r)
  caught-HasStatus (returned {a = result}) = inl (status result, status-le result, refl)
  caught-HasStatus (raised {e}) = inr (in_expression e, refl)

  bracket-HasStatus :
      (args : List Bytes)
      → HasStatus (elim args [
        | [] ↦ some (2, some missing_bracket)
        | word ∷ rest ↦
            if is_bracket (last_word word rest)
            then caught (run host (drop_last (word ∷ rest)))
            else some (2, some missing_bracket)
      ])
  unfolding run
  bracket-HasStatus [] = inr (missing_bracket, refl)
  bracket-HasStatus (word ∷ rest) = elim (Bool-cases (is_bracket (last_word word rest))) [
    | inl e ↦ rw e (caught-HasStatus (run_loop-Returns true (drop_last (word ∷ rest))))
    | inr e ↦ rw e (inr (missing_bracket, refl))
  ]

  -- Whatever the operands, test and [ end with status 0 or 1 and report nothing, or report one error and end
  -- with status 2.
  pub builtin_test-HasStatus :
      (command : Bytes) (args : List Bytes) → HasStatus (builtin_test host command args)
  unfolding builtin_test run
  builtin_test-HasStatus command args = elim (Bool-cases (bytes_eq command (codes "["))) [
    | inr e ↦ rw e (caught-HasStatus (run_loop-Returns true args))
    | inl e ↦ rw e (bracket-HasStatus args)
  ]
