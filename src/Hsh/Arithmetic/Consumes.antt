-- ===== src/Hsh/Arithmetic/Consumes.antt =====
-- Tokenize of src/components/BuiltinCommands/commands/hsh/HshArithmetic.cpp ends: every round takes a byte.
use mathlib.Core.Option
use haisos.Common.{
  ℕ, suc, zero, ◌+◌, ◌-◌, ◌*◌, ◌≤◌, ◌<◌, Bool, true, false, ◌||◌, ◌≡◌, refl, ap, Option, none, some,
  List, [], ◌∷◌, ◌==◌, inl, inr, arith, Bytes, length, if_cases, Bool-cases, Option-cases,
}
use haisos.Hsh.Number.{take_sign}
use haisos.Hsh.Bracket.{is_alpha, is_digit, between}
use haisos.Hsh.Arithmetic.Numerals.{
  skip_spaces, digit_value, below_base, read_digits, after_x, read_magnitude, saturated, strtoimax,
}
use haisos.Hsh.Arithmetic.Token.{
  Token, is_blank, is_name_byte, take_name, three_byte_token, two_byte_token, one_byte_token,
  operator_round, number_round, token_round, prepend, tokenize_loop, tokenize,
}

read_none :
    (base value c : ℕ) (s : Bytes)
    → below_base base (digit_value c) ≡ none
    → read_digits base value (c ∷ s) ≡ (value, c ∷ s)
unfolding read_digits
read_none base value c s e = rw (e, read_digits) refl

read_some :
    (base value c d : ℕ) (s : Bytes)
    → below_base base (digit_value c) ≡ some d
    → read_digits base value (c ∷ s) ≡ read_digits base (value * base + d) s
unfolding read_digits
read_some base value c d s e = rw (e, read_digits) refl

read_digits-Shrinks : (base value : ℕ) (s : Bytes) → length (read_digits base value s).1 ≤ length s
unfolding read_digits
read_digits-Shrinks base value [] = omega arith
read_digits-Shrinks base value (c ∷ s) = elim (Option-cases (below_base base (digit_value c))) [
  | inl e ↦ let k = read_none base value c s e in rw (ap (λ x. length x.1) k) (omega arith)
  | inr (d, e) ↦
      let k = read_digits-Shrinks base (value * base + d) s in
      rw (ap (λ x. length x.1) (read_some base value c d s e)) (omega (arith, k))
]

-- What a number was read to leaves, if there was one.
abbrev Shorter : ℕ → Option (ℕ × Bytes) → Type 0
Shorter n none = Unit
Shorter n (some (a, rest)) = length rest < n

digit-below_base : (c : ℕ) → is_digit c ≡ true → below_base 10 (digit_value c) ≡ some (c - b'0')
digit-below_base c h = ground arith

after_x-Shrinks : (s hex : Bytes) → after_x s ≡ some hex → length hex ≤ length s
after_x-Shrinks [] hex e = cc
after_x-Shrinks (c ∷ s) hex e = ground arith

read_magnitude-Shorter : (s : Bytes) → Shorter (length s) (read_magnitude s)
unfolding read_magnitude read_digits
read_magnitude-Shorter [] = tt
read_magnitude-Shorter (c ∷ s) = elim (Bool-cases (is_digit c)) [
  | inl d ↦ rw d (
      if_cases (Shorter (suc (length s))) (c == b'0') _ _
        (λ _. hexadecimal (after_x s) (after_x-Shrinks s))
        (λ _.
          let k = read_digits-Shrinks 10 (0 * 10 + (c - b'0')) s in
          let l = ap (λ x. length x.1) (read_some 10 0 c (c - b'0') s (digit-below_base c d)) in
          omega (arith, k, l)))
  | inr d ↦ rw d tt
]
  where
    hexadecimal :
        (o : Option Bytes)
        → ((hex : Bytes) → o ≡ some hex → length hex ≤ length s)
        → Shorter
            (suc (length s))
            (elim o [ none ↦ some (read_digits 8 0 s) | some hex ↦ some (read_digits 16 0 hex) ])
    hexadecimal none h = let k = read_digits-Shrinks 8 0 s in omega (arith, k)
    hexadecimal (some hex) h =
        let k = read_digits-Shrinks 16 0 hex in let l = h hex refl in omega (arith, k, l)

skip_spaces-Shrinks : (s : Bytes) → length (skip_spaces s) ≤ length s
skip_spaces-Shrinks [] = omega arith
skip_spaces-Shrinks (c ∷ s) =
    if_cases (λ r. length r ≤ suc (length s)) (c == 32 || between 9 13 c) _ _
      (λ _. let k = skip_spaces-Shrinks s in omega (arith, k)) (λ _. omega arith)

take_sign-Shrinks : (s : Bytes) → length (take_sign s).1 ≤ length s
take_sign-Shrinks [] = omega arith
take_sign-Shrinks (c ∷ s) =
    if_cases (λ (r : Bool × Bytes). length r.1 ≤ suc (length s)) (c == b'-' || c == b'+') _ _
      (λ _. omega arith) (λ _. omega arith)

number_round-Shrinks :
    (n : ℕ) (after : Bytes) (negative : Bool) (o : Option (ℕ × Bytes))
    → length after ≤ n
    → Shorter (suc n) o
    → length (number_round after (Option.map (λ (m, rest). (saturated negative m, rest)) o)).1 ≤ n
number_round-Shrinks n after negative none h k = h
number_round-Shrinks n after negative (some (m, rest)) h k = omega (arith, k)

Shorter-weaken : (m n : ℕ) (o : Option (ℕ × Bytes)) → m ≤ n → Shorter m o → Shorter n o
Shorter-weaken m n none h k = tt
Shorter-weaken m n (some (a, rest)) h k = omega (arith, h, k)

strtoimax-Shrinks : (c : ℕ) (s : Bytes) → length (number_round s (strtoimax (c ∷ s))).1 ≤ length s
unfolding strtoimax
strtoimax-Shrinks c s =
    let text = skip_spaces (c ∷ s) in
    let (negative, digits) = take_sign text in
    let k = skip_spaces-Shrinks (c ∷ s) in
    let l = take_sign-Shrinks text in
    number_round-Shrinks (length s) s negative (read_magnitude digits) (omega arith) (
      Shorter-weaken (length digits) (suc (length s)) (read_magnitude digits) (omega (arith, k, l))
        (read_magnitude-Shorter digits))

take_name-Shrinks : (s : Bytes) → length (take_name s).1 ≤ length s
unfolding take_name
take_name-Shrinks [] = omega arith
take_name-Shrinks (c ∷ s) =
    if_cases (λ (r : Bytes × Bytes). length r.1 ≤ suc (length s)) (is_name_byte c) _ _
      (λ _. let k = take_name-Shrinks s in omega (arith, k)) (λ _. omega arith)

name_start : (c : ℕ) → (is_alpha c || c == b'_') ≡ true → is_name_byte c ≡ true
name_start c h = ground arith

-- A byte that starts a name is one of it.
take_name-Takes :
    (c : ℕ) (s : Bytes) → (is_alpha c || c == b'_') ≡ true → length (take_name (c ∷ s)).1 ≤ length s
unfolding take_name
take_name-Takes c s h =
    let k = take_name-Shrinks s in let e : is_name_byte c ≡ true = name_start c h in rw e k

operator_round-Shrinks : (c : ℕ) (s : Bytes) → length (operator_round c s).1 ≤ length s
unfolding operator_round
operator_round-Shrinks c [] = omega arith
operator_round-Shrinks c (d ∷ []) = elim (Option-cases (two_byte_token c d)) [
  | inl e ↦ rw (e, operator_round) (omega arith)
  | inr (t, e) ↦ rw (e, operator_round) (omega arith)
]
operator_round-Shrinks c (d ∷ e ∷ s) = longest (three_byte_token c d e) (two_byte_token c d)
  where
    longest :
        (three two : Option Token)
        → length
            (elim three as (λ _. Token × Bytes) [
              | some t ↦ (t, s)
              | none ↦ elim two as (λ _. Token × Bytes) [
                | some t ↦ (t, e ∷ s)
                | none ↦ (one_byte_token c, d ∷ e ∷ s)
              ]
            ]).1
          ≤ suc (suc (length s))
    longest (some t) two = omega arith
    longest none (some t) = omega arith
    longest none none = omega arith

token_round-Shrinks : (c : ℕ) (s : Bytes) → length (token_round c s).1 ≤ length s
unfolding token_round
token_round-Shrinks c s =
    if_cases (λ (r : Token × Bytes). length r.1 ≤ length s) (is_digit c) _ _
      (λ _. strtoimax-Shrinks c s)
      (λ _.
        if_cases (λ (r : Token × Bytes). length r.1 ≤ length s) (is_alpha c || c == b'_') _ _
          (take_name-Takes c s) (λ _. operator_round-Shrinks c s))

prepend-some :
    (t : Token) (o : Option (List Token))
    → ((tokens : List Token) × (o ≡ some tokens))
    → (tokens : List Token) × (prepend t o ≡ some tokens)
prepend-some t o (tokens, e) = (t ∷ tokens, rw e refl)

tokenize_loop-ends :
    (f : ℕ) (s : Bytes) → length s < f → (tokens : List Token) × (tokenize_loop f s ≡ some tokens)
unfolding tokenize_loop
tokenize_loop-ends zero s h = absurd (omega arith)
tokenize_loop-ends (suc f) [] h = (_, refl)
tokenize_loop-ends (suc f) (c ∷ s) h =
    let (t, rest) = token_round c s in
    let k = token_round-Shrinks c s in
    blank_or (is_blank c) (tokenize_loop-ends f s (omega arith))
      (prepend-some t (tokenize_loop f rest) (tokenize_loop-ends f rest (omega (arith, k))))
  where
    blank_or :
        (b : Bool)
        → ((tokens : List Token) × (tokenize_loop f s ≡ some tokens))
        → ((tokens : List Token) × (prepend
                (token_round c s).0
                (tokenize_loop f (token_round c s).1)
              ≡ some tokens))
        → (tokens : List Token) × ((elim b as (λ _. Option (List Token)) [
          | true ↦ tokenize_loop f s
          | false ↦ prepend (token_round c s).0 (tokenize_loop f (token_round c s).1)
        ])
            ≡ some tokens)
    blank_or true x y = x
    blank_or false x y = y

-- Tokenize ends for every text.
pub tokenize-ends : (s : Bytes) → (tokens : List Token) × (tokenize s ≡ some tokens)
unfolding tokenize
tokenize-ends s = tokenize_loop-ends (suc (length s)) s (omega arith)
