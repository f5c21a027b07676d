-- ===== src/Hsh/Number/Decimal.antt =====
-- Atomax10 of src/components/BuiltinCommands/commands/hsh/HshNumber.cpp reads decimal numbers.
use haisos.Common.{
  ℕ, ◌+◌, ◌-◌, ◌*◌, ◌/◌, ◌≤◌, ◌<◌, Bool, true, false, ◌&&◌, none, some, [], ◌∷◌, ◌++◌, ◌≡◌, refl,
  ◌∙◌, inl, inr, ltb, leb, if◌then◌else◌, Bytes, is_empty, arith, Bool-cases, leb→le,
}
use haisos.Hsh.Bracket.{is_digit}
use haisos.Hsh.Number.{
  is_blank, skip_blanks, take_sign, int_max, limit_of, digit_round, digits_loop, signed, atomax10,
  number_of,
}

-- The number that digits write, behind those of a value.
abbrev pub decimal : ℕ → Bytes → ℕ
decimal value [] = value
decimal value (c ∷ s) = decimal (value * 10 + (c - b'0')) s

abbrev pub all_digits : Bytes → Bool
all_digits [] = true
all_digits (c ∷ s) = is_digit c && all_digits s

abbrev pub all_blank : Bytes → Bool
all_blank [] = true
all_blank (c ∷ s) = is_blank c && all_blank s

decimal-le : (ds : Bytes) (value : ℕ) → value ≤ decimal value ds
decimal-le [] value = omega arith
decimal-le (c ∷ ds) value = omega (arith, decimal-le ds (value * 10 + (c - b'0')))

skip_blanks-blank : (bs : Bytes) → all_blank bs ≡ true → skip_blanks bs ≡ []
unfolding skip_blanks
skip_blanks-blank [] h = refl
skip_blanks-blank (b ∷ bs) h = ground (arith, skip_blanks-blank bs)

skip_blanks-append : (bs s : Bytes) → all_blank bs ≡ true → skip_blanks (bs ++ s) ≡ skip_blanks s
unfolding skip_blanks
skip_blanks-append [] s h = refl
skip_blanks-append (b ∷ bs) s h = ground (arith, skip_blanks-append bs s)

-- The loop once it has overflowed.
loop_overflowed :
    (limit value : ℕ) (ds bs : Bytes)
    → all_digits ds ≡ true
    → all_blank bs ≡ true
    → (digits_loop limit (ds ++ bs) value true).1 ≡ true
unfolding digits_loop digit_round
loop_overflowed limit value [] [] h b = refl
loop_overflowed limit value [] (c ∷ bs) h b = ground arith
loop_overflowed limit value (d ∷ ds) bs h b = ground (arith, loop_overflowed limit value ds bs)

-- What the loop answers for a number within the limit.
loop_within :
    (limit value : ℕ) (ds bs : Bytes)
    → all_digits ds ≡ true
    → all_blank bs ≡ true
    → decimal value ds ≤ limit
    → digits_loop limit (ds ++ bs) value false ≡ (decimal value ds, false, bs)
unfolding digits_loop digit_round
loop_within limit value [] [] h b small = refl
loop_within limit value [] (c ∷ bs) h b small = ground arith
loop_within limit value (d ∷ ds) bs h b small = ground (
  arith,
  small,
  decimal-le ds (value * 10 + (d - b'0')),
  loop_within limit (value * 10 + (d - b'0')) ds bs,
)

-- And for one beyond it.
loop_beyond :
    (limit value : ℕ) (ds bs : Bytes)
    → all_digits ds ≡ true
    → all_blank bs ≡ true
    → 9 ≤ limit
    → value ≤ limit
    → limit < decimal value ds
    → (digits_loop limit (ds ++ bs) value false).1 ≡ true
unfolding digits_loop digit_round
loop_beyond limit value [] bs h b nine fits big = absurd (omega (arith, fits, big))
loop_beyond limit value (d ∷ ds) bs h b nine fits big =
    elim (Bool-cases (ltb ((limit - (d - b'0')) / 10) value)) [
      | inl over ↦ ground (arith, h, over, loop_overflowed limit value ds bs)
      | inr room ↦ ground (arith, h, room, loop_beyond limit (value * 10 + (d - b'0')) ds bs)
    ]

-- The signs that a number may have.
pub data Sign : Type 0 where
  unsigned plus minus : Sign

abbrev pub sign_text : Sign → Bytes
sign_text unsigned = []
sign_text plus = b'+' ∷ []
sign_text minus = b'-' ∷ []

abbrev pub is_minus : Sign → Bool
is_minus unsigned = false
is_minus plus = false
is_minus minus = true

nine_le : (negative : Bool) → 9 ≤ limit_of negative
unfolding int_max
nine_le true = omega arith
nine_le false = omega arith

-- The start of the number is no blank, and its sign is read off.
skip_blanks-sign :
    (sign : Sign) (d : ℕ) (s : Bytes)
    → is_digit d ≡ true
    → skip_blanks (sign_text sign ++ d ∷ s) ≡ sign_text sign ++ d ∷ s
unfolding skip_blanks
skip_blanks-sign unsigned d s h = ground arith
skip_blanks-sign plus d s h = refl
skip_blanks-sign minus d s h = refl

take_sign-text :
    (sign : Sign) (d : ℕ) (s : Bytes)
    → is_digit d ≡ true
    → take_sign (sign_text sign ++ d ∷ s) ≡ (is_minus sign, d ∷ s)
take_sign-text unsigned d s h = ground arith
take_sign-text plus d s h = refl
take_sign-text minus d s h = refl

not_empty : (sign : Sign) (d : ℕ) (s : Bytes) → is_empty (sign_text sign ++ d ∷ s) ≡ false
not_empty unsigned d s = refl
not_empty plus d s = refl
not_empty minus d s = refl

-- What is returned after the digits of a number.
number_of-decimal :
    (negative : Bool) (ds after : Bytes)
    → all_digits ds ≡ true
    → all_blank after ≡ true
    → number_of negative (digits_loop (limit_of negative) (ds ++ after) 0 false) ≡ (
        if leb (decimal 0 ds) (limit_of negative)
        then some (signed negative (decimal 0 ds))
        else none)
number_of-decimal negative ds after digits end =
    elim (Bool-cases (leb (decimal 0 ds) (limit_of negative))) [
      | inl small ↦
          let small_le = leb→le (decimal 0 ds) (limit_of negative) small in
          rw (loop_within (limit_of negative) 0 ds after digits end small_le)
            (rw (small, skip_blanks-blank after end) refl)
      | inr large ↦
          let beyond =
            loop_beyond (limit_of negative) 0 ds after digits end (nine_le negative) (omega arith)
              (ground (arith, large)) in
          rw large (rw beyond refl)
    ]

-- A decimal number, blanks and a sign before it and blanks behind it, is read as what its digits write,
-- where that is not beyond INTMAX_MAX, or for a negative one INTMAX_MIN; beyond it, it is refused.
pub atomax10-decimal :
    (before after : Bytes) (sign : Sign) (d : ℕ) (ds : Bytes)
    → all_blank before ≡ true
    → all_blank after ≡ true
    → all_digits (d ∷ ds) ≡ true
    → atomax10 (before ++ (sign_text sign ++ (d ∷ (ds ++ after)))) ≡ (
        if leb (decimal 0 (d ∷ ds)) (limit_of (is_minus sign))
        then some (signed (is_minus sign) (decimal 0 (d ∷ ds)))
        else none)
unfolding atomax10
atomax10-decimal before after sign d ds blank end digits =
    let first : is_digit d ≡ true = ground (arith, digits) in
    let limit = limit_of (is_minus sign) in
    let start =
      skip_blanks-append before (sign_text sign ++ (d ∷ (ds ++ after))) blank
      ∙ skip_blanks-sign sign d (ds ++ after) first in
    rw (start, take_sign-text sign d (ds ++ after) first, not_empty sign d (ds ++ after), first)
      (number_of-decimal (is_minus sign) (d ∷ ds) after digits end)
