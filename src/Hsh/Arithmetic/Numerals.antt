-- ===== src/Hsh/Arithmetic/Numerals.antt =====
-- The numbers that src/components/BuiltinCommands/commands/hsh/HshArithmetic.cpp has the C library read and write:
-- strtoimax with base 0, and std::to_string.
use mathlib.Core.Option
use haisos.Common.{
  ℕ, suc, zero, ◌+◌, ◌-◌, ◌*◌, ◌/◌, ◌%◌, Bool, true, false, not, ◌&&◌, ◌||◌, Option, none, some, [],
  ◌∷◌, ◌++◌, ◌==◌, ltb, if◌then◌else◌, Bytes,
}
use haisos.Hsh.Number.{ℤ, pos, negsuc, take_sign}
use haisos.Hsh.Bracket.{is_digit, between}
use haisos.Hsh.Arithmetic.Word.{half, minus}

-- isspace of the C locale, which strtoimax skips.
abbrev pub skip_spaces : Bytes → Bytes
skip_spaces [] = []
skip_spaces (c ∷ s) = let rest = skip_spaces s in if c == 32 || between 9 13 c then rest else c ∷ s

-- The value of a digit, `none` for no digit of any base.
abbrev pub digit_value : ℕ → Option ℕ
digit_value c =
    if is_digit c
    then some (c - b'0')
    else if between b'a' b'z' c
    then some (c - b'a' + 10)
    else if between b'A' b'Z' c
    then some (c - b'A' + 10)
    else none

abbrev pub below_base : ℕ → Option ℕ → Option ℕ
below_base base none = none
below_base base (some d) = if ltb d base then some d else none

-- The value of the digits that a text starts with, on from a value, and the rest.
unfoldable pub read_digits : ℕ → ℕ → Bytes → ℕ × Bytes
read_digits base value [] = (value, [])
read_digits base value (c ∷ s) = elim (below_base base (digit_value c)) [
  | none ↦ (value, c ∷ s)
  | some d ↦ read_digits base (value * base + d) s
]

abbrev pub starts_digit : ℕ → Bytes → Bool
starts_digit base [] = false
starts_digit base (c ∷ s) = elim (below_base base (digit_value c)) [ none ↦ false | some d ↦ true ]

-- What follows an "x" that a hexadecimal digit follows.
abbrev pub after_x : Bytes → Option Bytes
after_x [] = none
after_x (c ∷ s) = if (c == b'x' || c == b'X') && starts_digit 16 s then some s else none

-- The number in base 16, 8 or 10, as its prefix says, with the rest; `none` where there is no digit.
unfoldable pub read_magnitude : Bytes → Option (ℕ × Bytes)
unfolding read_digits
read_magnitude [] = none
read_magnitude (c ∷ s) =
    if not (is_digit c)
    then none
    else if c == b'0'
    then (elim (after_x s) [
      | none ↦ some (read_digits 8 0 s)
      | some hex ↦ some (read_digits 16 0 hex)
    ])
    else some (read_digits 10 0 (c ∷ s))

-- A number out of range is the nearest one in range.
abbrev pub saturated : Bool → ℕ → ℤ
saturated true n = if ltb half n then negsuc (half - 1) else minus n
saturated false n = if ltb n half then pos n else pos (half - 1)

-- strtoimax with base 0: the number and what is behind it, `none` for end == start.
unfoldable pub strtoimax : Bytes → Option (ℤ × Bytes)
strtoimax text =
    let (negative, digits) = take_sign (skip_spaces text) in
    Option.map (λ (m, rest). (saturated negative m, rest)) (read_magnitude digits)

-- std::to_string. A number has fewer digits than it counts, so `suc n` rounds are enough.
unfoldable pub digits_of : ℕ → ℕ → Bytes
digits_of zero n = []
digits_of (suc f) n =
    let front = digits_of f (n / 10) in
    if ltb n 10 then (b'0' + n) ∷ [] else front ++ (b'0' + n % 10) ∷ []

unfoldable pub to_string : ℤ → Bytes
unfolding digits_of
to_string (pos n) = digits_of (suc n) n
to_string (negsuc n) = b'-' ∷ digits_of (suc (suc n)) (suc n)
