-- ===== src/Hsh/Number.antt =====
-- src/components/BuiltinCommands/commands/hsh/HshNumber.cpp: the text of a number, as an intmax_t of 64 bits.
-- A position in the text is the rest of the text from it on.
pub mod Decimal
mod Examples
use haisos.Common.{
  ℕ, suc, zero, ◌+◌, ◌-◌, ◌*◌, ◌/◌, ◌^◌, Bool, true, false, not, ◌||◌, Option, none, some, List, [],
  ◌∷◌, ◌==◌, ltb, if◌then◌else◌, Bytes, is_empty,
}
use haisos.Hsh.Bracket.{is_digit, between}

-- Integers.
pub data ℤ : Type 0 where
  pos : ℕ → ℤ
  negsuc : ℕ → ℤ

-- IsBlank.
abbrev pub is_blank : ℕ → Bool
is_blank c = c == 32 || between 9 13 c

-- find_first_not_of, and the loop over the blanks at the end.
unfoldable pub skip_blanks : Bytes → Bytes
skip_blanks [] = []
skip_blanks (c ∷ s) = let rest = skip_blanks s in if is_blank c then rest else c ∷ s

-- The sign, and what is behind it.
abbrev pub take_sign : Bytes → Bool × Bytes
take_sign [] = (false, [])
take_sign (c ∷ s) = if c == b'-' || c == b'+' then (c == b'-', s) else (false, c ∷ s)

abbrev pub starts_with_digit : Bytes → Bool
starts_with_digit [] = false
starts_with_digit (c ∷ s) = is_digit c

-- std::numeric_limits<intmax_t>::max().
unfoldable pub int_max : ℕ
int_max = 2 ^ 63 - 1

abbrev pub limit_of : Bool → ℕ
limit_of negative = int_max + (if negative then 1 else 0)

-- A round of the loop over the digits: the value and the overflow.
unfoldable pub digit_round : ℕ → ℕ → ℕ → Bool → ℕ × Bool
digit_round limit digit value overflow =
    if ltb ((limit - digit) / 10) value
    then (value, true)
    else if not overflow
    then (value * 10 + digit, overflow)
    else (value, overflow)

-- The loop, with the text behind the digits.
unfoldable pub digits_loop : ℕ → Bytes → ℕ → Bool → ℕ × Bool × Bytes
unfolding digit_round
digits_loop limit [] value overflow = (value, overflow, [])
digits_loop limit (c ∷ s) value overflow =
    let (v, o) = digit_round limit (c - b'0') value overflow in
    let rest = digits_loop limit s v o in if is_digit c then rest else (value, overflow, c ∷ s)

-- The last lines: a magnitude above INTMAX_MAX is that of INTMAX_MIN.
abbrev pub negated : ℕ → ℤ
negated zero = pos zero
negated (suc n) = negsuc n

unfoldable pub signed : Bool → ℕ → ℤ
signed negative value =
    if negative then (if ltb int_max value then negsuc int_max else negated value) else pos value

-- What Atomax10 returns after the digits.
abbrev pub number_of : Bool → ℕ × Bool × Bytes → Option ℤ
number_of negative (value, overflow, rest) =
    if overflow
    then none
    else if not (is_empty (skip_blanks rest))
    then none
    else some (signed negative value)

-- Atomax10.
unfoldable pub atomax10 : Bytes → Option ℤ
atomax10 text =
    let start = skip_blanks text in
    let (negative, digits) = take_sign start in
    if is_empty start
    then none
    else if not (starts_with_digit digits)
    then none
    else number_of negative (digits_loop (limit_of negative) digits 0 false)
