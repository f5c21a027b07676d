-- ===== src/Hsh/Arithmetic/Word.antt =====
-- src/components/BuiltinCommands/commands/hsh/HshArithmetic.cpp: the operations on an intmax_t of 64
-- bits, which go by way of uintmax_t.
use Prim.Native.Nat.{bit_and, bit_or, bit_xor}
use haisos.Common.{
  ℕ, suc, zero, ◌+◌, ◌-◌, ◌*◌, ◌/◌, ◌%◌, ◌^◌, ◌<◌, Bool, true, false, not, ◌&&◌, ◌==◌, ltb,
  if◌then◌else◌,
}
use haisos.Hsh.Number.{ℤ, pos, negsuc}

-- 2 to the 64th and to the 63rd.
abbrev pub modulus : ℕ
modulus = 18446744073709551616

abbrev pub half : ℕ
half = 9223372036854775808

-- What an intmax_t holds.
abbrev pub InRange : ℤ → Type 0
InRange (pos n) = n < half
InRange (negsuc n) = n < half

-- U and S.
abbrev pub to_unsigned : ℤ → ℕ
to_unsigned (pos n) = n % modulus
to_unsigned (negsuc n) = modulus - 1 - n % modulus

abbrev pub to_signed : ℕ → ℤ
to_signed w = if ltb w half then pos w else negsuc (modulus - 1 - w)

unfoldable pub add : ℤ → ℤ → ℤ
add a b = to_signed ((to_unsigned a + to_unsigned b) % modulus)

unfoldable pub sub : ℤ → ℤ → ℤ
sub a b = to_signed ((to_unsigned a + modulus - to_unsigned b) % modulus)

unfoldable pub mul : ℤ → ℤ → ℤ
mul a b = to_signed (to_unsigned a * to_unsigned b % modulus)

unfoldable pub neg : ℤ → ℤ
neg a = to_signed ((modulus - to_unsigned a) % modulus)

unfoldable pub bit_not : ℤ → ℤ
bit_not a = to_signed (modulus - 1 - to_unsigned a)

unfoldable pub word_and : ℤ → ℤ → ℤ
word_and a b = to_signed (bit_and (to_unsigned a) (to_unsigned b))

unfoldable pub word_xor : ℤ → ℤ → ℤ
word_xor a b = to_signed (bit_xor (to_unsigned a) (to_unsigned b))

unfoldable pub word_or : ℤ → ℤ → ℤ
word_or a b = to_signed (bit_or (to_unsigned a) (to_unsigned b))

unfoldable pub shift_left : ℤ → ℤ → ℤ
shift_left a b = to_signed (to_unsigned a * 2 ^ (to_unsigned b % 64) % modulus)

abbrev pub is_negative : ℤ → Bool
is_negative (pos n) = false
is_negative (negsuc n) = true

-- ShiftRight; the bits that come in are those of `~uintmax_t{0} << (64 - count)`.
unfoldable pub shift_right : ℤ → ℤ → ℤ
shift_right a b =
    let shifts = to_unsigned b % 64 in
    let r = to_unsigned a / 2 ^ shifts in
    if shifts == 0
    then a
    else if is_negative a
    then to_signed (bit_or r ((modulus - 1) * 2 ^ (64 - shifts) % modulus))
    else to_signed r

-- The magnitude, and a magnitude with a sign.
abbrev pub magnitude : ℤ → ℕ
magnitude (pos n) = n
magnitude (negsuc n) = suc n

abbrev pub minus : ℕ → ℤ
minus zero = pos 0
minus (suc n) = negsuc n

-- C++'s a / b and a % b, which truncate.
abbrev pub quotient : ℤ → ℤ → ℤ
quotient (pos a) (pos b) = pos (a / b)
quotient (pos a) (negsuc b) = minus (a / suc b)
quotient (negsuc a) (pos b) = minus (suc a / b)
quotient (negsuc a) (negsuc b) = pos (suc a / suc b)

abbrev pub remainder : ℤ → ℤ → ℤ
remainder (pos a) b = pos (a % magnitude b)
remainder (negsuc a) b = minus (suc a % magnitude b)

-- a == INTMAX_MIN && b == -1.
abbrev pub overflows : ℤ → ℤ → Bool
overflows (negsuc a) (negsuc b) = suc a == half && b == 0
overflows _ _ = false

unfoldable pub div : ℤ → ℤ → ℤ
div a b = if overflows a b then negsuc (half - 1) else quotient a b

unfoldable pub modulo : ℤ → ℤ → ℤ
modulo a b = if overflows a b then pos 0 else remainder a b

-- The comparisons of an intmax_t.
abbrev pub eq_ℤ : ℤ → ℤ → Bool
eq_ℤ (pos a) (pos b) = a == b
eq_ℤ (negsuc a) (negsuc b) = a == b
eq_ℤ _ _ = false

abbrev pub lt_ℤ : ℤ → ℤ → Bool
lt_ℤ (pos a) (pos b) = ltb a b
lt_ℤ (pos a) (negsuc b) = false
lt_ℤ (negsuc a) (pos b) = true
lt_ℤ (negsuc a) (negsuc b) = ltb b a

-- value != 0, and a bool as an intmax_t.
abbrev pub is_nonzero : ℤ → Bool
is_nonzero v = not (eq_ℤ v (pos 0))

abbrev pub of_bool : Bool → ℤ
of_bool true = pos 1
of_bool false = pos 0
