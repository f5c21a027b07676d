-- ===== src/Hsh/Arithmetic/Wrapping.antt =====
-- The word operations of src/components/BuiltinCommands/commands/hsh/HshArithmetic.cpp against the
-- integers.
use haisos.Common.{
  ℕ, suc, zero, ◌+◌, ◌*◌, ◌/◌, ◌%◌, ◌≤◌, ◌<◌, false, ◌&&◌, ◌==◌, ◌≡◌, ◌≢◌, ◌⊎◌, refl, arith,
}
use native.Mathlib.Nat.{mod-lt, div-le_self, mod-add-div'}
use haisos.Hsh.Number.{ℤ, pos, negsuc}
use haisos.Hsh.Arithmetic.Word.{
  modulus, half, InRange, to_unsigned, to_signed, add, sub, neg, div, modulo, overflows, minus,
  magnitude,
}

-- The sum of two integers, as the difference of what is above and below zero.
abbrev pub above : ℤ → ℕ
above (pos n) = n
above (negsuc n) = 0

abbrev pub below : ℤ → ℕ
below (pos n) = 0
below (negsuc n) = suc n

to_signed-InRange : (w : ℕ) → w < modulus → InRange (to_signed w)
to_signed-InRange w h = ground (arith, h)

pub to_signed-to_unsigned : (a : ℤ) → InRange a → to_signed (to_unsigned a) ≡ a
to_signed-to_unsigned (pos n) h = ground (arith, h)
to_signed-to_unsigned (negsuc n) h = ground (arith, h)

-- An intmax_t that is `up - down`, or that with 2 to the 64th taken off or put on.
abbrev pub Wraps : ℤ → ℕ → ℕ → Type 0
Wraps r up down =
    InRange r
    × ((above r + down ≡ below r + up)
        ⊎ (above r + down + modulus ≡ below r + up)
        ⊎ (above r + down ≡ below r + up + modulus))

add-Wraps :
    (a b : ℤ) → InRange a → InRange b → Wraps (add a b) (above a + above b) (below a + below b)
unfolding add
add-Wraps (pos a) (pos b) h k = ground (arith, h, k)
add-Wraps (pos a) (negsuc b) h k = ground (arith, h, k)
add-Wraps (negsuc a) (pos b) h k = ground (arith, h, k)
add-Wraps (negsuc a) (negsuc b) h k = ground (arith, h, k)

sub-Wraps :
    (a b : ℤ) → InRange a → InRange b → Wraps (sub a b) (above a + below b) (below a + above b)
unfolding sub
sub-Wraps (pos a) (pos b) h k = ground (arith, h, k)
sub-Wraps (pos a) (negsuc b) h k = ground (arith, h, k)
sub-Wraps (negsuc a) (pos b) h k = ground (arith, h, k)
sub-Wraps (negsuc a) (negsuc b) h k = ground (arith, h, k)

neg-Wraps : (a : ℤ) → InRange a → Wraps (neg a) (below a) (above a)
unfolding neg
neg-Wraps (pos a) h = ground (arith, h)
neg-Wraps (negsuc a) h = ground (arith, h)

-- Adding, subtracting and negating give an intmax_t that is the true result, or is off from it by 2 to
-- the 64th.
pub additive-Wraps :
    (a b : ℤ)
    → InRange a
    → InRange b
    → Wraps (add a b) (above a + above b) (below a + below b)
      × Wraps (sub a b) (above a + below b) (below a + above b)
      × Wraps (neg a) (below a) (above a)
additive-Wraps a b h k = (add-Wraps a b h k, sub-Wraps a b h k, neg-Wraps a h)

-- A quotient and a remainder put together: a is q times b and r, r has the sign of a, and is smaller
-- than b.
abbrev pub Divides : ℤ → ℤ → ℤ → ℤ → Type 0
Divides a b q r =
    (magnitude a ≡ magnitude q * magnitude b + magnitude r)
    × (magnitude r < magnitude b)
    × ((below a ≡ 0 → below r ≡ 0) × (above a ≡ 0 → above r ≡ 0))
    × (InRange q × InRange r)

magnitude-minus : (n : ℕ) → magnitude (minus n) ≡ n
magnitude-minus zero = refl
magnitude-minus (suc n) = refl

above-minus : (n : ℕ) → above (minus n) ≡ 0
above-minus zero = refl
above-minus (suc n) = refl

InRange-minus : (n : ℕ) → n ≤ half → InRange (minus n)
InRange-minus zero h = omega arith
InRange-minus (suc n) h = omega (arith, h)

-- Magnitudes divided.
magnitudes : (a b : ℕ) → 0 < b → (a ≡ a / b * b + a % b) × (a % b < b) × (a / b ≤ a) × (a % b ≤ a)
magnitudes a b h = (grind arith, mod-lt a h, div-le_self a b, grind (arith, div-le_self a b))

-- A quotient by two or more is at most a half.
halves : (a b : ℕ) → 2 ≤ b → a / b + a / b ≤ a
halves a b h = grind (arith, mod-add-div' a b)

not_zero : (b : ℕ) → pos b ≢ pos 0 → 0 < b
not_zero zero h = absurd (h refl)
not_zero (suc b) h = omega arith

-- The case of two negative numbers, unless it is that of the least number by -1.
negative_quotient : (a b : ℕ) → a < half → (suc a == half && b == 0) ≡ false → suc a / suc b < half
negative_quotient a zero h o =
    omega (arith, div-le_self (suc a) 1, let e : suc a ≢ half = ground (arith, o) in e)
negative_quotient a (suc b) h o = omega (arith, halves (suc a) (suc (suc b)) (omega arith), h)

-- Where the true quotient is in range, so unless the least number is divided by -1, a quotient and a
-- remainder make up the dividend, as those of C++ do.
pub div-Divides :
    (a b : ℤ)
    → InRange a
    → InRange b
    → b ≢ pos 0
    → overflows a b ≡ false
    → Divides a b (div a b) (modulo a b)
unfolding div modulo
div-Divides (pos a) (pos b) h k z o =
    let (e, l, q, r) = magnitudes a b (not_zero b z) in
    (e, l, (λ x. x, λ x. omega (arith, r, x)), (omega (arith, q, h), omega (arith, r, h)))
div-Divides (pos a) (negsuc b) h k z o =
    let (e, l, q, r) = magnitudes a (suc b) (omega arith) in
    rw (magnitude-minus (a / suc b)) (
      e,
      l,
      (λ x. x, λ x. omega (arith, r, x)),
      (InRange-minus (a / suc b) (omega (arith, q, h)), omega (arith, r, h)),
    )
div-Divides (negsuc a) (pos b) h k z o =
    let (e, l, q, r) = magnitudes (suc a) b (not_zero b z) in
    rw (magnitude-minus (suc a / b), magnitude-minus (suc a % b))
      (
        e,
        l,
        (λ x. absurd (omega (arith, x)), λ x. above-minus (suc a % b)),
        (
          InRange-minus (suc a / b) (omega (arith, q, h)),
          InRange-minus (suc a % b) (omega (arith, r, h)),
        ),
      )
div-Divides (negsuc a) (negsuc b) h k z o =
    let (e, l, q, r) = magnitudes (suc a) (suc b) (omega arith) in
    rw o (
      rw (magnitude-minus (suc a % suc b)) (
        e,
        l,
        (λ x. absurd (omega (arith, x)), λ x. above-minus (suc a % suc b)),
        (negative_quotient a b h o, InRange-minus (suc a % suc b) (omega (arith, r, h))),
      ))
