-- ===== src/Hsh/Arithmetic/Decimal.antt =====
-- src/components/BuiltinCommands/commands/hsh/HshArithmetic.cpp: the text that an assignment stores, and the
-- number that is read of it.
use haisos.Common.{
  ℕ, suc, zero, ◌+◌, ◌-◌, ◌*◌, ◌/◌, ◌%◌, ◌<◌, true, false, some, [], ◌∷◌, ◌++◌, ◌==◌, ◌≡◌, refl, ap,
  ◌∙◌, inl, inr, arith, ltb, Bytes, is_empty, Bool-cases,
}
use haisos.Hsh.Bracket.{is_digit}
use haisos.Hsh.Number.{ℤ, pos, negsuc, take_sign}
use haisos.Hsh.Number.Decimal.{decimal, all_digits}
use haisos.Hsh.Arithmetic.Word.{InRange, half}
use haisos.Hsh.Arithmetic.Numerals.{
  read_digits, read_magnitude, strtoimax, skip_spaces, saturated, digits_of, to_string,
}
use haisos.Hsh.Arithmetic.Operators.{ok, ArithmeticVariables, Value, plain}
use haisos.Hsh.Arithmetic.Parser.{State, variable_value, stored}

decimal-append : (a b : Bytes) (value : ℕ) → decimal value (a ++ b) ≡ decimal (decimal value a) b
decimal-append [] b value = refl
decimal-append (c ∷ a) b value = decimal-append a b (value * 10 + (c - b'0'))

all_digits-append :
    (a b : Bytes) → all_digits a ≡ true → all_digits b ≡ true → all_digits (a ++ b) ≡ true
all_digits-append [] b h k = k
all_digits-append (c ∷ a) b h k = ground (arith, all_digits-append a b)

read_digits-decimal :
    (ds : Bytes) (value : ℕ)
    → all_digits ds ≡ true
    → read_digits 10 value ds ≡ (decimal value ds, [])
unfolding read_digits
read_digits-decimal [] value h = refl
read_digits-decimal (c ∷ ds) value h =
    ground (arith, read_digits-decimal ds (value * 10 + (c - b'0')))

-- A text of digits, the first no zero.
abbrev Leads : Bytes → Type 0
Leads [] = b'0' < 0
Leads (c ∷ s) = (b'0' < c) × (c < 58) × (all_digits s ≡ true)

Leads-append : (a b : Bytes) → Leads a → all_digits b ≡ true → Leads (a ++ b)
Leads-append [] b h k = absurd (omega (arith, h))
Leads-append (c ∷ a) b (l, h, d) k = (l, h, all_digits-append a b d k)

digits_of-Leads : (f n : ℕ) → 0 < n → n < f → Leads (digits_of f n)
unfolding digits_of
digits_of-Leads zero n z h = absurd (omega (arith, h))
digits_of-Leads (suc f) n z h = elim (Bool-cases (ltb n 10)) [
  | inl e ↦ rw e (ground (arith, e))
  | inr e ↦ rw e (
      Leads-append (digits_of f (n / 10)) ((b'0' + n % 10) ∷ [])
        (digits_of-Leads f (n / 10) (ground (arith, e)) (ground (arith, e, h))) (ground arith))
]

digits_of-decimal : (f n : ℕ) → n < f → decimal 0 (digits_of f n) ≡ n
unfolding digits_of
digits_of-decimal zero n h = absurd (omega (arith, h))
digits_of-decimal (suc f) n h = elim (Bool-cases (ltb n 10)) [
  | inl e ↦ rw e (omega arith)
  | inr e ↦ rw e (
      decimal-append (digits_of f (n / 10)) ((b'0' + n % 10) ∷ []) 0
      ∙ rw (digits_of-decimal f (n / 10) (ground (arith, e, h))) (ground arith))
]

-- strtoimax takes such a text for decimal.
read_magnitude-Leads : (s : Bytes) → Leads s → read_magnitude s ≡ some (decimal 0 s, [])
unfolding read_magnitude
read_magnitude-Leads [] l = absurd (omega (arith, l))
read_magnitude-Leads (c ∷ s) (l, h, d) =
    let digits : all_digits (c ∷ s) ≡ true = ground (arith, l, h, d) in
    let is : is_digit c ≡ true = ground (arith, l, h) in
    let other : (c == b'0') ≡ false = ground (arith, l) in
    rw (is, other) (ap some (read_digits-decimal (c ∷ s) 0 digits))

skip_spaces-Leads : (s : Bytes) → Leads s → skip_spaces s ≡ s
skip_spaces-Leads [] l = refl
skip_spaces-Leads (c ∷ s) (l, h, d) = ground (arith, l, h)

take_sign-Leads : (s : Bytes) → Leads s → take_sign s ≡ (false, s)
take_sign-Leads [] l = refl
take_sign-Leads (c ∷ s) (l, h, d) = ground (arith, l, h)

strtoimax-Leads : (s : Bytes) → Leads s → strtoimax s ≡ some (saturated false (decimal 0 s), [])
unfolding strtoimax
strtoimax-Leads s l =
    rw (skip_spaces-Leads s l, take_sign-Leads s l) (rw (read_magnitude-Leads s l) refl)

strtoimax-minus :
    (s : Bytes) → Leads s → strtoimax (b'-' ∷ s) ≡ some (saturated true (decimal 0 s), [])
unfolding strtoimax
strtoimax-minus s l = rw (read_magnitude-Leads s l) refl

saturated-pos : (n : ℕ) → n < half → saturated false n ≡ pos n
saturated-pos n h = ground (arith, h)

saturated-negsuc : (n : ℕ) → n < half → saturated true (suc n) ≡ negsuc n
saturated-negsuc n h = ground (arith, h)

zero_text : strtoimax (to_string (pos 0)) ≡ some (pos 0, [])
unfolding strtoimax to_string read_magnitude read_digits digits_of
zero_text = refl

-- What std::to_string writes of a number in range, strtoimax reads as that number, to its end.
strtoimax-to_string : (v : ℤ) → InRange v → strtoimax (to_string v) ≡ some (v, [])
unfolding to_string
strtoimax-to_string (pos zero) h = zero_text
strtoimax-to_string (pos (suc n)) h =
    let leads = digits_of-Leads (suc (suc n)) (suc n) (omega arith) (omega arith) in
    strtoimax-Leads (digits_of (suc (suc n)) (suc n)) leads
    ∙ rw (digits_of-decimal (suc (suc n)) (suc n) (omega arith), saturated-pos (suc n) h) refl
strtoimax-to_string (negsuc n) h =
    let leads = digits_of-Leads (suc (suc n)) (suc n) (omega arith) (omega arith) in
    strtoimax-minus (digits_of (suc (suc n)) (suc n)) leads
    ∙ rw (digits_of-decimal (suc (suc n)) (suc n) (omega arith), saturated-negsuc n h) refl

is_empty-Leads : (s : Bytes) → Leads s → is_empty s ≡ false
is_empty-Leads [] l = absurd (omega (arith, l))
is_empty-Leads (c ∷ s) l = refl

zero_is_written : is_empty (to_string (pos 0)) ≡ false
unfolding to_string digits_of
zero_is_written = refl

not_empty : (v : ℤ) → is_empty (to_string v) ≡ false
unfolding to_string
not_empty (pos zero) = zero_is_written
not_empty (pos (suc n)) =
    is_empty-Leads _ (digits_of-Leads (suc (suc n)) (suc n) (omega arith) (omega arith))
not_empty (negsuc n) = refl

-- An assignment that a variable takes, of a store that gives back what is set, leaves a text that
-- evaluates to the value assigned, which is the value of the assignment.
pub variable_value-stored :
    {V : Type 0} (variables : ArithmeticVariables V) (x : Bytes) (v : ℤ) (st : State V)
    → InRange v
    → (variables.set x (to_string v) st.store).1 ≡ true
    → variables.get x (variables.set x (to_string v) st.store).0 ≡ some (to_string v)
    → (r : Value) × (st' : State V) × (stored variables x v st ≡ ok (r, st'))
      × (variable_value variables true x st'.store ≡ ok v)
      × (r.value ≡ v)
unfolding variable_value
variable_value-stored variables x v st h done kept = (
  plain v,
  record st { store = (variables.set x (to_string v) st.store).0 },
  rw done refl,
  rw (kept, not_empty v) (rw (strtoimax-to_string v h) refl),
  refl,
)
