-- ===== src/Hsh/Pattern/Remove.antt =====
-- RemovePattern of src/components/BuiltinCommands/commands/hsh/HshPattern.cpp removes the shortest or the
-- longest prefix or suffix that matches.
use native.Mathlib.Decide.{ℕ_discrete}
use haisos.Common.{
  ℕ, zero, suc, ◌+◌, ◌-◌, ◌≤◌, ◌<◌, Bool, true, false, ◌≡◌, refl, sym, ap, ◌∙◌, Option, none, some,
  ◌++◌, if◌then◌else◌, Bytes, length, take-append-drop, arith, Bool-cases, inl, inr,
}
use haisos.Hsh.Pattern.{
  PatternRemoval, smallest_prefix, largest_prefix, smallest_suffix, largest_suffix,
  is_prefix_removal, is_smallest_removal, candidate, cut_up, cut_down, match_pattern,
  remove_pattern, after_cut,
}

-- Whether a length is tried before another one.
abbrev pub Before : PatternRemoval → ℕ → ℕ → Type 0
Before which j len = if is_smallest_removal which then j < len else len < j

-- The value from the removed part and the rest.
abbrev pub rejoin : PatternRemoval → Bytes → Bytes → Bytes
rejoin which removed rest = if is_prefix_removal which then removed ++ rest else rest ++ removed

-- The first length from `lo` up to `hi` that passes, or that none does.
abbrev FirstUp : (ℕ → Bool) → ℕ → ℕ → Option ℕ → Type 0
FirstUp test lo hi none = (j : ℕ) → lo ≤ j → j ≤ hi → test j ≡ false
FirstUp test lo hi (some k) =
    (test k ≡ true) × (lo ≤ k) × (k ≤ hi) × ((j : ℕ) → lo ≤ j → j < k → test j ≡ false)

-- The first from `hi` down.
abbrev FirstDown : (ℕ → Bool) → ℕ → Option ℕ → Type 0
FirstDown test hi none = (j : ℕ) → j ≤ hi → test j ≡ false
FirstDown test hi (some k) =
    (test k ≡ true) × (k ≤ hi) × ((j : ℕ) → k < j → j ≤ hi → test j ≡ false)

FirstUp-next :
    (test : ℕ → Bool) (lo hi : ℕ) (r : Option ℕ)
    → test lo ≡ false
    → FirstUp test (lo + 1) hi r
    → FirstUp test lo hi r
FirstUp-next test lo hi none t h =
    λ j a b. elim (ℕ_discrete j lo) [ yes e ↦ ap test e ∙ t | no n ↦ h j (omega arith) b ]
FirstUp-next test lo hi (some k) t (p, a, b, h) = (
  p,
  omega arith,
  b,
  λ j c d. elim (ℕ_discrete j lo) [ yes e ↦ ap test e ∙ t | no n ↦ h j (omega arith) d ],
)

FirstDown-next :
    (test : ℕ → Bool) (hi : ℕ) (r : Option ℕ)
    → test (suc hi) ≡ false
    → FirstDown test hi r
    → FirstDown test (suc hi) r
FirstDown-next test hi none t h =
    λ j a. elim (ℕ_discrete j (suc hi)) [ yes e ↦ ap test e ∙ t | no n ↦ h j (omega arith) ]
FirstDown-next test hi (some k) t (p, a, h) = (
  p,
  omega arith,
  λ j b c. elim (ℕ_discrete j (suc hi)) [ yes e ↦ ap test e ∙ t | no n ↦ h j b (omega arith) ],
)

cut_up-FirstUp :
    (test : ℕ → Bool) (left len hi : ℕ)
    → len + left ≡ hi
    → FirstUp test len hi (cut_up test left len)
unfolding cut_up
cut_up-FirstUp test zero len hi e = elim (Bool-cases (test len)) [
  | inl t ↦ rw t (t, omega arith, omega arith, λ j a b. absurd (omega arith))
  | inr t ↦ rw t (λ j a b. ap test (omega arith) ∙ t)
]
cut_up-FirstUp test (suc left) len hi e = elim (Bool-cases (test len)) [
  | inl t ↦ rw (t, cut_up) (t, omega arith, omega arith, λ j a b. absurd (omega arith))
  | inr t ↦
      rw (t, cut_up)
        (FirstUp-next test len hi (cut_up test left (len + 1)) t
          (cut_up-FirstUp test left (len + 1) hi (omega arith)))
]

cut_down-FirstDown : (test : ℕ → Bool) (len : ℕ) → FirstDown test len (cut_down test len)
unfolding cut_down
cut_down-FirstDown test zero = elim (Bool-cases (test 0)) [
  | inl t ↦ rw t (t, omega arith, λ j a b. absurd (omega arith))
  | inr t ↦ rw t (λ j a. ap test (omega arith) ∙ t)
]
cut_down-FirstDown test (suc len) = elim (Bool-cases (test (suc len))) [
  | inl t ↦ rw (t, cut_down) (t, omega arith, λ j a b. absurd (omega arith))
  | inr t ↦
      rw (t, cut_down) (FirstDown-next test len (cut_down test len) t (cut_down-FirstDown test len))
]

-- What RemovePattern may return: the value where no candidate matches; else the value without the
-- first candidate, in the order of the lengths, that does.
pub data Removed (value pattern : Bytes) (which : PatternRemoval) (result : Bytes) : Type 0 where
  unchanged :
      ((j : ℕ) → j ≤ length value → match_pattern pattern (candidate which value j) ≡ false)
      → result ≡ value
      → Removed value pattern which result
  removed :
      (len : ℕ)
      → len ≤ length value
      → match_pattern pattern (candidate which value len) ≡ true
      → ((j : ℕ)
          → j ≤ length value
          → Before which j len
          → match_pattern pattern (candidate which value j) ≡ false)
      → value ≡ rejoin which (candidate which value len) result
      → Removed value pattern which result

-- The removed part and the result make up the value.
rejoin_lem :
    (which : PatternRemoval) (value : Bytes) (len : ℕ)
    → value ≡ rejoin which (candidate which value len) (after_cut which value (some len))
rejoin_lem smallest_prefix value len = sym (take-append-drop len value)
rejoin_lem largest_prefix value len = sym (take-append-drop len value)
rejoin_lem smallest_suffix value len = sym (take-append-drop (length value - len) value)
rejoin_lem largest_suffix value len = sym (take-append-drop (length value - len) value)

up-Removed :
    (which : PatternRemoval) (value pattern : Bytes) (r : Option ℕ)
    → is_smallest_removal which ≡ true
    → FirstUp (λ len. match_pattern pattern (candidate which value len)) 0 (length value) r
    → Removed value pattern which (after_cut which value r)
up-Removed which value pattern none s h = unchanged (λ j b. h j (omega arith) b) refl
up-Removed which value pattern (some k) s (t, a, b, h) =
    removed k b t (λ j c d. h j (omega arith) (rw s at d)) (rejoin_lem which value k)

down-Removed :
    (which : PatternRemoval) (value pattern : Bytes) (r : Option ℕ)
    → is_smallest_removal which ≡ false
    → FirstDown (λ len. match_pattern pattern (candidate which value len)) (length value) r
    → Removed value pattern which (after_cut which value r)
down-Removed which value pattern none s h = unchanged h refl
down-Removed which value pattern (some k) s (t, b, h) =
    removed k b t (λ j c d. h j (rw s at d) c) (rejoin_lem which value k)

-- RemovePattern removes the shortest or longest part that matches, and nothing where none does.
pub remove_pattern-Removed :
    (value pattern : Bytes) (which : PatternRemoval)
    → Removed value pattern which (remove_pattern value pattern which)
unfolding remove_pattern
remove_pattern-Removed value pattern which =
    let test = λ (len : ℕ). match_pattern pattern (candidate which value len) in
    elim (Bool-cases (is_smallest_removal which)) [
      | inl s ↦ rw s (
          up-Removed which value pattern (cut_up test (length value) 0) s
            (cut_up-FirstUp test (length value) 0 (length value) (omega arith)))
      | inr s ↦ rw s (
          down-Removed which value pattern (cut_down test (length value)) s
            (cut_down-FirstDown test (length value)))
    ]
