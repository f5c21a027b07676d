-- ===== src/Hsh/Pattern/Escape.antt =====
-- EscapeForPattern and UnescapePattern of src/components/BuiltinCommands/commands/hsh/HshPattern.cpp.
use mathlib.Core.Path.{subst}
use haisos.Common.{
  ℕ, zero, suc, ◌+◌, ◌<◌, true, false, ◌≡◌, refl, sym, ap, ap₂, ◌∙◌, ◌↔◌, [], ◌∷◌, ◌==◌, Bytes,
  length, drop, length-drop, arith, Bool-cases, inl, inr,
}
use haisos.Hsh.Bracket.{at, backslash}
use haisos.Hsh.Pattern.{
  byte, no_more, one, element_at, accepts, escape_for_pattern, unescape_pattern, is_special,
  match_pattern,
}
use haisos.Hsh.Pattern.Matches.{Matches, finish, single, element-no_more}
use haisos.Hsh.Pattern.Decide.{match_pattern_iff, none_beyond, none_at_end, single_inv}

unescape-plain :
    (c : ℕ) (s : Bytes)
    → (c == backslash) ≡ false
    → unescape_pattern (c ∷ s) ≡ c ∷ unescape_pattern s
unfolding unescape_pattern
unescape-plain c [] h = refl
unescape-plain c (d ∷ s) h = rw h refl

-- Unescaping takes away what escaping puts in.
pub unescape-escape : (s : Bytes) → unescape_pattern (escape_for_pattern s) ≡ s
unfolding unescape_pattern escape_for_pattern
unescape-escape [] = refl
unescape-escape (c ∷ s) = elim (Bool-cases (is_special c)) [
  | inl e ↦ rw e (ap (◌∷◌ c) (unescape-escape s))
  | inr e ↦
      rw e (unescape-plain c (escape_for_pattern s) (ground arith) ∙ ap (◌∷◌ c) (unescape-escape s))
]

drop-at :
    (xs ys : Bytes) (p c : ℕ)
    → drop p xs ≡ c ∷ ys
    → (at xs p ≡ c) × (p < length xs) × (drop (p + 1) xs ≡ ys)
drop-at [] ys zero c h = cc
drop-at [] ys (suc p) c h = cc
drop-at (x ∷ xs) ys zero c h = ground arith
drop-at (x ∷ xs) ys (suc p) c h =
    let (a, b, e) = drop-at xs ys p c h in
    (
      a,
      omega arith,
      ap (λ k. drop k (x ∷ xs)) (let f : suc p + 1 ≡ suc (p + 1) = omega arith in f) ∙ e,
    )

-- The elements of an escaped text.
element-special :
    (pattern s : Bytes) (p c : ℕ)
    → drop p pattern ≡ backslash ∷ c ∷ s
    → (element_at pattern p ≡ one (byte c) (p + 2)) × (drop (p + 2) pattern ≡ s)
unfolding element_at
element-special pattern s p c h =
    let (a, la, e) = drop-at pattern (c ∷ s) p backslash h in
    let (b, lb, f) = drop-at pattern s (p + 1) c e in
    (ground arith, ap (λ k. drop k pattern) (let g : p + 2 ≡ p + 1 + 1 = omega arith in g) ∙ f)

element-plain :
    (pattern s : Bytes) (p c : ℕ)
    → is_special c ≡ false
    → drop p pattern ≡ c ∷ s
    → (element_at pattern p ≡ one (byte c) (p + 1)) × (drop (p + 1) pattern ≡ s)
unfolding element_at
element-plain pattern s p c plain h = let (a, la, e) = drop-at pattern s p c h in (ground arith, e)

abbrev Reads : Bytes → ℕ → ℕ → Bytes → Type 0
Reads pattern p c s =
    (next : ℕ) × (element_at pattern p ≡ one (byte c) next)
    × (drop next pattern ≡ escape_for_pattern s)

element-escaped :
    (pattern s : Bytes) (p c : ℕ)
    → drop p pattern ≡ escape_for_pattern (c ∷ s)
    → Reads pattern p c s
unfolding escape_for_pattern
element-escaped pattern s p c h = elim (Bool-cases (is_special c)) [
  | inl e ↦
      let (reads, rest) = element-special pattern (escape_for_pattern s) p c (ground arith) in
      (p + 2, reads, rest)
  | inr e ↦
      let (reads, rest) = element-plain pattern (escape_for_pattern s) p c e (ground arith) in
      (p + 1, reads, rest)
]

Matches-escaped :
    (pattern s text : Bytes) (p : ℕ)
    → drop p pattern ≡ escape_for_pattern s
    → Matches pattern p text ↔ (text ≡ s)
unfolding accepts escape_for_pattern
Matches-escaped pattern [] text p h =
    (only text, λ e. subst (Matches pattern p) (sym e) (finish over))
  where
    over : element_at pattern p ≡ no_more
    over =
        (element-no_more pattern p).1 (omega (arith, ap (length {A = ℕ}) h, length-drop p pattern))

    only : (t : Bytes) → Matches pattern p t → t ≡ []
    only [] m = refl
    only (d ∷ t) m = absurd (none_beyond over m)
Matches-escaped pattern (c ∷ s) text p h =
    let (next, reads, rest) = element-escaped pattern s p c h in
    (
      only next reads text (λ t. (Matches-escaped pattern s t next rest).0),
      λ e. subst (Matches pattern p) (sym e) (
          single (byte c) next reads (ground arith)
            ((Matches-escaped pattern s s next rest).1 refl)),
    )
  where
    only :
        (next : ℕ)
        → element_at pattern p ≡ one (byte c) next
        → (t : Bytes) → ((t : Bytes) → Matches pattern next t → t ≡ s)
        → Matches pattern p t
        → t ≡ c ∷ s
    only next reads [] rest m = absurd (none_at_end reads m)
    only next reads (d ∷ t) rest m =
        let (same, later) = single_inv reads m in ap₂ ◌∷◌ (ground arith) (rest t later)

-- An escaped text matches itself and nothing else.
pub match-escape :
    (s text : Bytes) → (match_pattern (escape_for_pattern s) text ≡ true) ↔ (text ≡ s)
match-escape s text =
    let (found, complete) = match_pattern_iff (escape_for_pattern s) text in
    let (only, self) = Matches-escaped (escape_for_pattern s) s text 0 refl in
    (λ h. only (found h), λ e. complete (self e))
