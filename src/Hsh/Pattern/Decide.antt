-- ===== src/Hsh/Pattern/Decide.antt =====
-- MatchPattern of src/components/BuiltinCommands/commands/hsh/HshPattern.cpp ends, and decides `Matches`.
use mathlib.Core.Path.{subst}
use haisos.Common.{
  ℕ, zero, suc, ◌+◌, ◌-◌, ◌*◌, ◌≤◌, ◌<◌, Bool, true, false, ◌≡◌, refl, sym, ◌∙◌, ◌↔◌, Option, none,
  some, [], ◌∷◌, Bytes, length, arith, Bool-cases, inl, inr, false≢true, drop,
}
use haisos.Hsh.Pattern.{
  Single, Element, no_more, star, one, element_at, accepts, only_stars, Star, go_back, answer,
  match_loop, match_pattern, rounds,
}
use haisos.Hsh.Pattern.Matches.{
  Matches, finish, single, leave, extend, Later, now, after, element_forward, only_stars_iff,
}

one-injective : {s s' : Single} {n n' : ℕ} → one s n ≡ one s' n' → (s ≡ s') × (n ≡ n')
one-injective h = ground arith

pub single_inv :
    {pattern : Bytes} {p c next : ℕ} {text : Bytes} {s : Single}
    → element_at pattern p ≡ one s next
    → Matches pattern p (c ∷ text)
    → (accepts pattern s c ≡ true) × Matches pattern next text
single_inv {pattern} {c} {text} h (single s' next' e a d) =
    let (es, en) = one-injective (sym e ∙ h) in
    (subst (λ s. accepts pattern s c ≡ true) es a, subst (λ n. Matches pattern n text) en d)
single_inv h (leave e d) = cc
single_inv h (extend e d) = cc

star_inv :
    {pattern : Bytes} {p : ℕ} {text : Bytes}
    → element_at pattern p ≡ star
    → Matches pattern p text
    → Later pattern (p + 1) text
star_inv h (finish e) = cc
star_inv h (single s next e a d) = cc
star_inv h (leave e d) = now d
star_inv h (extend e d) = after (star_inv h d)

pub none_at_end :
    {pattern : Bytes} {p next : ℕ} {s : Single}
    → element_at pattern p ≡ one s next
    → ¬ Matches pattern p []
none_at_end h (finish e) = cc
none_at_end h (leave e d) = cc

-- If one byte is read here, then what matches later matches later behind it.
single_later :
    {pattern : Bytes} {p c next : ℕ} (text : Bytes) {s : Single}
    → element_at pattern p ≡ one s next
    → Later pattern p (c ∷ text)
    → Later pattern next text
single_later text h (now m) = now (single_inv h m).1
single_later [] h (after (now m)) = absurd (none_at_end h m)
single_later (c ∷ text) h (after l) = after (single_later text h l)

-- A star matches what its rest matches later.
Later-star :
    {pattern : Bytes} {p : ℕ} {text : Bytes}
    → element_at pattern p ≡ star
    → Later pattern (p + 1) text
    → Matches pattern p text
Later-star h (now m) = leave h m
Later-star h (after l) = extend h (Later-star h l)

pub none_beyond :
    {pattern : Bytes} {p c : ℕ} {text : Bytes}
    → element_at pattern p ≡ no_more
    → ¬ Matches pattern p (c ∷ text)
none_beyond h (single s next e a d) = cc
none_beyond h (leave e d) = cc
none_beyond h (extend e d) = cc

later_end : {pattern : Bytes} {p : ℕ} → Later pattern p [] → Matches pattern p []
later_end (now d) = d

star_later :
    {pattern : Bytes} {p : ℕ} {text : Bytes}
    → element_at pattern p ≡ star
    → Later pattern p text
    → Later pattern (p + 1) text
star_later h (now m) = star_inv h m
star_later h (after l) = after (star_later h l)

later_skip :
    {pattern : Bytes} {p c : ℕ} {text : Bytes}
    → ¬ Matches pattern p (c ∷ text)
    → Later pattern p (c ∷ text)
    → Later pattern p text
later_skip n (now m) = absurd (n m)
later_skip n (after l) = l

-- The answer of a run, which has one, is right about `G`.
abbrev pub Decides : Type 0 → Option Bool → Type 0
Decides G (some true) = G
Decides G (some false) = ¬ G
Decides G none = ⊥

Decides-some : {G : Type 0} (b : Bool) → (b ≡ true) ↔ G → Decides G (some b)
Decides-some true e = e.0 refl
Decides-some false e = λ g. false≢true (e.1 g)

Decides-answer : {G : Type 0} (r : Option Bool) → Decides G r → (answer r ≡ true) ↔ G
Decides-answer none d = absurd d
Decides-answer (some true) d = (λ _. d, λ _. refl)
Decides-answer (some false) d = (λ h. cc h, λ g. absurd (d g))

-- `G` is the question asked at the start. `m` bounds the text to which a star may go back.
module _ (G : Type 0) (pattern : Bytes) where
  abbrev size : ℕ
  size = length pattern

  -- What the saved star means: `G` asks whether some rest of `from` matches behind it, and if
  -- `from` itself does, then what is at hand does.
  abbrev Saved : ℕ → ℕ → Bytes → Star → Type 0
  Saved m p text none = (G → Matches pattern p text) × (length text ≤ m)
  Saved m p text (some (behind, from)) =
      (G ↔ Later pattern behind from)
      × (Matches pattern behind from → Matches pattern p text)
      × (length text ≤ length from)
      × (length from ≤ m)

  record Invariant (f m p : ℕ) (text : Bytes) (back : Star) : Type 0 where
    sound : Matches pattern p text → G
    later : G → Later pattern p text
    saved : Saved m p text back
    fuel : m * (size + 1) + (size - p) < f

  abbrev Keeps : ℕ → Type 0
  Keeps f =
      (m p : ℕ) (text : Bytes) (back : Star)
      → Invariant f m p text back
      → Decides G (match_loop f pattern p text back)

  -- A fresh start behind a star, where `G` asks for some rest of the text.
  restart :
      {f m p : ℕ} {text : Bytes}
      → G ↔ Later pattern p text
      → length text ≤ m
      → m * (size + 1) + (size - p) < f
      → Invariant f m p text (some (p, text))
  restart e h fuel = record {
    sound = λ d. e.1 (now d);
    later = e.0;
    saved = (e, λ d. d, omega arith, h);
    fuel = fuel;
  }

  go_back-Decides :
      {f c : ℕ} {p : ℕ} {text : Bytes} (m : ℕ) (back : Star)
      → Keeps f
      → Invariant (suc f) m p (c ∷ text) back
      → ¬ Matches pattern p (c ∷ text)
      → Decides G (go_back back (match_loop f pattern))
  go_back-Decides m none keeps i no_match = λ g. no_match (i.saved.0 g)
  go_back-Decides m (some (behind, [])) keeps i no_match = absurd (omega (arith, i.saved.2))
  go_back-Decides zero (some (behind, x ∷ from)) keeps i no_match =
      absurd (omega (arith, i.saved.3))
  go_back-Decides (suc m) (some (behind, x ∷ from)) keeps i no_match =
      let (e, down, _, _) = i.saved in
      keeps m behind from (some (behind, from)) (
        restart (λ g. later_skip (λ d. no_match (down d)) (e.0 g), λ l. e.1 (after l))
          (omega (arith, i.saved.3)) (omega (arith, i.fuel)))

  length-le : {f m p : ℕ} {text : Bytes} (back : Star) → Invariant f m p text back → length text ≤ m
  length-le none i = i.saved.1
  length-le (some (behind, from)) i = omega (arith, i.saved.2, i.saved.3)

  Saved-single :
      (m p c next : ℕ) {s : Single} (text : Bytes) (back : Star)
      → element_at pattern p ≡ one s next
      → Saved m p (c ∷ text) back
      → Saved m next text back
  Saved-single m p c next text none h (e, le) = (λ g. (single_inv h (e g)).1, omega arith)
  Saved-single m p c next text (some (behind, from)) h (e, down, le, fits) =
      (e, λ d. (single_inv h (down d)).1, omega arith, fits)

  element-Decides :
      (f m p c : ℕ) (text : Bytes) (back : Star) (e : Element)
      → Keeps f
      → element_at pattern p ≡ e
      → Invariant (suc f) m p (c ∷ text) back
      → Decides G (elim e [
        | no_more ↦ go_back back (match_loop f pattern)
        | star ↦ match_loop f pattern (p + 1) (c ∷ text) (some (p + 1, c ∷ text))
        | one s next ↦ elim (accepts pattern s c) [
          | true ↦ match_loop f pattern next text back
          | false ↦ go_back back (match_loop f pattern)
        ]
      ])
  element-Decides f m p c text back no_more keeps h i =
      go_back-Decides m back keeps i (none_beyond h)
  element-Decides f m p c text back star keeps h i =
      let inside : p < size = (element_forward pattern p).0 h in
      keeps m (p + 1) (c ∷ text) (some (p + 1, c ∷ text)) (
        restart (λ g. star_later h (i.later g), λ l. i.sound (Later-star h l)) (length-le back i)
          (omega (arith, i.fuel)))
  element-Decides f m p c text back (one s next) keeps h i =
      let (inside, forward) = (element_forward pattern p).1 s next h in
      elim (Bool-cases (accepts pattern s c)) [
        | inl a ↦ rw a (
            keeps m next text back (record {
              sound = λ d. i.sound (single s next h a d);
              later = λ g. single_later text h (i.later g);
              saved = Saved-single m p c next text back h i.saved;
              fuel = omega (arith, i.fuel);
            }))
        | inr r ↦ rw r (go_back-Decides m back keeps i (λ d. cc (r, (single_inv h d).0)))
      ]

  loop-Decides : (f : ℕ) → Keeps f
  unfolding match_loop
  loop-Decides zero m p text back i = absurd (omega (arith, i.fuel))
  loop-Decides (suc f) m p [] back i =
      let (found, complete) = only_stars_iff pattern p in
      Decides-some (only_stars (drop p pattern))
        (λ h. i.sound (found h), λ g. complete (later_end (i.later g)))
  loop-Decides (suc f) m p (c ∷ text) back i =
      element-Decides f m p c text back (element_at pattern p) (loop-Decides f) refl i

-- MatchPattern ends within its rounds and answers whether the whole text matches.
pub match_loop-Decides :
    (pattern text : Bytes)
    → Decides (Matches pattern 0 text) (match_loop (rounds pattern text) pattern 0 text none)
match_loop-Decides pattern text =
    loop-Decides (Matches pattern 0 text) pattern (rounds pattern text) (length text) 0 text none
      (record { sound = λ d. d; later = now; saved = (λ d. d, omega arith); fuel = omega arith })

-- MatchPattern says true exactly of the texts that match.
pub match_pattern_iff :
    (pattern text : Bytes) → (match_pattern pattern text ≡ true) ↔ Matches pattern 0 text
unfolding match_pattern
match_pattern_iff pattern text =
    Decides-answer (match_loop (rounds pattern text) pattern 0 text none)
      (match_loop-Decides pattern text)
