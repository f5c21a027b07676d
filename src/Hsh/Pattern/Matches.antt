-- ===== src/Hsh/Pattern/Matches.antt =====
-- What it means for a text to match a shell pattern, with no search order in it, and where the
-- elements of a pattern stand (src/components/BuiltinCommands/commands/hsh/HshPattern.cpp).
use native.Mathlib.Decide.{dec_lt}
use haisos.Common.{
  ℕ, zero, suc, ◌+◌, ◌-◌, ◌≤◌, ◌<◌, Bool, true, false, ◌≡◌, refl, sym, ap, ◌∙◌, ◌↔◌, none, some, [],
  ◌∷◌, ◌==◌, ltb, Bytes, length, drop, drop_all, arith,
}
use haisos.Hsh.Bracket.{at, Round, found, go_on, end_round, end_loop, bracket_end, past}
use haisos.Hsh.Pattern.{Single, no_more, star, one, element_at, accepts, only_stars}

-- The text matches the pattern from a position on.
pub data Matches (pattern : Bytes) : ℕ → Bytes → Type 0 where
  finish : {p : ℕ} → element_at pattern p ≡ no_more → Matches pattern p []
  single :
      {p c : ℕ} {text : Bytes} (s : Single) (next : ℕ)
      → element_at pattern p ≡ one s next
      → accepts pattern s c ≡ true
      → Matches pattern next text
      → Matches pattern p (c ∷ text)
  leave :
      {p : ℕ} {text : Bytes}
      → element_at pattern p ≡ star
      → Matches pattern (p + 1) text
      → Matches pattern p text
  extend :
      {p c : ℕ} {text : Bytes}
      → element_at pattern p ≡ star
      → Matches pattern p text
      → Matches pattern p (c ∷ text)

-- Some rest of the text matches from a position on.
pub data Later (pattern : Bytes) (p : ℕ) : Bytes → Type 0 where
  now : {text : Bytes} → Matches pattern p text → Later pattern p text
  after : {c : ℕ} {text : Bytes} → Later pattern p text → Later pattern p (c ∷ text)

-- A round of BracketEnd goes forward, and returns a position behind its own.
end_round_forward :
    (pattern : Bytes) (i e : ℕ)
    → (end_round pattern i ≡ found e → i < e) × (end_round pattern i ≡ go_on e → i < e)
unfolding end_round
end_round_forward pattern i e = ground arith

end_loop_forward : (f : ℕ) (pattern : Bytes) (i e : ℕ) → end_loop f pattern i ≡ some e → i < e
unfolding end_loop
end_loop_forward zero pattern i e h = cc
end_loop_forward (suc f) pattern i e h =
    go (ltb i (length pattern)) (end_round pattern i) refl h (end_loop_forward f pattern)
  where
    go :
        (b : Bool) (r : Round)
        → end_round pattern i ≡ r
        → (elim b [
          | false ↦ none
          | true ↦ elim r [ found e ↦ some e | go_on k ↦ end_loop f pattern k ]
        ])
          ≡ some e
        → ((k e : ℕ) → end_loop f pattern k ≡ some e → k < e)
        → i < e
    go false r q h rec = cc
    go true (found d) q h rec = ground (arith, (end_round_forward pattern i d).0)
    go true (go_on k) q h rec = omega (arith, (end_round_forward pattern i k).1 q, rec k e h)

pub bracket_end_forward : (pattern : Bytes) (i e : ℕ) → bracket_end pattern i ≡ some e → i + 1 < e
unfolding bracket_end
bracket_end_forward pattern i e h = ground (
  arith,
  end_loop_forward (length pattern) pattern (past b']' pattern (past b'!' pattern (i + 1))) e,
)

-- An element stands within the pattern, and the next one behind it.
pub element_forward :
    (pattern : Bytes) (p : ℕ)
    → (element_at pattern p ≡ star → p < length pattern)
      × ((s : Single) (next : ℕ)
          → element_at pattern p ≡ one s next
          → (p < length pattern) × (p < next))
unfolding element_at
element_forward pattern p =
    (ground arith, λ s next h. ground (arith, bracket_end_forward pattern p next))

-- The positions of stars, and those behind the pattern.
pub element-star :
    (pattern : Bytes) (p : ℕ)
    → (element_at pattern p ≡ star) ↔ ((p < length pattern) × ((at pattern p == b'*') ≡ true))
unfolding element_at
element-star pattern p = (ground arith, ground arith)

pub element-no_more :
    (pattern : Bytes) (p : ℕ) → (element_at pattern p ≡ no_more) ↔ (length pattern ≤ p)
unfolding element_at
element-no_more pattern p = (ground arith, ground arith)

pub drop_cons : (xs : Bytes) (p : ℕ) → p < length xs → drop p xs ≡ at xs p ∷ drop (p + 1) xs
drop_cons [] p h = absurd (omega arith)
drop_cons (x ∷ xs) zero h = refl
drop_cons (x ∷ xs) (suc p) h =
    drop_cons xs p (omega arith)
    ∙ ap (λ k. at xs p ∷ drop k (x ∷ xs)) (let e : suc (p + 1) ≡ suc p + 1 = omega arith in e)

stars→Matches :
    (n : ℕ) (pattern : Bytes) (p : ℕ)
    → length pattern - p ≤ n
    → only_stars (drop p pattern) ≡ true
    → Matches pattern p []
unfolding only_stars
stars→Matches zero pattern p small h = finish ((element-no_more pattern p).1 (omega arith))
stars→Matches (suc n) pattern p small h = elim (dec_lt p (length pattern)) [
  | no out ↦ finish ((element-no_more pattern p).1 (omega arith))
  | yes inside ↦
      let stars : only_stars (at pattern p ∷ drop (p + 1) pattern) ≡ true =
        ap only_stars (sym (drop_cons pattern p inside)) ∙ h in
      leave ((element-star pattern p).1 (inside, ground arith))
        (stars→Matches n pattern (p + 1) (omega arith) (ground arith))
]

Matches→stars :
    {pattern : Bytes} {p : ℕ} → Matches pattern p [] → only_stars (drop p pattern) ≡ true
unfolding only_stars
Matches→stars {pattern} {p} (finish e) =
    ap only_stars (drop_all p pattern ((element-no_more pattern p).0 e))
Matches→stars {pattern} {p} (leave e d) =
    let (inside, is_star) = (element-star pattern p).0 e in
    ap only_stars (drop_cons pattern p inside) ∙ ground (arith, Matches→stars d)

-- At the end of a text only stars match.
pub only_stars_iff :
    (pattern : Bytes) (p : ℕ) → (only_stars (drop p pattern) ≡ true) ↔ Matches pattern p []
only_stars_iff pattern p = (stars→Matches (length pattern) pattern p (omega arith), Matches→stars)
