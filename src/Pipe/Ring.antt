-- ===== src/Pipe/Ring.antt =====
-- The two-part copies of src/components/PipeService/Pipe.cpp against positions modulo the capacity.
use native.Mathlib.Nat.{mod-eq_of_lt, mod-eq-sub-mod, mod-add-mod}
use native.Mathlib.Decide.{dec_lt}
use haisos.Common.{
  take-append, drop-append, ℕ, zero, suc, ◌+◌, ◌-◌, ◌%◌, ◌≤◌, ◌<◌, ◌≡◌, refl, sym, ap, ap₂, ◌∙◌,
  ◌⊎◌, inl, inr, [], ◌∷◌, ◌++◌, ltb, if◌then◌else◌, Bytes, take, drop, length, get_or, arith,
}

-- The byte at a position; the default is never met.
abbrev pub at : Bytes → ℕ → ℕ
at st i = get_or st i 0

-- The `n` bytes from position `h` on, round the ring.
unfoldable pub ring : Bytes → ℕ → ℕ → Bytes
ring st h zero = []
ring st h (suc n) = at st (h % length st) ∷ ring st (h + 1) n

pub length-ring : (st : Bytes) (h n : ℕ) → length (ring st h n) ≡ n
unfolding ring
length-ring st h zero = refl
length-ring st h (suc n) = ap suc (length-ring st (h + 1) n)

-- A position below twice the length wraps at most once.
pub mod_wrap : (x l : ℕ) → x < l + l → (x < l × (x % l ≡ x)) ⊎ (l ≤ x × (x % l + l ≡ x))
mod_wrap x l h = elim (dec_lt x l) [
  | yes p ↦ inl (p, mod-eq_of_lt p)
  | no p ↦ inr (omega arith, grind (arith, mod-eq-sub-mod))
]

pub at-take : (n : ℕ) (xs : Bytes) (i : ℕ) → i < n → at (take n xs) i ≡ at xs i
at-take zero xs i h = absurd (omega arith)
at-take (suc n) [] i h = refl
at-take (suc n) (x ∷ xs) zero h = refl
at-take (suc n) (x ∷ xs) (suc i) h = at-take n xs i (omega arith)

pub at-drop : (n : ℕ) (xs : Bytes) (i : ℕ) → at (drop n xs) i ≡ at xs (n + i)
at-drop zero xs i = ap (at xs) (omega arith)
at-drop (suc n) [] i = refl
at-drop (suc n) (x ∷ xs) i =
    at-drop n xs i ∙ ap (at (x ∷ xs)) (let e : suc (n + i) ≡ suc n + i = omega arith in e)

pub at-append :
    (xs ys : Bytes) (i : ℕ)
    → at (xs ++ ys) i ≡ (if ltb i (length xs) then at xs i else at ys (i - length xs))
at-append [] ys i = ground arith
at-append (x ∷ xs) ys zero = ground arith
at-append (x ∷ xs) ys (suc i) = ground (arith, at-append xs ys i)

-- Rings with the same bytes at the same positions are equal.
pub ring_ext :
    (xs st : Bytes) (h : ℕ)
    → ((i : ℕ) → i < length xs → at xs i ≡ at st ((h + i) % length st))
    → xs ≡ ring st h (length xs)
unfolding ring
ring_ext [] st h e = refl
ring_ext (x ∷ xs) st h e =
    ap₂ ◌∷◌ (e 0 (omega arith) ∙ ap (λ k. at st (k % length st)) (omega arith)) (
      ring_ext xs st (h + 1)
        (λ i lt. e (suc i) (omega arith) ∙ ap (λ k. at st (k % length st)) (omega arith)))

pub ring_agree :
    (st st' : Bytes) (h n : ℕ)
    → length st ≡ length st'
    → ((i : ℕ) → i < n → at st ((h + i) % length st) ≡ at st' ((h + i) % length st))
    → ring st h n ≡ ring st' h n
unfolding ring
ring_agree st st' h zero len e = refl
ring_agree st st' h (suc n) len e =
    ap₂ ◌∷◌
      (ap (λ k. at st (k % length st)) (omega arith)
        ∙ e 0 (omega arith)
        ∙ ap₂ (λ k l. at st' (k % l)) (omega arith) len)
      (ring_agree st st' (h + 1) n len (λ i lt.
        ap (λ k. at st (k % length st)) (omega arith)
        ∙ e (suc i) (omega arith)
        ∙ ap (λ k. at st' (k % length st)) (omega arith)))

pub ring-add : (st : Bytes) (h a b : ℕ) → ring st h (a + b) ≡ ring st h a ++ ring st (h + a) b
unfolding ring
ring-add st h zero b = ap₂ (ring st) (omega arith) (omega arith)
ring-add st h (suc a) b =
    ap (ring st h) (let e : suc a + b ≡ suc (a + b) = omega arith in e)
    ∙ ap (◌∷◌ (at st (h % length st)))
        (ring-add st (h + 1) a b ∙ ap (λ k. ring st (h + 1) a ++ ring st k b) (omega arith))

-- The ring from a position depends on the position modulo the length.
pub ring_from :
    (st : Bytes) (h h' n : ℕ) → h % length st ≡ h' % length st → ring st h n ≡ ring st h' n
unfolding ring
ring_from st h h' zero e = refl
ring_from st h h' (suc n) e = ap₂ ◌∷◌ (ap (at st) e) (ring_from st (h + 1) (h' + 1) n next)
  where
    next : (h + 1) % length st ≡ (h' + 1) % length st
    next =
        sym (mod-add-mod h (length st) 1)
        ∙ ap (λ k. (k + 1) % length st) e
        ∙ mod-add-mod h' (length st) 1

module _ (st : Bytes) (h m n : ℕ) (le : m ≤ n) where
  ring_parts : ring st h n ≡ ring st h m ++ ring st (h + m) (n - m)
  ring_parts = ap (ring st h) (omega arith) ∙ ring-add st h m (n - m)

  -- The first `m` bytes of a stretch of the ring, and the rest.
  pub take-ring : take m (ring st h n) ≡ ring st h m
  take-ring =
      ap₂ take (sym (length-ring st h m)) ring_parts
      ∙ take-append (ring st h m) (ring st (h + m) (n - m))

  pub drop-ring : drop m (ring st h n) ≡ ring st (h + m) (n - m)
  drop-ring =
      ap₂ drop (sym (length-ring st h m)) ring_parts
      ∙ drop-append (ring st h m) (ring st (h + m) (n - m))
