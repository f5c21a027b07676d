-- ===== src/Pipe/Copies.antt =====
-- What the two memcpys of a read and of a write do to the ring (src/components/PipeService/Pipe.cpp).
use native.Mathlib.Nat.{mod-eq_of_lt, mod_self, zero-mod}
use native.Mathlib.Decide.{dec_le}
use haisos.Common.{
  ℕ, ◌+◌, ◌-◌, ◌%◌, ◌≤◌, ◌<◌, min, ◌≡◌, refl, sym, ap, ap₂, ◌∙◌, append-nil, ◌++◌, ltb, false, true,
  Bytes, take, drop, length, arith, length-append, length-take, length-drop, if◌then◌else◌,
}
use haisos.Pipe.{slice, blit, ring_read}
use haisos.Pipe.Ring.{at, ring, at-take, at-drop, at-append, ring_ext, ring_from, ring-add}

length-slice : (st : Bytes) (h m : ℕ) → h + m ≤ length st → length (slice st h m) ≡ m
length-slice st h m fits = omega (arith, length-take m (drop h st), length-drop h st)

-- A slice that does not wrap is a stretch of the ring.
slice-eq-ring : (st : Bytes) (h m : ℕ) → h + m ≤ length st → slice st h m ≡ ring st h m
slice-eq-ring st h m fits =
    ring_ext (slice st h m) st h (λ i lt.
      let below : i < m = omega (arith, length-slice st h m fits) in
      at-take m (drop h st) i below
      ∙ at-drop h st i
      ∙ ap (at st) (sym (mod-eq_of_lt (omega arith))))
    ∙ ap (ring st h) (length-slice st h m fits)

ring_read_flat : (st : Bytes) (h m : ℕ) → h + m ≤ length st → ring_read st h m ≡ slice st h m
unfolding ring_read
ring_read_flat st h m fits =
    let e : min m (length st - h) ≡ m = omega arith in
    let t : ltb m m ≡ false = ground arith in rw e (rw t (append-nil (slice st h m)))

ring_read_split :
    (st : Bytes) (h m : ℕ)
    → h < length st
    → length st < h + m
    → ring_read st h m ≡ slice st h (length st - h) ++ slice st 0 (m - (length st - h))
unfolding ring_read
ring_read_split st h m inside over =
    let e : min m (length st - h) ≡ length st - h = omega arith in
    let t : ltb (length st - h) m ≡ true = ground arith in rw e (rw t refl)

-- The bytes that Read copies are the next ones of the ring.
pub ring_read-eq-ring :
    (st : Bytes) (h m : ℕ) → h < length st → m ≤ length st → ring_read st h m ≡ ring st h m
ring_read-eq-ring st h m inside fits = elim (dec_le (h + m) (length st)) [
  | yes p ↦ ring_read_flat st h m p ∙ slice-eq-ring st h m p
  | no p ↦
      let first : ℕ = length st - h in
      ring_read_split st h m inside (omega arith)
      ∙ ap₂ ◌++◌ (slice-eq-ring st h first (omega arith)) (
          slice-eq-ring st 0 (m - first) (omega arith)
          ∙ ring_from st 0 (h + first) (m - first) wraps)
      ∙ sym (ring-add st h first (m - first))
      ∙ ap (ring st h) (omega arith)
]
  where
    wraps : 0 % length st ≡ (h + (length st - h)) % length st
    wraps =
        zero-mod (length st) ∙ sym (mod_self (length st)) ∙ ap (λ k. k % length st) (omega arith)

pub length-blit :
    (st : Bytes) (off : ℕ) (xs : Bytes)
    → off + length xs ≤ length st
    → length (blit st off xs) ≡ length st
length-blit st off xs fits = omega (
  arith,
  length-append (take off st) (xs ++ drop (off + length xs) st),
  length-append xs (drop (off + length xs) st),
  length-take off st,
  length-drop (off + length xs) st,
)

-- A copy into the ring writes its stretch and nothing else.
pub at-blit :
    (st : Bytes) (off : ℕ) (xs : Bytes) (i : ℕ)
    → off + length xs ≤ length st
    → at (blit st off xs) i ≡ (
        if ltb i off then at st i else if ltb i (off + length xs) then at xs (i - off) else at st i)
at-blit st off xs i fits = ground (
  arith,
  at-append (take off st) (xs ++ drop (off + length xs) st) i,
  at-append xs (drop (off + length xs) st) (i - off),
  at-take off st i,
  length-take off st,
  at-drop (off + length xs) st (i - off - length xs),
)
