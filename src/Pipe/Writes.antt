-- ===== src/Pipe/Writes.antt =====
-- The two memcpys of a write (src/components/PipeService/Pipe.cpp) append to the ring.
use native.Mathlib.Decide.{dec_le}
use native.Mathlib.Nat.{mod-lt, mod-add-mod}
use haisos.Common.{
  ℕ, ◌+◌, ◌-◌, ◌%◌, ◌≤◌, ◌<◌, min, ◌≡◌, refl, sym, ap, ap₂, ◌∙◌, ◌++◌, ltb, false, true, Bytes,
  take, drop, length, arith, length-take, length-drop, if◌then◌else◌, take_all,
}
use haisos.Pipe.{blit, ring_write}
use haisos.Pipe.Ring.{at, ring, mod_wrap, at-take, at-drop, ring_ext, ring-add, ring_agree}
use haisos.Pipe.Copies.{length-blit, at-blit}

ring_write_flat :
    (st : Bytes) (off : ℕ) (xs : Bytes)
    → off + length xs ≤ length st
    → ring_write st off xs ≡ blit st off xs
unfolding ring_write
ring_write_flat st off xs fits =
    let e : min (length xs) (length st - off) ≡ length xs = omega arith in
    let t : ltb (length xs) (length xs) ≡ false = ground arith in
    rw e (rw t (ap (blit st off) (take_all (length xs) xs (omega arith))))

ring_write_split :
    (st : Bytes) (off : ℕ) (xs : Bytes)
    → off < length st
    → length st < off + length xs
    → ring_write st off xs
      ≡ blit (blit st off (take (length st - off) xs)) 0 (drop (length st - off) xs)
unfolding ring_write
ring_write_split st off xs inside over =
    let e : min (length xs) (length st - off) ≡ length st - off = omega arith in
    let t : ltb (length st - off) (length xs) ≡ true = ground arith in rw e (rw t refl)

module _ (st : Bytes) (off : ℕ) (xs : Bytes) (inside : off < length st)
    (fits : length xs ≤ length st) where
  abbrev first : ℕ
  first = length st - off

  abbrev once : Bytes
  once = blit st off (take first xs)

  pub length-ring_write : length (ring_write st off xs) ≡ length st
  length-ring_write = elim (dec_le (off + length xs) (length st)) [
    | yes p ↦ ap (length {A = ℕ}) (ring_write_flat st off xs p) ∙ length-blit st off xs p
    | no p ↦
        let l1 : length once ≡ length st =
          length-blit st off (take first xs) (omega (arith, length-take first xs)) in
        ap (length {A = ℕ}) (ring_write_split st off xs inside (omega arith))
        ∙ length-blit once 0 (drop first xs) (omega (arith, length-drop first xs, l1))
        ∙ l1
  ]

  -- The byte at a position after the write: what was written there, or what stood there.
  at-ring_write :
      (j : ℕ)
      → j < length st
      → at (ring_write st off xs) j ≡ (
          if ltb j off
          then (if ltb (j + first) (length xs) then at xs (j + first) else at st j)
          else if ltb j (off + length xs)
          then at xs (j - off)
          else at st j)
  at-ring_write j lt = elim (dec_le (off + length xs) (length st)) [
    | yes p ↦ ap (λ s. at s j) (ring_write_flat st off xs p) ∙ at-blit st off xs j p ∙ ground arith
    | no p ↦
        ap (λ s. at s j) (ring_write_split st off xs inside (omega arith))
        ∙ ground (
          arith,
          at-blit once 0 (drop first xs) j,
          at-blit st off (take first xs) j,
          at-take first xs (j - off),
          at-drop first xs j,
          length-take first xs,
          length-drop first xs,
          length-blit st off (take first xs),
        )
  ]

-- The bytes of the ring in front of a write stay.
ring_write_keeps :
    (st : Bytes) (h n : ℕ) (xs : Bytes) (i : ℕ)
    → h < length st
    → n + length xs ≤ length st
    → i < n
    → at (ring_write st ((h + n) % length st) xs) ((h + i) % length st)
      ≡ at st ((h + i) % length st)
ring_write_keeps st h n xs i inside fits lt =
    at-ring_write st ((h + n) % length st) xs (mod-lt (h + n) (omega arith)) (omega arith)
      ((h + i) % length st) (mod-lt (h + i) (omega arith))
    ∙ ground (arith, mod_wrap (h + i) (length st), mod_wrap (h + n) (length st))

-- The bytes of the write stand from its offset on.
ring_write_puts :
    (st : Bytes) (off : ℕ) (xs : Bytes) (i : ℕ)
    → off < length st
    → length xs ≤ length st
    → i < length xs
    → at (ring_write st off xs) ((off + i) % length st) ≡ at xs i
ring_write_puts st off xs i inside fits lt =
    at-ring_write st off xs inside fits ((off + i) % length st) (mod-lt (off + i) (omega arith))
    ∙ ground (arith, mod_wrap (off + i) (length st))

-- A write behind `n` bytes of the ring keeps them, and puts its own behind them.
pub ring-ring_write :
    (st : Bytes) (h n : ℕ) (xs : Bytes)
    → h < length st
    → n + length xs ≤ length st
    → ring (ring_write st ((h + n) % length st) xs) h (n + length xs) ≡ ring st h n ++ xs
ring-ring_write st h n xs inside fits =
    ring-add after h n (length xs)
    ∙ ap₂ ◌++◌
        (sym (
          ring_agree st after h n (sym len)
            (λ i lt. sym (ring_write_keeps st h n xs i inside fits lt))))
        (sym (ring_ext xs after (h + n) new))
  where
    off : ℕ
    off = (h + n) % length st

    off_lt : off < length st
    off_lt = mod-lt (h + n) (omega arith)

    after : Bytes
    after = ring_write st off xs

    len : length after ≡ length st
    len = length-ring_write st off xs off_lt (omega arith)

    new : (i : ℕ) → i < length xs → at xs i ≡ at after ((h + n + i) % length after)
    new i lt =
        sym (ring_write_puts st off xs i off_lt (omega arith) lt)
        ∙ ap (at after) (mod-add-mod (h + n) (length st) i)
        ∙ ap (λ l. at after ((h + n + i) % l)) (sym len)
