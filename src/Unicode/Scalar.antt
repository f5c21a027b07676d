-- ===== src/Unicode/Scalar.antt =====
-- What DecodeUtf8 of src/components/Unicode/Unicode.cpp accepts.
use haisos.Common.{
  ℕ, suc, ◌%◌, ◌≤◌, ◌<◌, ◌⊎◌, inl, inr, [], ◌∷◌, leb, ltb, if◌then◌else◌, Bytes, length, arith, ◌≡◌,
  Bool-cases,
}
use haisos.Unicode.{
  Decoded, valid, invalid, incomplete, classify, follow, decode_after, decode_utf8,
}

-- A code point that is no surrogate and not beyond the last plane.
abbrev pub IsScalar : ℕ → Type 0
IsScalar c = (c < 55296) ⊎ ((57343 < c) × (c ≤ 1114111))

-- The length that UTF-8 gives a code point.
abbrev pub encoded_length : ℕ → ℕ
encoded_length c = if ltb c 128 then 1 else if ltb c 2048 then 2 else if ltb c 65536 then 3 else 4

-- What may be said of an answer for so many bytes.
abbrev pub Sound : ℕ → Decoded → Type 0
Sound available (valid c n) = IsScalar c × (n ≡ encoded_length c) × (n ≤ available)
Sound available invalid = Unit
Sound available incomplete = available < 4

follow_one :
    (lo hi bits : ℕ) (s : Bytes)
    → 128 ≤ lo
    → hi ≤ 191
    → 2 ≤ bits
    → bits < 32
    → Sound (suc (length s)) (follow 1 lo hi bits 2 s)
unfolding follow
follow_one lo hi bits [] a b c d = omega arith
follow_one lo hi bits (x ∷ s) a b c d = ground (arith, a, b, c, d)

follow_two :
    (lo hi bits : ℕ) (s : Bytes)
    → 128 ≤ lo
    → hi ≤ 191
    → bits < 16
    → (bits ≡ 0 → 160 ≤ lo)
    → (bits ≡ 13 → hi ≤ 159)
    → Sound (suc (length s)) (follow 2 lo hi bits 3 s)
unfolding follow
follow_two lo hi bits [] a b c d e = omega arith
follow_two lo hi bits (x ∷ []) a b c d e = ground (arith, a, b, c, d, e)
follow_two lo hi bits (x ∷ y ∷ s) a b c d e = ground (arith, a, b, c, d, e)

follow_three :
    (lo hi bits : ℕ) (s : Bytes)
    → 128 ≤ lo
    → hi ≤ 191
    → bits ≤ 4
    → (bits ≡ 0 → 144 ≤ lo)
    → (bits ≡ 4 → hi ≤ 143)
    → Sound (suc (length s)) (follow 3 lo hi bits 4 s)
unfolding follow
follow_three lo hi bits [] a b c d e = omega arith
follow_three lo hi bits (x ∷ []) a b c d e = ground (arith, a, b, c, d, e)
follow_three lo hi bits (x ∷ y ∷ []) a b c d e = ground (arith, a, b, c, d, e)
follow_three lo hi bits (x ∷ y ∷ z ∷ s) a b c d e = ground (arith, a, b, c, d, e)

-- The bytes behind a first byte that is no ASCII character.
decode_after-Sound :
    (lead : ℕ) (s : Bytes) → Sound (suc (length s)) (decode_after (classify lead) s)
unfolding classify
decode_after-Sound lead s = ground (
  arith,
  follow_one 128 191 (lead % 32) s,
  follow_two 160 191 (lead % 16) s,
  follow_two 128 191 (lead % 16) s,
  follow_two 128 159 (lead % 16) s,
  follow_three 144 191 (lead % 8) s,
  follow_three 128 191 (lead % 8) s,
  follow_three 128 143 (lead % 8) s,
)

-- A whole character that DecodeUtf8 finds is a code point that may be encoded, neither a surrogate nor
-- beyond the last; it takes the bytes that UTF-8 gives it, no fewer as an overlong form would, and no more
-- than there are. One that is cut off has fewer than four bytes.
pub decode_utf8-Sound : (lead : ℕ) (s : Bytes) → Sound (suc (length s)) (decode_utf8 lead s)
unfolding decode_utf8
decode_utf8-Sound lead s = elim (Bool-cases (leb lead 127)) [
  | inl e ↦ ground (arith, e)
  | inr e ↦ rw e (decode_after-Sound lead s)
]
