-- ===== src/Unicode.antt =====
-- src/components/Unicode/Unicode.cpp: UTF-8 and the classes of characters. `lead & 0x1F` and the like are
-- remainders, and a shift with an or is a product with a sum.
pub mod Scalar
mod Examples
use haisos.Common.{
  ℕ, suc, zero, ◌+◌, ◌*◌, ◌%◌, Bool, true, false, not, ◌&&◌, ◌||◌, Option, none, some, List, [],
  ◌∷◌, ◌==◌, leb, ltb, if◌then◌else◌, Bytes,
}
use haisos.Hsh.Bracket.{between}

-- DecodedChar: whole, with its code point and its length; invalid, which takes one byte; or cut off.
pub data Decoded : Type 0 where
  valid : ℕ → ℕ → Decoded
  invalid incomplete : Decoded

-- What the first byte fixes: how many bytes follow, the span of the second, and its own bits.
pub record Lead : Type 0 where
  pub following : ℕ
  pub second_min : ℕ
  pub second_max : ℕ
  pub bits : ℕ

abbrev pub lead_of : ℕ → ℕ → ℕ → ℕ → Lead
lead_of following second_min second_max bits = record {
  following = following;
  second_min = second_min;
  second_max = second_max;
  bits = bits;
}

-- The chain of tests on the first byte, above 0x7F.
unfoldable pub classify : ℕ → Option Lead
classify lead =
    if between 194 223 lead
    then some (lead_of 1 128 191 (lead % 32))
    else if lead == 224
    then some (lead_of 2 160 191 (lead % 16))
    else if between 225 236 lead || (lead == 238 || lead == 239)
    then some (lead_of 2 128 191 (lead % 16))
    else if lead == 237
    then some (lead_of 2 128 159 (lead % 16))
    else if lead == 240
    then some (lead_of 3 144 191 (lead % 8))
    else if between 241 243 lead
    then some (lead_of 3 128 191 (lead % 8))
    else if lead == 244
    then some (lead_of 3 128 143 (lead % 8))
    else none

-- The loop over the bytes that follow: those left to take, the span of the next one, the code point
-- so far and the whole length.
unfoldable pub follow : ℕ → ℕ → ℕ → ℕ → ℕ → Bytes → Decoded
follow zero lo hi code_point size s = valid code_point size
follow (suc n) lo hi code_point size [] = incomplete
follow (suc n) lo hi code_point size (b ∷ s) =
    let rest = follow n 128 191 (code_point * 64 + b % 64) size s in
    if not (between lo hi b) then invalid else rest

abbrev pub decode_after : Option Lead → Bytes → Decoded
decode_after none s = invalid
decode_after (some lead) s =
    follow lead.following lead.second_min lead.second_max lead.bits (suc lead.following) s

-- DecodeUtf8, of at least one byte.
unfoldable pub decode_utf8 : ℕ → Bytes → Decoded
decode_utf8 lead s = if leb lead 127 then valid lead 1 else decode_after (classify lead) s

-- IsPrintable.
unfoldable pub is_printable : ℕ → Bool
is_printable c =
    if ltb 1114111 c
    then false
    else if leb c 31
    then false
    else if between 127 159 c
    then false
    else if c == 8232 || c == 8233
    then false
    else if between 64976 65007 c
    then false
    else if between 55296 57343 c
    then false
    else not (leb 65534 (c % 65536))

-- IsSpace.
unfoldable pub is_space : ℕ → Bool
is_space c =
    between 9 13 c
    || (c == 32
        || (c == 5760
            || (between 8192 8198 c
                || (between 8200 8202 c
                    || ((c == 8232 || c == 8233) || (c == 8287 || c == 12288))))))

-- IsNoBreakSpace.
unfoldable pub is_no_break_space : ℕ → Bool
is_no_break_space c = c == 160 || (c == 8199 || (c == 8239 || c == 8288))
