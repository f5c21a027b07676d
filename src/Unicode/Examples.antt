-- ===== src/Unicode/Examples.antt =====
-- Runs of src/components/Unicode/Unicode.cpp, and the theorem at concrete bytes.
use haisos.Common.{[], ◌∷◌, ◌≡◌, refl, true, false}
use haisos.Unicode.{
  valid, invalid, incomplete, decode_utf8, classify, follow, is_printable, is_space,
  is_no_break_space,
}
use haisos.Unicode.Scalar.{Sound, decode_utf8-Sound}

euro_sign : decode_utf8 226 (130 ∷ 172 ∷ 65 ∷ []) ≡ valid 8364 3
unfolding decode_utf8 classify follow
euro_sign = refl

surrogate : decode_utf8 237 (160 ∷ 128 ∷ []) ≡ invalid
unfolding decode_utf8 classify follow
surrogate = refl

cut_off : decode_utf8 240 (159 ∷ 152 ∷ []) ≡ incomplete
unfolding decode_utf8 classify follow
cut_off = refl

noncharacter : is_printable 131071 ≡ false
unfolding is_printable
noncharacter = refl

ideographic_space : is_space 12288 ≡ true
unfolding is_space
ideographic_space = refl

figure_space : is_no_break_space 8199 ≡ true
unfolding is_no_break_space
figure_space = refl

decode_utf8-Sound_example : Sound 4 (decode_utf8 240 (159 ∷ 152 ∷ 128 ∷ []))
decode_utf8-Sound_example = decode_utf8-Sound 240 (159 ∷ 152 ∷ 128 ∷ [])
