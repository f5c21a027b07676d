-- ===== src/HaisosFile/Content/Multiline.antt =====
-- The multiline text of src/haisos/HaisosFileParser.cpp.
use haisos.Common.{
  ℕ, suc, ◌+◌, true, false, ◌≡◌, refl, ◌∙◌, some, List, [], ◌∷◌, ◌++◌, arith, Bytes, All, bytes_eq,
  bytes_eq_self, length, append_assoc, append-nil,
}
use haisos.HaisosFile.Text.{trim, strip_carriage_return}
use haisos.HaisosFile.Content.{multiline_loop}

-- The lines behind the first one, each with a newline in front, and lines as one text.
abbrev pub joined_behind : List Bytes → Bytes
joined_behind [] = []
joined_behind (line ∷ lines) = 10 ∷ (line ++ joined_behind lines)

abbrev pub joined : List Bytes → Bytes
joined [] = []
joined (line ∷ lines) = line ++ joined_behind lines

-- A line of content: it ends in no carriage return, and is not the marker.
abbrev pub IsContent : Bytes → Bytes → Type 0
IsContent marker line = (strip_carriage_return line ≡ line) × (bytes_eq (trim line) marker ≡ false)

module _ (marker closing : Bytes) (closes : trim (strip_carriage_return closing) ≡ marker)
    (rest : List Bytes) where
  later_lines :
      (n : ℕ) (content : Bytes) (lines : List Bytes)
      → All (IsContent marker) lines
      → multiline_loop marker false content n (lines ++ (closing ∷ rest))
        ≡ some (content ++ joined_behind lines, rest, suc (n + length lines))
  unfolding multiline_loop
  later_lines n content [] h =
      let k : n ≡ n + 0 = omega arith in rw (closes, bytes_eq_self marker, append-nil, ← k) refl
  later_lines n content (line ∷ lines) ((same, other), h) =
      let k : suc n + length lines ≡ n + suc (length lines) = omega arith in
      rw (same, other)
        (later_lines (suc n) (content ++ (10 ∷ line)) lines h
          ∙ rw (append_assoc content (10 ∷ line) (joined_behind lines), k) refl)

  -- Lines of which none ends in a carriage return or is the marker when it is trimmed, and behind them
  -- one that is the marker when it is trimmed: the content is those lines with a newline between them,
  -- and the lines behind the marker are left for the parser, with the number of the marker's line.
  pub multiline_loop-joined :
      (n : ℕ) (lines : List Bytes)
      → All (IsContent marker) lines
      → multiline_loop marker true [] n (lines ++ (closing ∷ rest))
        ≡ some (joined lines, rest, suc (n + length lines))
  unfolding multiline_loop
  multiline_loop-joined n [] h =
      let k : n ≡ n + 0 = omega arith in rw (closes, bytes_eq_self marker, ← k) refl
  multiline_loop-joined n (line ∷ lines) ((same, other), h) =
      let k : suc n + length lines ≡ n + suc (length lines) = omega arith in
      rw (same, other) (later_lines (suc n) line lines h ∙ rw k refl)
