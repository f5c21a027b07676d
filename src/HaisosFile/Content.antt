-- ===== src/HaisosFile/Content.antt =====
-- src/haisos/HaisosFileParser.cpp: ParseFileContent.
pub mod Multiline
use haisos.Common.{
  ℕ, suc, Bool, true, false, not, ◌&&◌, ◌||◌, Option, none, some, List, [], ◌∷◌, ◌++◌, ◌==◌,
  if◌then◌else◌, Bytes, codes, bytes_eq, is_empty, drop, starts_with,
}
use haisos.Common.Outcome.{ok, err, bind}
use haisos.HaisosFile.Text.{
  is_quote, is_blank_byte, split_at, trim, strip_carriage_return, Parsed, line_error,
}

-- The content, the lines that are left of the stream, and the number of the last line read.
abbrev pub Content : Type 0
Content = Bytes × List Bytes × ℕ

abbrev pub starts_with_byte : ℕ → Bytes → Bool
starts_with_byte c [] = false
starts_with_byte c (a ∷ s) = a == c

abbrev pub starts_with_blank : Bytes → Bool
starts_with_blank [] = false
starts_with_blank (a ∷ s) = is_blank_byte a

abbrev pub more : Bool → Bytes → Bytes → Bytes
more first content line = if first then line else content ++ (10 ∷ line)

-- The loop over the lines of a multiline text; `none` where they end without the marker.
unfoldable pub multiline_loop : Bytes → Bool → Bytes → ℕ → List Bytes → Option Content
unfolding trim strip_carriage_return bytes_eq
multiline_loop marker first content n [] = none
multiline_loop marker first content n (raw ∷ lines) =
    let line = strip_carriage_return raw in
    let later = multiline_loop marker false (more first content line) (suc n) lines in
    if bytes_eq (trim line) marker then some (content, lines, suc n) else later

-- The content behind an opening quote.
abbrev pub quoted_content : Bytes → ℕ → ℕ → List Bytes → Option (Bytes × Bytes) → Parsed Content
quoted_content key n q lines none = err (
    line_error n (
      key
      ++ (codes ": unterminated "
          ++ ((if q == 34 then codes "double" else codes "single") ++ codes "-quoted text"))))
quoted_content key n q lines (some (inside, behind)) =
    let trailing = trim behind in
    if not (is_empty trailing) && not (starts_with_byte b'#' trailing)
    then err
        (line_error n (key ++ (codes ": unexpected text after the closing quote: " ++ trailing)))
    else ok (inside, lines, n)

abbrev pub closed_by : Bytes → ℕ → Bytes → Option Content → Parsed Content
closed_by key n marker (some content) = ok content
closed_by key n marker none = err (
    line_error n (
      key
      ++ (codes ": multiline text is never closed by a line containing only '"
          ++ (marker ++ codes "'"))))

abbrev pub multiline_content : Bytes → ℕ → List Bytes → Bytes → Parsed Content
multiline_content key n lines marker =
    if is_empty marker
    then err
        (line_error n (key ++ codes ": multiline requires an end marker (e.g. `multiline EOF`)"))
    else closed_by key n marker (multiline_loop marker true [] n lines)

-- The content that starts with no quote.
unfoldable pub plain_content : Bytes → Bytes → ℕ → List Bytes → Parsed Content
unfolding multiline_loop starts_with
plain_content key spec n lines =
    let behind = drop 9 spec in
    if starts_with spec (codes "text:")
    then ok (drop 5 spec, lines, n)
    else if starts_with spec (codes "multiline") && (is_empty behind || starts_with_blank behind)
    then multiline_content key n lines (trim behind)
    else err (
        line_error n (
          key
          ++ codes
              " requires content after the path: 'text', \"text\", text:<rest of line>, or multiline <marker>"))

-- ParseFileContent.
unfoldable pub parse_file_content : Bytes → Bytes → ℕ → List Bytes → Parsed Content
unfolding plain_content split_at
parse_file_content key [] n lines = plain_content key [] n lines
parse_file_content key (c ∷ s) n lines =
    if is_quote c
    then quoted_content key n c lines (split_at c s)
    else plain_content key (c ∷ s) n lines
