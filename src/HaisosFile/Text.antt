-- ===== src/HaisosFile/Text.antt =====
-- src/haisos/HaisosFileParser.cpp: the helpers on texts and lines, and the references to variables.
use haisos.Common.{
  ℕ, suc, Bool, true, false, ◌&&◌, ◌||◌, Option, none, some, List, [], ◌∷◌, ◌++◌, ◌==◌,
  if◌then◌else◌, Bytes, codes, is_empty,
}
use haisos.Common.Dict.{Dict, lookup}
use haisos.Common.Outcome.{Result, ok, err}
use haisos.Hsh.Arithmetic.Numerals.{digits_of}

-- The bytes that Trim takes off, and IsBlank and IsQuote.
abbrev pub is_trimmed : ℕ → Bool
is_trimmed c = c == 32 || (c == 9 || (c == 13 || c == 10))

abbrev pub is_blank_byte : ℕ → Bool
is_blank_byte c = c == 32 || c == 9

abbrev pub is_quote : ℕ → Bool
is_quote c = c == 39 || c == 34

-- The text behind what Trim takes off its start, and before what it takes off its end.
unfoldable pub trim_start : Bytes → Bytes
trim_start [] = []
trim_start (c ∷ s) = let rest = trim_start s in if is_trimmed c then rest else c ∷ s

unfoldable pub trim_end : Bytes → Bytes
trim_end [] = []
trim_end (c ∷ s) = let rest = trim_end s in if is_empty rest && is_trimmed c then [] else c ∷ rest

-- Trim.
unfoldable pub trim : Bytes → Bytes
unfolding trim_start trim_end
trim s = trim_end (trim_start s)

-- find(c) != npos.
unfoldable pub holds_byte : ℕ → Bytes → Bool
holds_byte c [] = false
holds_byte c (a ∷ s) = a == c || holds_byte c s

-- What is in front of the first of a byte, and behind it; `none` for npos.
abbrev pub in_front : ℕ → Option (Bytes × Bytes) → Option (Bytes × Bytes)
in_front c none = none
in_front c (some (front, behind)) = some (c ∷ front, behind)

unfoldable pub split_at : ℕ → Bytes → Option (Bytes × Bytes)
split_at c [] = none
split_at c (a ∷ s) = let later = in_front a (split_at c s) in if a == c then some ([], s) else later

-- find_first_not_of(" \t") from here, and find_first_of(" \t"): the word and what is behind it.
unfoldable pub past_blanks : Bytes → Bytes
past_blanks [] = []
past_blanks (c ∷ s) = let rest = past_blanks s in if is_blank_byte c then rest else c ∷ s

unfoldable pub first_word : Bytes → Bytes × Bytes
first_word [] = ([], [])
first_word (c ∷ s) =
    let (w, rest) = first_word s in if is_blank_byte c then ([], c ∷ s) else (c ∷ w, rest)

-- The loop of StripComment. |quoted| is the quote of a quoted token that the loop is in, which ends at
-- the next of its kind; |starts| says that a token would start here.
unfoldable pub strip_loop : Option ℕ → Bool → Bytes → Bytes
unfolding holds_byte
strip_loop quoted starts [] = []
strip_loop (some q) starts (c ∷ s) =
    let inside = strip_loop (some q) false s in
    let behind = strip_loop none false s in c ∷ (if c == q then behind else inside)
strip_loop none starts (c ∷ s) =
    let inside = strip_loop (some c) false s in
    let next = strip_loop none (is_blank_byte c) s in
    if starts && is_quote c
    then (if holds_byte c s then c ∷ inside else c ∷ s)
    else if starts && c == b'#'
    then []
    else c ∷ next

-- StripComment.
unfoldable pub strip_comment : Bytes → Bytes
unfolding strip_loop
strip_comment line = strip_loop none true line

-- StripCarriageReturn.
unfoldable pub strip_carriage_return : Bytes → Bytes
strip_carriage_return [] = []
strip_carriage_return (c ∷ []) = if c == 13 then [] else c ∷ []
strip_carriage_return (c ∷ d ∷ s) = c ∷ strip_carriage_return (d ∷ s)

-- IsAbsoluteOsPath.
unfoldable pub is_absolute_os_path : Bytes → Bool
is_absolute_os_path [] = false
is_absolute_os_path (c ∷ s) = c == b'/'

-- The message of an error, and a result that may be one.
abbrev pub Parsed : Type 0 → Type 0
Parsed A = Result Bytes A

-- std::to_string of a line's number.
abbrev pub number_text : ℕ → Bytes
number_text n = digits_of (suc n) n

-- LineError.
unfoldable pub line_error : ℕ → Bytes → Bytes
unfolding digits_of
line_error n message =
    codes "Error: line " ++ (number_text n ++ (codes ": " ++ (message ++ codes "\n")))

-- The values of a reference, and the error unless there is one before it.
abbrev pub resolved : Bytes → Option Bytes → Bytes × Bytes → Bytes × Bytes
resolved name (some value) (result, error) = (value ++ result, error)
resolved name none (result, error) =
    (result, codes "Unknown variable reference: ${" ++ (name ++ codes "}\n"))

-- The loop of Substitute: its result, and the first error. |name| is what was read of the name of a
-- reference that the loop is in, whose '}' is known to follow.
unfoldable pub substitute_loop : Dict Bytes → Option Bytes → Bytes → Bytes × Bytes
unfolding holds_byte
substitute_loop values name [] = ([], [])
substitute_loop values (some name) (c ∷ s) =
    let longer = substitute_loop values (some (name ++ (c ∷ []))) s in
    let behind = resolved name (lookup name values) (substitute_loop values none s) in
    if c == b'}' then behind else longer
substitute_loop values none (c ∷ []) = (c ∷ [], [])
substitute_loop values none (c ∷ d ∷ s) =
    let reference = substitute_loop values (some []) s in
    let (result, error) = substitute_loop values none (d ∷ s) in
    if c == b'$' && d == b'{'
    then (if holds_byte b'}' s then reference else (c ∷ d ∷ s, []))
    else (c ∷ result, error)

-- Substitute.
unfoldable pub substitute : Dict Bytes → Bytes → Bytes × Bytes
unfolding substitute_loop
substitute values text = substitute_loop values none text

-- SubstituteOrFail.
abbrev pub or_fail : ℕ → Bytes × Bytes → Parsed Bytes
or_fail n (result, error) =
    if is_empty error
    then ok result
    else err (codes "Error: line " ++ (number_text n ++ (codes ": " ++ error)))

unfoldable pub substitute_or_fail : Dict Bytes → ℕ → Bytes → Parsed Bytes
unfolding substitute
substitute_or_fail values n text = or_fail n (substitute values text)

-- The lines that std::getline reads of a text, one after another.
abbrev pub onto_line : ℕ → List Bytes → List Bytes
onto_line c [] = (c ∷ []) ∷ []
onto_line c (line ∷ lines) = (c ∷ line) ∷ lines

unfoldable pub lines_of : Bytes → List Bytes
lines_of [] = []
lines_of (c ∷ s) = let rest = lines_of s in if c == 10 then [] ∷ rest else onto_line c rest
