-- ===== src/Hsh/Bracket.antt =====
-- src/components/BuiltinCommands/commands/hsh/HshPattern.cpp: bracket expressions. A position in
-- the pattern is a number, as there.
use mathlib.Core.Option
use haisos.Common.{
  ℕ, zero, suc, ◌+◌, ◌-◌, Bool, true, false, not, ◌&&◌, ◌||◌, Option, none, some, [], ◌∷◌, ◌==◌,
  ltb, leb, if◌then◌else◌, Bytes, codes, bytes_eq, take, drop, length, get_or,
}

abbrev pub backslash : ℕ
backslash = 92

-- pattern[i]; every use below is within bounds.
abbrev pub at : Bytes → ℕ → ℕ
at s i = get_or s i 0

-- The distance from the start of a text to its first ":]".
unfoldable pub find_colon : Bytes → Option ℕ
find_colon [] = none
find_colon (a ∷ []) = none
find_colon (a ∷ b ∷ s) =
    let later = Option.map suc (find_colon (b ∷ s)) in
    if a == b':' && b == b']' then some 0 else later

-- pattern.find(":]", from), with `none` for npos.
abbrev pub find_class_end : Bytes → ℕ → Option ℕ
find_class_end pattern from = Option.map (λ k. from + k) (find_colon (drop from pattern))

-- What a round of a loop over positions does: it returns, or goes on elsewhere.
pub data Round : Type 0 where
  found : ℕ → Round
  go_on : ℕ → Round

abbrev pub plain_end : Bytes → ℕ → Round
plain_end pattern i = if at pattern i == b']' then found (i + 1) else go_on (i + 1)

-- A round of BracketEnd's loop, at a position within the pattern.
unfoldable pub end_round : Bytes → ℕ → Round
unfolding find_colon
end_round pattern i =
    let n = length pattern in
    if at pattern i == backslash && ltb (i + 1) n
    then go_on (i + 2)
    else if at pattern i == b'[' && (ltb (i + 1) n && at pattern (i + 1) == b':')
    then (elim (find_class_end pattern (i + 2)) [
      | some j ↦ go_on (j + 2)
      | none ↦ plain_end pattern i
    ])
    else plain_end pattern i

unfoldable pub end_loop : ℕ → Bytes → ℕ → Option ℕ
end_loop zero pattern i = none
end_loop (suc f) pattern i = elim (ltb i (length pattern)) [
  | false ↦ none
  | true ↦ elim (end_round pattern i) [ found e ↦ some e | go_on k ↦ end_loop f pattern k ]
]

-- Where the loop of BracketEnd starts: behind a '!' and a first ']'.
abbrev pub past : ℕ → Bytes → ℕ → ℕ
past c pattern i = if ltb i (length pattern) && at pattern i == c then i + 1 else i

-- BracketEnd, with `none` for npos. Every round goes forward, so `length pattern` rounds are
-- enough.
unfoldable pub bracket_end : Bytes → ℕ → Option ℕ
unfolding end_loop end_round
bracket_end pattern open_at =
    end_loop (length pattern) pattern (past b']' pattern (past b'!' pattern (open_at + 1)))

abbrev pub between : ℕ → ℕ → ℕ → Bool
between lo hi c = leb lo c && leb c hi

abbrev pub is_alpha : ℕ → Bool
is_alpha c = between b'a' b'z' c || between b'A' b'Z' c

abbrev pub is_digit : ℕ → Bool
is_digit = between b'0' b'9'

-- ClassMatches, with the character classes of the C locale.
unfoldable pub class_matches : Bytes → ℕ → Bool
unfolding bytes_eq
class_matches name c =
    if bytes_eq name (codes "alnum")
    then is_alpha c || is_digit c
    else if bytes_eq name (codes "alpha")
    then is_alpha c
    else if bytes_eq name (codes "blank")
    then c == b' ' || c == 9
    else if bytes_eq name (codes "cntrl")
    then ltb c 32 || c == 127
    else if bytes_eq name (codes "digit")
    then is_digit c
    else if bytes_eq name (codes "graph")
    then between 33 126 c
    else if bytes_eq name (codes "lower")
    then between b'a' b'z' c
    else if bytes_eq name (codes "print")
    then between 32 126 c
    else if bytes_eq name (codes "punct")
    then between 33 126 c && not (is_alpha c || is_digit c)
    else if bytes_eq name (codes "space")
    then c == 32 || between 9 13 c
    else if bytes_eq name (codes "upper")
    then between b'A' b'Z' c
    else if bytes_eq name (codes "xdigit")
    then is_digit c || (between b'a' b'f' c || between b'A' b'F' c)
    else false

-- A member of a bracket expression: its byte, and the position behind it.
abbrev pub member_at : Bytes → ℕ → ℕ → ℕ × ℕ
member_at pattern limit i =
    if at pattern i == backslash && ltb (i + 1) limit
    then (at pattern (i + 1), i + 2)
    else (at pattern i, i + 1)

-- The round's second half: a byte or a range of bytes.
unfoldable pub range_round : Bytes → ℕ → ℕ → ℕ → Bool → ℕ × Bool
range_round pattern limit ch i matched =
    let (lo, j) = member_at pattern limit i in
    if ltb j limit && (at pattern j == b'-' && ltb (j + 1) limit)
    then (let (hi, after) = member_at pattern limit (j + 1) in
        (after, if between lo hi ch then true else matched))
    else if lo == ch
    then (j, true)
    else (j, matched)

-- A round of BracketMatches' loop: the next position, and whether a member has matched.
unfoldable pub match_round : Bytes → ℕ → ℕ → ℕ → Bool → ℕ × Bool
unfolding range_round find_colon class_matches
match_round pattern limit ch i matched =
    if at pattern i == b'[' && (ltb (i + 1) limit && at pattern (i + 1) == b':')
    then (elim (find_class_end pattern (i + 2)) [
      | some j ↦
          if leb (j + 2) limit
          then (
            j + 2,
            if class_matches (take (j - (i + 2)) (drop (i + 2) pattern)) ch then true else matched,
          )
          else range_round pattern limit ch i matched
      | none ↦ range_round pattern limit ch i matched
    ])
    else range_round pattern limit ch i matched

unfoldable pub members_loop : ℕ → Bytes → ℕ → ℕ → ℕ → Bool → Bool
unfolding match_round
members_loop zero pattern limit ch i matched = matched
members_loop (suc f) pattern limit ch i matched = elim (ltb i limit) [
  | false ↦ matched
  | true ↦
      let (k, m) = match_round pattern limit ch i matched in members_loop f pattern limit ch k m
]

-- BracketMatches, for `past_end` from BracketEnd.
unfoldable pub bracket_matches : Bytes → ℕ → ℕ → ℕ → Bool
unfolding members_loop
bracket_matches pattern open_at past_end ch =
    let limit = past_end - 1 in
    let i = open_at + 1 in
    let negated = ltb i limit && at pattern i == b'!' in
    let matched =
      members_loop (length pattern) pattern limit ch (if negated then i + 1 else i) false in
    if negated then not matched else matched
