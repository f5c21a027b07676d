-- ===== src/Hsh/Pattern.antt =====
-- src/components/BuiltinCommands/commands/hsh/HshPattern.cpp: shell patterns. A position in the pattern
-- is a number, as there; a position in the text is the rest of the text from it on.
pub mod Matches
pub mod Decide
pub mod Escape
pub mod Remove
mod Examples
use mathlib.Core.Option
use mathlib.Core.List.{tail}
use haisos.Common.{
  ℕ, zero, suc, ◌+◌, ◌-◌, ◌*◌, Bool, true, false, not, ◌&&◌, ◌||◌, Option, none, some, List, [],
  ◌∷◌, ◌++◌, ◌==◌, ltb, leb, if◌then◌else◌, Bytes, codes, bytes_eq, take, drop, length, get_or,
}
use haisos.Hsh.Bracket.{backslash, at, bracket_end, bracket_matches}

-- What stands at a position of a pattern: nothing, a '*', or what one byte must match, with the
-- position behind it. This is the chain of tests in MatchPattern's loop.
pub data Single : Type 0 where
  any_byte : Single
  byte : ℕ → Single
  bracket : ℕ → ℕ → Single

pub data Element : Type 0 where
  no_more star : Element
  one : Single → ℕ → Element

unfoldable pub element_at : Bytes → ℕ → Element
element_at pattern p =
    let n = length pattern in
    let c = at pattern p in
    if not (ltb p n)
    then no_more
    else if c == b'*'
    then star
    else if c == b'?'
    then one any_byte (p + 1)
    else if c == backslash && ltb (p + 1) n
    then one (byte (at pattern (p + 1))) (p + 2)
    else if c == b'['
    then (elim (bracket_end pattern p) [
      | some e ↦ one (bracket p e) e
      | none ↦ one (byte c) (p + 1)
    ])
    else one (byte c) (p + 1)

unfoldable pub accepts : Bytes → Single → ℕ → Bool
unfolding bracket_matches
accepts pattern any_byte ch = true
accepts pattern (byte c) ch = ch == c
accepts pattern (bracket open_at past_end) ch = bracket_matches pattern open_at past_end ch

-- The last loop of MatchPattern and its result, over the rest of the pattern.
unfoldable pub only_stars : Bytes → Bool
only_stars [] = true
only_stars (c ∷ s) = c == b'*' && only_stars s

-- starAfter and starText, where a '*' was seen.
abbrev pub Star : Type 0
Star = Option (ℕ × Bytes)

-- p = starAfter; t = ++starText, or `return false` where there is no star.
abbrev pub go_back : Star → (ℕ → Bytes → Star → Option Bool) → Option Bool
go_back none next = some false
go_back (some (behind, from)) next = next behind (tail from) (some (behind, tail from))

-- MatchPattern's loop, `none` when the fuel runs out.
unfoldable pub match_loop : ℕ → Bytes → ℕ → Bytes → Star → Option Bool
match_loop zero pattern p text back = none
match_loop (suc f) pattern p [] back = some (only_stars (drop p pattern))
match_loop (suc f) pattern p (c ∷ text) back = elim (element_at pattern p) [
  | no_more ↦ go_back back (match_loop f pattern)
  | star ↦ match_loop f pattern (p + 1) (c ∷ text) (some (p + 1, c ∷ text))
  | one s next ↦ elim (accepts pattern s c) [
    | true ↦ match_loop f pattern next text back
    | false ↦ go_back back (match_loop f pattern)
  ]
]

-- Rounds that are enough for MatchPattern: each star position at worst walks the whole pattern.
abbrev pub rounds : Bytes → Bytes → ℕ
rounds pattern text = (length text + 1) * (length pattern + 1)

-- The answer of a run; a run always has one.
abbrev pub answer : Option Bool → Bool
answer none = false
answer (some b) = b

-- MatchPattern.
unfoldable pub match_pattern : Bytes → Bytes → Bool
match_pattern pattern text = answer (match_loop (rounds pattern text) pattern 0 text none)

-- HasPatternCharacters.
unfoldable pub special_loop : ℕ → Bytes → ℕ → Bool
special_loop zero pattern i = false
special_loop (suc f) pattern i =
    let n = length pattern in
    let c = at pattern i in
    elim (ltb i n) [
      | false ↦ false
      | true ↦ elim (c == backslash && ltb (i + 1) n) [
        | true ↦ special_loop f pattern (i + 2)
        | false ↦ elim (c == b'*' || c == b'?') [
          | true ↦ true
          | false ↦ elim (c == b'[') [
            | true ↦ elim (bracket_end pattern i) [
              | some e ↦ true
              | none ↦ special_loop f pattern (i + 1)
            ]
            | false ↦ special_loop f pattern (i + 1)
          ]
        ]
      ]
    ]

unfoldable pub has_pattern_characters : Bytes → Bool
unfolding special_loop bracket_end
has_pattern_characters pattern = special_loop (length pattern) pattern 0

-- UnescapePattern, over the rest of the pattern.
unfoldable pub unescape_pattern : Bytes → Bytes
unescape_pattern [] = []
unescape_pattern (c ∷ []) = c ∷ []
unescape_pattern (c ∷ d ∷ s) =
    let plain = c ∷ unescape_pattern (d ∷ s) in
    if c == backslash then d ∷ unescape_pattern s else plain

abbrev pub is_special : ℕ → Bool
is_special c = c == backslash || (c == b'*' || (c == b'?' || c == b'['))

-- EscapeForPattern.
unfoldable pub escape_for_pattern : Bytes → Bytes
escape_for_pattern [] = []
escape_for_pattern (c ∷ s) =
    if is_special c then backslash ∷ c ∷ escape_for_pattern s else c ∷ escape_for_pattern s

pub data PatternRemoval : Type 0 where
  smallest_prefix largest_prefix smallest_suffix largest_suffix : PatternRemoval

abbrev pub is_prefix_removal : PatternRemoval → Bool
is_prefix_removal smallest_prefix = true
is_prefix_removal largest_prefix = true
is_prefix_removal _ = false

abbrev pub is_smallest_removal : PatternRemoval → Bool
is_smallest_removal smallest_prefix = true
is_smallest_removal smallest_suffix = true
is_smallest_removal _ = false

-- The part of |value| of a length that a removal tries.
abbrev pub candidate : PatternRemoval → Bytes → ℕ → Bytes
candidate which value len =
    if is_prefix_removal which then take len value else drop (length value - len) value

-- The two loops over lengths: upwards from |len| with |left| more to try, and downwards.
unfoldable pub cut_up : (ℕ → Bool) → ℕ → ℕ → Option ℕ
cut_up test zero len = if test len then some len else none
cut_up test (suc left) len = elim (test len) [
  | true ↦ some len
  | false ↦ cut_up test left (len + 1)
]

unfoldable pub cut_down : (ℕ → Bool) → ℕ → Option ℕ
cut_down test zero = if test 0 then some 0 else none
cut_down test (suc len) = elim (test (suc len)) [
  | true ↦ some (suc len)
  | false ↦ cut_down test len
]

-- |value| without what a cut of a length removes; `none` stands for a |cut| left at n + 1.
abbrev pub after_cut : PatternRemoval → Bytes → Option ℕ → Bytes
after_cut which value none = value
after_cut which value (some len) =
    if is_prefix_removal which then drop len value else take (length value - len) value

-- RemovePattern.
unfoldable pub remove_pattern : Bytes → Bytes → PatternRemoval → Bytes
unfolding cut_up cut_down
remove_pattern value pattern which =
    let n = length value in
    let test = λ (len : ℕ). match_pattern pattern (candidate which value len) in
    let cut = if is_smallest_removal which then cut_up test n 0 else cut_down test n in
    after_cut which value cut
