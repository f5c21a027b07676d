-- ===== src/Hsh/Arithmetic/Token.antt =====
-- src/components/BuiltinCommands/commands/hsh/HshArithmetic.cpp: the tokens of an expression.
use haisos.Common.{
  ℕ, suc, zero, Bool, true, false, ◌&&◌, ◌||◌, Option, none, some, List, [], ◌∷◌, ◌==◌,
  if◌then◌else◌, Bytes, length,
}
use haisos.Hsh.Number.{ℤ, pos}
use haisos.Hsh.Bracket.{is_alpha, is_digit}
use haisos.Hsh.Arithmetic.Numerals.{strtoimax}

-- TokenKind, with the number or the name of a Token.
pub data Token : Type 0 where
  end invalid : Token
  number : ℤ → Token
  name : Bytes → Token
  plus minus_sign star divide percent : Token
  shl shr lt le gt ge eq_eq not_eq : Token
  and xor or not_sign tilde : Token
  and_and or_or question colon : Token
  assign plus_eq minus_eq star_eq slash_eq percent_eq shl_eq shr_eq and_eq xor_eq or_eq : Token
  lparen rparen : Token

-- IsBlank.
abbrev pub is_blank : ℕ → Bool
is_blank c = c == b' ' || (c == 9 || c == 10)

abbrev pub is_name_byte : ℕ → Bool
is_name_byte c = (is_alpha c || is_digit c) || c == b'_'

-- The loop over the bytes of a name.
unfoldable pub take_name : Bytes → Bytes × Bytes
take_name [] = ([], [])
take_name (c ∷ s) =
    let (front, rest) = take_name s in if is_name_byte c then (c ∷ front, rest) else ([], c ∷ s)

-- The table kTwoChar.
unfoldable pub two_byte_token : ℕ → ℕ → Option Token
two_byte_token c d =
    if c == b'<' && d == b'<'
    then some shl
    else if c == b'>' && d == b'>'
    then some shr
    else if d == b'='
    then (if c == b'<'
        then some le
        else if c == b'>'
        then some ge
        else if c == b'='
        then some eq_eq
        else if c == b'!'
        then some not_eq
        else if c == b'*'
        then some star_eq
        else if c == b'/'
        then some slash_eq
        else if c == b'%'
        then some percent_eq
        else if c == b'+'
        then some plus_eq
        else if c == b'-'
        then some minus_eq
        else if c == b'&'
        then some and_eq
        else if c == b'^'
        then some xor_eq
        else if c == b'|'
        then some or_eq
        else none)
    else if c == b'&' && d == b'&'
    then some and_and
    else if c == b'|' && d == b'|'
    then some or_or
    else none

-- The switch on one byte.
unfoldable pub one_byte_token : ℕ → Token
one_byte_token c =
    if c == b'+'
    then plus
    else if c == b'-'
    then minus_sign
    else if c == b'*'
    then star
    else if c == b'/'
    then divide
    else if c == b'%'
    then percent
    else if c == b'<'
    then lt
    else if c == b'>'
    then gt
    else if c == b'&'
    then and
    else if c == b'^'
    then xor
    else if c == b'|'
    then or
    else if c == b'!'
    then not_sign
    else if c == b'~'
    then tilde
    else if c == b'?'
    then question
    else if c == b':'
    then colon
    else if c == b'='
    then assign
    else if c == b'('
    then lparen
    else if c == b')'
    then rparen
    else invalid

abbrev pub three_byte_token : ℕ → ℕ → ℕ → Option Token
three_byte_token c d e =
    if e == b'='
    then (if c == b'<' && d == b'<'
        then some shl_eq
        else if c == b'>' && d == b'>'
        then some shr_eq
        else none)
    else none

-- An operator, the longest first, from its first byte and the rest.
unfoldable pub operator_round : ℕ → Bytes → Token × Bytes
unfolding two_byte_token one_byte_token
operator_round c [] = (one_byte_token c, [])
operator_round c (d ∷ []) = elim (two_byte_token c d) [
  | some t ↦ (t, [])
  | none ↦ (one_byte_token c, d ∷ [])
]
operator_round c (d ∷ e ∷ s) = elim (three_byte_token c d e) [
  | some t ↦ (t, s)
  | none ↦ elim (two_byte_token c d) [ some t ↦ (t, e ∷ s) | none ↦ (one_byte_token c, d ∷ e ∷ s) ]
]

-- A number from its first digit on; the first branch is for a strtoimax that reads nothing.
abbrev pub number_round : Bytes → Option (ℤ × Bytes) → Token × Bytes
number_round after none = (number (pos 0), after)
number_round after (some (value, rest)) = (number value, rest)

-- A round of Tokenize's loop over a byte that is no blank.
unfoldable pub token_round : ℕ → Bytes → Token × Bytes
token_round c s =
    if is_digit c
    then number_round s (strtoimax (c ∷ s))
    else if is_alpha c || c == b'_'
    then (let (text, rest) = take_name (c ∷ s) in (name text, rest))
    else operator_round c s

-- A token in front of those of the rest.
abbrev pub prepend : Token → Option (List Token) → Option (List Token)
prepend t none = none
prepend t (some tokens) = some (t ∷ tokens)

-- The loop of Tokenize, `none` when the fuel runs out. Each round takes a byte or more, so fuel above
-- the number of bytes is enough.
unfoldable pub tokenize_loop : ℕ → Bytes → Option (List Token)
tokenize_loop zero s = none
tokenize_loop (suc f) [] = some (end ∷ [])
tokenize_loop (suc f) (c ∷ s) = elim (is_blank c) [
  | true ↦ tokenize_loop f s
  | false ↦ let (t, rest) = token_round c s in prepend t (tokenize_loop f rest)
]

-- Tokenize.
unfoldable pub tokenize : Bytes → Option (List Token)
unfolding tokenize_loop
tokenize s = tokenize_loop (suc (length s)) s
