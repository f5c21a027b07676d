-- ===== src/HaisosFile/Spelling.antt =====
-- The tokens of a directive of src/haisos/HaisosFileParser.cpp, spelled out and read back.
use haisos.Common.{
  ℕ, true, false, ◌≡◌, refl, ap, ◌∙◌, none, some, List, [], ◌∷◌, ◌++◌, ◌==◌, arith, Bytes, All, map,
  append_assoc, append-nil,
}
use haisos.Common.Outcome.{ok}
use haisos.HaisosFile.Text.{is_blank_byte, is_quote, holds_byte, strip_loop, strip_comment}
use haisos.HaisosFile.Tokens.{
  between, in_word, in_quotes, put, ends_token, tokens_loop, split_tokens,
}

-- A token and how it is written: as it is, or in quotes of a kind. A plain one carries its first
-- byte and the others.
pub data Spelled : Type 0 where
  plain : ℕ → Bytes → Spelled
  quoted : ℕ → Bytes → Spelled

abbrev pub token_of : Spelled → Bytes
token_of (plain c t) = c ∷ t
token_of (quoted q t) = t

abbrev pub spell : Spelled → Bytes
spell (plain c t) = c ∷ t
spell (quoted q t) = q ∷ (t ++ (q ∷ []))

-- The tokens behind the first one, each with a blank in front, and a line of tokens.
abbrev pub behind : List Spelled → Bytes
behind [] = []
behind (s ∷ ss) = b' ' ∷ (spell s ++ behind ss)

abbrev pub spelled_line : List Spelled → Bytes
spelled_line [] = []
spelled_line (s ∷ ss) = spell s ++ behind ss

-- A plain token has no blanks and starts with neither a quote nor a '#'; a quoted one does not hold
-- its own quote.
abbrev pub Fits : Spelled → Type 0
Fits (plain c t) =
    (is_quote c ≡ false) × ((c == b'#') ≡ false) × All (λ a. is_blank_byte a ≡ false) (c ∷ t)
Fits (quoted q t) = (is_quote q ≡ true) × (holds_byte q t ≡ false)

holds_byte-append : (q : ℕ) (t rest : Bytes) → holds_byte q (t ++ (q ∷ rest)) ≡ true
unfolding holds_byte
holds_byte-append q [] rest = ground arith
holds_byte-append q (a ∷ t) rest = ground (arith, holds_byte-append q t rest)

word-read :
    (n : ℕ) (token t rest : Bytes)
    → All (λ a. is_blank_byte a ≡ false) t
    → tokens_loop n (in_word token) (t ++ rest) ≡ tokens_loop n (in_word (token ++ t)) rest
unfolding tokens_loop
word-read n token [] rest h = rw append-nil refl
word-read n token (a ∷ t) rest (p, h) =
    rw p (word-read n (token ++ (a ∷ [])) t rest h ∙ rw (append_assoc token (a ∷ []) t) refl)

quotes-read :
    (n q : ℕ) (start token t rest : Bytes)
    → holds_byte q t ≡ false
    → ends_token rest ≡ true
    → tokens_loop n (in_quotes q start token) (t ++ (q ∷ rest))
      ≡ put (token ++ t) (tokens_loop n between rest)
unfolding tokens_loop holds_byte
quotes-read n q start token [] rest h e = ground (arith, append-nil token)
quotes-read n q start token (a ∷ t) rest h e =
    ground (arith, quotes-read n q start (token ++ (a ∷ [])) t rest, append_assoc token (a ∷ []) t)

behind-ends : (ss : List Spelled) → ends_token (behind ss) ≡ true
behind-ends [] = refl
behind-ends (s ∷ ss) = refl

word-behind :
    (n : ℕ) (token : Bytes) (ss : List Spelled)
    → tokens_loop n (in_word token) (behind ss) ≡ put token (tokens_loop n between (behind ss))
unfolding tokens_loop
word-behind n token [] = refl
word-behind n token (s ∷ ss) = refl

quote_not_blank : (q : ℕ) → is_quote q ≡ true → is_blank_byte q ≡ false
quote_not_blank q h = ground arith

-- The token at a place between tokens.
between-spell :
    (n : ℕ) (s : Spelled) (ss : List Spelled)
    → Fits s
    → tokens_loop n between (spell s ++ behind ss)
      ≡ put (token_of s) (tokens_loop n between (behind ss))
unfolding tokens_loop
between-spell n (plain c t) ss (not_quote, not_hash, (not_blank, rest)) =
    rw (not_blank, not_quote) (word-read n (c ∷ []) t (behind ss) rest ∙ word-behind n (c ∷ t) ss)
between-spell n (quoted q t) ss (is, free) =
    rw
      (
        append_assoc t (q ∷ []) (behind ss),
        quote_not_blank q is,
        is,
        holds_byte-append q t (behind ss),
      )
      (quotes-read n q _ [] t (behind ss) free (behind-ends ss))

behind-split :
    (n : ℕ) (ss : List Spelled)
    → All Fits ss
    → tokens_loop n between (behind ss) ≡ ok (map token_of ss)
unfolding tokens_loop
behind-split n [] f = refl
behind-split n (s ∷ ss) (f, fs) =
    between-spell n s ss f ∙ ap (put (token_of s)) (behind-split n ss fs)

split_tokens-spelled :
    (n : ℕ) (ss : List Spelled)
    → All Fits ss
    → split_tokens n (spelled_line ss) ≡ ok (map token_of ss)
unfolding split_tokens tokens_loop
split_tokens-spelled n [] f = refl
split_tokens-spelled n (s ∷ ss) (f, fs) =
    between-spell n s ss f ∙ ap (put (token_of s)) (behind-split n ss fs)

-- StripComment takes nothing off.
word-stripped :
    (t rest : Bytes)
    → All (λ a. is_blank_byte a ≡ false) t
    → strip_loop none false (t ++ rest) ≡ t ++ strip_loop none false rest
unfolding strip_loop
word-stripped [] rest h = refl
word-stripped (a ∷ t) rest (p, h) = rw p (ap (◌∷◌ a) (word-stripped t rest h))

quotes-stripped :
    (q : ℕ) (t rest : Bytes)
    → holds_byte q t ≡ false
    → strip_loop (some q) false (t ++ (q ∷ rest)) ≡ t ++ (q ∷ strip_loop none false rest)
unfolding strip_loop holds_byte
quotes-stripped q [] rest h = ground arith
quotes-stripped q (a ∷ t) rest h = ground (arith, quotes-stripped q t rest)

spell-stripped :
    (s : Spelled) (ss : List Spelled)
    → Fits s
    → strip_loop none true (spell s ++ behind ss) ≡ spell s ++ strip_loop none false (behind ss)
unfolding strip_loop
spell-stripped (plain c t) ss (not_quote, not_hash, (not_blank, rest)) =
    rw (not_quote, not_hash, not_blank) (ap (◌∷◌ c) (word-stripped t (behind ss) rest))
spell-stripped (quoted q t) ss (is, free) =
    rw (append_assoc t (q ∷ []) (behind ss), is, holds_byte-append q t (behind ss))
      (ap (◌∷◌ q) (quotes-stripped q t (behind ss) free ∙ rw (append_assoc t (q ∷ []) _) refl))

behind-stripped : (ss : List Spelled) → All Fits ss → strip_loop none false (behind ss) ≡ behind ss
unfolding strip_loop
behind-stripped [] f = refl
behind-stripped (s ∷ ss) (f, fs) =
    ap (◌∷◌ b' ') (spell-stripped s ss f ∙ ap (◌++◌ (spell s)) (behind-stripped ss fs))

strip_comment-spelled :
    (ss : List Spelled) → All Fits ss → strip_comment (spelled_line ss) ≡ spelled_line ss
unfolding strip_comment strip_loop
strip_comment-spelled [] f = refl
strip_comment-spelled (s ∷ ss) (f, fs) =
    spell-stripped s ss f ∙ ap (◌++◌ (spell s)) (behind-stripped ss fs)

-- A line of tokens, each written plainly, where it has no blank and starts with neither a quote
-- nor a '#', or in quotes of a kind that it does not hold, is read back as those tokens, and no part of
-- it is taken for a comment.
pub read-spelled :
    (n : ℕ) (ss : List Spelled)
    → All Fits ss
    → (strip_comment (spelled_line ss) ≡ spelled_line ss)
      × (split_tokens n (spelled_line ss) ≡ ok (map token_of ss))
read-spelled n ss f = (strip_comment-spelled ss f, split_tokens-spelled n ss f)
