-- ===== src/HaisosFile/Tokens.antt =====
-- src/haisos/HaisosFileParser.cpp: SplitTokens.
use haisos.Common.{ℕ, Bool, true, List, [], ◌∷◌, ◌++◌, ◌==◌, if◌then◌else◌, Bytes, codes}
use haisos.Common.Outcome.{ok, err, out_of_fuel}
use haisos.HaisosFile.Text.{is_blank_byte, is_quote, holds_byte, Parsed, line_error}

-- Where the loop is: between tokens, in a plain token, or in a quoted one, which started with a
-- quote at |start|. A token carries its bytes so far.
pub data Place : Type 0 where
  between : Place
  in_word : Bytes → Place
  in_quotes : ℕ → Bytes → Bytes → Place

abbrev pub put : Bytes → Parsed (List Bytes) → Parsed (List Bytes)
put token (ok tokens) = ok (token ∷ tokens)
put token (err message) = err message
put token out_of_fuel = out_of_fuel

-- Whether a token ends here.
abbrev pub ends_token : Bytes → Bool
ends_token [] = true
ends_token (c ∷ s) = is_blank_byte c

abbrev pub kind_of : ℕ → Bytes
kind_of q = if q == 34 then codes "double" else codes "single"

abbrev pub unterminated : ℕ → ℕ → Bytes → Bytes
unterminated n q start =
    line_error n (codes "unterminated " ++ (kind_of q ++ (codes "-quoted text: " ++ start)))

-- The loop of SplitTokens, on the rest of the text.
unfoldable pub tokens_loop : ℕ → Place → Bytes → Parsed (List Bytes)
unfolding holds_byte
tokens_loop n between [] = ok []
tokens_loop n (in_word token) [] = ok (token ∷ [])
tokens_loop n (in_quotes q start token) [] = err (unterminated n q start)
tokens_loop n between (c ∷ s) =
    let skipped = tokens_loop n between s in
    let quoted = tokens_loop n (in_quotes c (c ∷ s) []) s in
    let word = tokens_loop n (in_word (c ∷ [])) s in
    if is_blank_byte c
    then skipped
    else if is_quote c
    then (if holds_byte c s then quoted else err (unterminated n c (c ∷ s)))
    else word
tokens_loop n (in_word token) (c ∷ s) =
    let ended = put token (tokens_loop n between s) in
    let longer = tokens_loop n (in_word (token ++ (c ∷ []))) s in
    if is_blank_byte c then ended else longer
tokens_loop n (in_quotes q start token) (c ∷ s) =
    let ended = put token (tokens_loop n between s) in
    let longer = tokens_loop n (in_quotes q start (token ++ (c ∷ []))) s in
    if c == q
    then (if ends_token s
        then ended
        else err (line_error n (codes "unexpected text right after the closing quote: " ++ start)))
    else longer

-- SplitTokens.
unfoldable pub split_tokens : ℕ → Bytes → Parsed (List Bytes)
unfolding tokens_loop
split_tokens n text = tokens_loop n between text
