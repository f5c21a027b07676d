-- ===== src/HaisosFile/Results.antt =====
-- The results of the parser of src/haisos/HaisosFileParser.cpp: the model comes to one.
use haisos.Common.{
  ℕ, Bool, true, false, not, ◌≡◌, refl, List, [], ◌∷◌, ◌++◌, ◌==◌, Bytes, if_cases, if◌then◌else◌,
}
use haisos.Common.Outcome.{ok, err, out_of_fuel, bind}
use haisos.HaisosFile.Text.{
  Parsed, or_fail, substitute, substitute_or_fail, is_quote, is_blank_byte, holds_byte,
}
use haisos.HaisosFile.Tokens.{
  Place, between, in_word, in_quotes, put, ends_token, tokens_loop, split_tokens,
}
use haisos.HaisosFile.Config.{ParserState, tokens_of}

-- The model never runs out of fuel, and a result that is no error has a property.
abbrev pub Holds : {A : Type 0} → (A → Type 0) → Parsed A → Type 0
Holds P (ok a) = P a
Holds P (err message) = Unit
Holds P out_of_fuel = ⊥

abbrev pub Ends : {A : Type 0} → Parsed A → Type 0
Ends = Holds (λ a. Unit)

pub Holds-bind :
    {A B : Type 0} (Q : A → Type 0) (P : B → Type 0) (r : Parsed A) (f : A → Parsed B)
    → Holds Q r
    → ((a : A) → Q a → Holds P (f a))
    → Holds P (bind r f)
Holds-bind Q P (ok a) f h k = k a h
Holds-bind Q P (err message) f h k = tt
Holds-bind Q P out_of_fuel f h k = h

-- A result that a test guards.
pub Holds-if :
    {A : Type 0} (P : A → Type 0) (b : Bool) (message : Bytes) (r : Parsed A)
    → (b ≡ false → Holds P r)
    → Holds P (if b then err message else r)
Holds-if P true message r h = tt
Holds-if P false message r h = h refl

put-Ends : (token : Bytes) (r : Parsed (List Bytes)) → Ends r → Ends (put token r)
put-Ends token (ok tokens) h = tt
put-Ends token (err message) h = tt
put-Ends token out_of_fuel h = h

tokens_loop-Ends : (n : ℕ) (place : Place) (s : Bytes) → Ends (tokens_loop n place s)
unfolding tokens_loop
tokens_loop-Ends n between [] = tt
tokens_loop-Ends n (in_word token) [] = tt
tokens_loop-Ends n (in_quotes q start token) [] = tt
tokens_loop-Ends n between (c ∷ s) =
    if_cases Ends (is_blank_byte c) _ _ (λ _. tokens_loop-Ends n between s)
      (λ _.
        if_cases Ends (is_quote c) _ _
          (λ _.
            if_cases Ends (holds_byte c s) _ _ (λ _. tokens_loop-Ends n (in_quotes c (c ∷ s) []) s)
              (λ _. tt))
          (λ _. tokens_loop-Ends n (in_word (c ∷ [])) s))
tokens_loop-Ends n (in_word token) (c ∷ s) =
    if_cases Ends (is_blank_byte c) _ _
      (λ _. put-Ends token (tokens_loop n between s) (tokens_loop-Ends n between s))
      (λ _. tokens_loop-Ends n (in_word (token ++ (c ∷ []))) s)
tokens_loop-Ends n (in_quotes q start token) (c ∷ s) =
    if_cases Ends (c == q) _ _
      (λ _.
        if_cases Ends (ends_token s) _ _
          (λ _. put-Ends token (tokens_loop n between s) (tokens_loop-Ends n between s)) (λ _. tt))
      (λ _. tokens_loop-Ends n (in_quotes q start (token ++ (c ∷ []))) s)

or_fail-Ends : (n : ℕ) (r : Bytes × Bytes) → Ends (or_fail n r)
or_fail-Ends n (result, []) = tt
or_fail-Ends n (result, c ∷ error) = tt

pub substitute_or_fail-Ends :
    (st : ParserState) (n : ℕ) (text : Bytes) → Ends (substitute_or_fail st.values n text)
unfolding substitute_or_fail
substitute_or_fail-Ends st n text = or_fail-Ends n (substitute st.values text)

-- What follows the tokens of a directive is all that its result depends on.
pub tokens_of-Holds :
    {A : Type 0} (P : A → Type 0) (st : ParserState) (n : ℕ) (rest : Bytes)
    (f : List Bytes → Parsed A)
    → ((tokens : List Bytes) → Holds P (f tokens))
    → Holds P (bind (tokens_of st n rest) f)
unfolding tokens_of split_tokens
tokens_of-Holds P st n rest f h =
    Holds-bind (λ a. Unit) P (tokens_of st n rest) f
      (Holds-bind (λ a. Unit) (λ a. Unit) (substitute_or_fail st.values n rest) (split_tokens n)
        (substitute_or_fail-Ends st n rest) (λ text u. tokens_loop-Ends n between text))
      (λ tokens u. h tokens)

-- A test of what a result needs.
pub Holds-guard :
    {A : Type 0} (P : A → Type 0) (b : Bool) (message : Bytes) (r : Parsed A)
    → (b ≡ true → Holds P r)
    → Holds P (if not b then err message else r)
Holds-guard P true message r h = h refl
Holds-guard P false message r h = tt

pub Holds-weaken :
    {A : Type 0} (P Q : A → Type 0) (r : Parsed A) → Holds P r → ((a : A) → P a → Q a) → Holds Q r
Holds-weaken P Q (ok a) h k = k a h
Holds-weaken P Q (err message) h k = tt
Holds-weaken P Q out_of_fuel h k = h
