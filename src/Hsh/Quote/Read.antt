-- ===== src/Hsh/Quote/Read.antt =====
-- A reader of the shell's quotes gets back what ShellSingleQuote of
-- src/components/BuiltinCommands/commands/hsh/HshQuote.cpp quoted.
use mathlib.Core.Option
use haisos.Common.{
  ℕ, suc, zero, ◌≤◌, ◌<◌, ◌+◌, Bool, true, false, not, ◌||◌, ◌&&◌, Option, none, some, [], ◌∷◌,
  ◌++◌, ◌≡◌, refl, sym, ap, ◌∙◌, inl, inr, append_assoc, append-nil, ◌==◌, if◌then◌else◌, Bytes,
  length, length-append, is_empty, arith, Bool-cases,
}
use haisos.Hsh.Quote.{
  quote, double_quote, plain_run, quote_run, enclose, quote_loop, shell_single_quote,
}

-- Where the reader stands.
pub data Mode : Type 0 where
  outside single double : Mode

-- What quoted text reads as: in single quotes every byte is itself, in double quotes every byte that
-- starts no expansion or escape. Text outside of quotes, and a quote left open, is refused.
unfoldable pub read_quoted : Mode → Bytes → Option Bytes
read_quoted outside [] = some []
read_quoted single [] = none
read_quoted double [] = none
read_quoted outside (c ∷ s) =
    let in_single = read_quoted single s in
    let in_double = read_quoted double s in
    if c == quote then in_single else if c == double_quote then in_double else none
read_quoted single (c ∷ s) =
    let closed = read_quoted outside s in
    let more = Option.map (◌∷◌ c) (read_quoted single s) in if c == quote then closed else more
read_quoted double (c ∷ s) =
    let closed = read_quoted outside s in
    let more = Option.map (◌∷◌ c) (read_quoted double s) in
    if c == double_quote
    then closed
    else if c == b'$' || (c == b'`' || c == b'\\')
    then none
    else more

-- Text in front of what is read.
abbrev in_front : Bytes → Option Bytes → Option Bytes
in_front s none = none
in_front s (some t) = some (s ++ t)

in_front-in_front :
    (s t : Bytes) (r : Option Bytes) → in_front s (in_front t r) ≡ in_front (s ++ t) r
in_front-in_front s t none = refl
in_front-in_front s t (some u) = ap some (sym (append_assoc s t u))

abbrev no_quotes : Bytes → Bool
no_quotes [] = true
no_quotes (c ∷ s) = not (c == quote) && no_quotes s

abbrev all_quotes : Bytes → Bool
all_quotes [] = true
all_quotes (c ∷ s) = c == quote && all_quotes s

map-in_front :
    (c : ℕ) (s : Bytes) (r : Option Bytes) → Option.map (◌∷◌ c) (in_front s r) ≡ in_front (c ∷ s) r
map-in_front c s none = refl
map-in_front c s (some t) = refl

in_front-nil : (r : Option Bytes) → in_front [] r ≡ r
in_front-nil none = refl
in_front-nil (some t) = refl

-- What stands in single quotes is read as it is.
read_single :
    (s rest : Bytes)
    → no_quotes s ≡ true
    → read_quoted single (s ++ quote ∷ rest) ≡ in_front s (read_quoted outside rest)
unfolding read_quoted
read_single [] rest h = sym (in_front-nil (read_quoted outside rest))
read_single (c ∷ s) rest h =
    let apart : (c == quote) ≡ false = ground (arith, h) in
    rw apart (
      ap (Option.map (◌∷◌ c)) (read_single s rest (ground (arith, h)))
      ∙ map-in_front c s (read_quoted outside rest))

-- And quotes in double quotes.
read_double :
    (s rest : Bytes)
    → all_quotes s ≡ true
    → read_quoted double (s ++ double_quote ∷ rest) ≡ in_front s (read_quoted outside rest)
unfolding read_quoted
read_double [] rest h = sym (in_front-nil (read_quoted outside rest))
read_double (c ∷ s) rest h =
    let same : c ≡ quote = ground (arith, h) in
    rw same (
      ap (Option.map (◌∷◌ quote)) (read_double s rest (ground (arith, h)))
      ∙ map-in_front quote s (read_quoted outside rest))

-- What the two runs are.
plain_run_lem :
    (value : Bytes)
    → (no_quotes (plain_run value).0 ≡ true) × ((plain_run value).0 ++ (plain_run value).1 ≡ value)
unfolding plain_run
plain_run_lem [] = (refl, refl)
plain_run_lem (c ∷ value) = ground (arith, plain_run_lem value)

quote_run_lem :
    (value : Bytes)
    → (all_quotes (quote_run value).0 ≡ true) × ((quote_run value).0 ++ (quote_run value).1 ≡ value)
unfolding quote_run
quote_run_lem [] = (refl, refl)
quote_run_lem (c ∷ value) = ground (arith, quote_run_lem value)

-- A run of no quotes stops at a quote or at the end.
no_quote_left :
    (value : Bytes) → is_empty (quote_run (plain_run value).1).0 ≡ true → (plain_run value).1 ≡ []
unfolding plain_run quote_run
no_quote_left [] h = refl
no_quote_left (c ∷ value) h = ground (arith, h, no_quote_left value)

read_single_quoted :
    (s rest : Bytes)
    → no_quotes s ≡ true
    → read_quoted outside (enclose quote s ++ rest) ≡ in_front s (read_quoted outside rest)
unfolding read_quoted
read_single_quoted s rest h =
    ap (read_quoted single) (append_assoc s (quote ∷ []) rest) ∙ read_single s rest h

read_double_quoted :
    (s rest : Bytes)
    → all_quotes s ≡ true
    → read_quoted outside (enclose double_quote s ++ rest) ≡ in_front s (read_quoted outside rest)
unfolding read_quoted
read_double_quoted s rest h =
    ap (read_quoted double) (append_assoc s (double_quote ∷ []) rest) ∙ read_double s rest h

nil_of : (s : Bytes) → is_empty s ≡ true → s ≡ []
nil_of [] h = refl
nil_of (c ∷ s) h = cc

read_nothing : read_quoted outside [] ≡ some []
unfolding read_quoted
read_nothing = refl

not_nil : (s : Bytes) → is_empty s ≡ false → 1 ≤ length s
not_nil [] h = cc
not_nil (c ∷ s) h = omega arith

-- The loop with rounds enough.
read_loop :
    (fuel : ℕ) (value : Bytes)
    → length value < fuel
    → read_quoted outside (quote_loop fuel value) ≡ some value
unfolding quote_loop
read_loop zero value h = absurd (omega arith)
read_loop (suc fuel) value h =
    let plain = (plain_run value).0 in
    let rest = (plain_run value).1 in
    let quotes = (quote_run rest).0 in
    let after = (quote_run rest).1 in
    let (free, whole) = plain_run_lem value in
    let (all, split) = quote_run_lem rest in
    let sizes : length plain + (length quotes + length after) ≡ length value = omega (
      arith,
      length-append plain rest,
      ap length whole,
      length-append quotes after,
      ap length split,
    ) in
    let joined : plain ++ (quotes ++ after) ≡ value = ap (λ t. plain ++ t) split ∙ whole in
    elim (Bool-cases (is_empty quotes)) [
      | inl done ↦ rw done (
          ap (read_quoted outside) (sym (append-nil (enclose quote plain)))
          ∙ read_single_quoted plain [] free
          ∙ ap (in_front plain) read_nothing
          ∙ ap some (ap (λ t. plain ++ t) (sym (no_quote_left value done)) ∙ whole))
      | inr more ↦ rw more (elim (Bool-cases (is_empty after)) [
        | inl last ↦ rw last (
            read_single_quoted plain (enclose double_quote quotes) free
            ∙ ap (in_front plain) (
                ap (read_quoted outside) (sym (append-nil (enclose double_quote quotes)))
                ∙ read_double_quoted quotes [] all
                ∙ ap (in_front quotes) read_nothing)
            ∙ ap some (ap (λ t. plain ++ (quotes ++ t)) (sym (nil_of after last)) ∙ joined))
        | inr further ↦ rw further (
            read_single_quoted plain (enclose double_quote quotes ++ quote_loop fuel after) free
            ∙ ap (in_front plain) (
                read_double_quoted quotes (quote_loop fuel after) all
                ∙ ap (in_front quotes)
                    (read_loop fuel after (omega (arith, h, sizes, not_nil quotes more))))
            ∙ ap some joined)
      ])
    ]

-- A quoted text reads back as itself, whatever bytes are in it.
pub read_quoted-shell_single_quote :
    (value : Bytes) → read_quoted outside (shell_single_quote value) ≡ some value
unfolding shell_single_quote
read_quoted-shell_single_quote value = read_loop (suc (length value)) value (omega arith)
