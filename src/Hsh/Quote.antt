-- ===== src/Hsh/Quote.antt =====
-- src/components/BuiltinCommands/commands/hsh/HshQuote.cpp: a text quoted for the shell. A position in
-- the value is the rest of the value from it on.
pub mod Read
mod Examples
use haisos.Common.{
  ℕ, suc, zero, Bool, not, List, [], ◌∷◌, ◌++◌, ◌==◌, if◌then◌else◌, Bytes, length, is_empty,
}

abbrev pub quote : ℕ
quote = 39

abbrev pub double_quote : ℕ
double_quote = 34

-- The run of bytes other than quotes, and what is behind it.
unfoldable pub plain_run : Bytes → Bytes × Bytes
plain_run [] = ([], [])
plain_run (c ∷ s) =
    let (run, rest) = plain_run s in if c == quote then ([], c ∷ s) else (c ∷ run, rest)

-- The run of quotes.
unfoldable pub quote_run : Bytes → Bytes × Bytes
quote_run [] = ([], [])
quote_run (c ∷ s) =
    let (run, rest) = quote_run s in if c == quote then (c ∷ run, rest) else ([], c ∷ s)

abbrev pub enclose : ℕ → Bytes → Bytes
enclose mark s = mark ∷ (s ++ mark ∷ [])

-- The loop, over the rest of the value: what it appends.
unfoldable pub quote_loop : ℕ → Bytes → Bytes
quote_loop zero value = []
quote_loop (suc fuel) value =
    let (plain, rest) = plain_run value in
    let (quotes, after) = quote_run rest in
    let later = quote_loop fuel after in
    if is_empty quotes
    then enclose quote plain
    else if is_empty after
    then enclose quote plain ++ enclose double_quote quotes
    else enclose quote plain ++ (enclose double_quote quotes ++ later)

-- ShellSingleQuote. Every round but the last takes a quote, so `length value + 1` rounds are enough.
unfoldable pub shell_single_quote : Bytes → Bytes
shell_single_quote value = quote_loop (suc (length value)) value
