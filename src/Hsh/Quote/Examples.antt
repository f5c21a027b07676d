-- ===== src/Hsh/Quote/Examples.antt =====
-- Runs of src/components/BuiltinCommands/commands/hsh/HshQuote.cpp, and the theorem at a concrete text.
use haisos.Common.{◌≡◌, refl, some, codes}
use haisos.Hsh.Quote.{shell_single_quote, quote_loop, plain_run, quote_run}
use haisos.Hsh.Quote.Read.{read_quoted, outside, read_quoted-shell_single_quote}

quote_in_the_middle : shell_single_quote (codes "it's") ≡ codes "'it'\"'\"'s'"
unfolding shell_single_quote quote_loop plain_run quote_run
quote_in_the_middle = refl

quote_at_the_end : shell_single_quote (codes "a''") ≡ codes "'a'\"''\""
unfolding shell_single_quote quote_loop plain_run quote_run
quote_at_the_end = refl

read_quoted-shell_single_quote_example :
    read_quoted outside (shell_single_quote (codes "it's $5")) ≡ some (codes "it's $5")
read_quoted-shell_single_quote_example = read_quoted-shell_single_quote (codes "it's $5")
