-- ===== src/Hsh/Pattern/Examples.antt =====
-- Runs of src/components/BuiltinCommands/commands/hsh/HshPattern.cpp, and the theorems at concrete texts.
use haisos.Common.{true, false, none, ◌≡◌, ◌↔◌, refl, codes}
use haisos.Hsh.Bracket.{bracket_end}
use haisos.Hsh.Pattern.{
  match_pattern, match_loop, element_at, accepts, only_stars, has_pattern_characters, rounds,
  remove_pattern, smallest_prefix, largest_suffix, unescape_pattern, escape_for_pattern,
}
use haisos.Hsh.Pattern.Matches.{Matches}
use haisos.Hsh.Pattern.Decide.{Decides, match_loop-Decides}
use haisos.Hsh.Pattern.Escape.{unescape-escape, match-escape}
use haisos.Hsh.Pattern.Remove.{Removed, remove_pattern-Removed}

match_stars : match_pattern (codes "a*b?[!x-z[:digit:]]") (codes "aqqbbcw") ≡ true
unfolding match_pattern match_loop element_at accepts bracket_end only_stars
match_stars = refl

match_class : match_pattern (codes "[!x-z[:digit:]]") (codes "4") ≡ false
unfolding match_pattern match_loop element_at accepts bracket_end only_stars
match_class = refl

match_open_bracket : match_pattern (codes "[a") (codes "[a") ≡ true
unfolding match_pattern match_loop element_at accepts bracket_end only_stars
match_open_bracket = refl

special_open_bracket : has_pattern_characters (codes "[a\\*") ≡ false
unfolding has_pattern_characters
special_open_bracket = refl

remove_extension : remove_pattern (codes "a.tar.gz") (codes ".*") largest_suffix ≡ codes "a"
unfolding remove_pattern match_pattern match_loop element_at accepts bracket_end only_stars
remove_extension = refl

remove_directory : remove_pattern (codes "/a/b/c") (codes "*/") smallest_prefix ≡ codes "a/b/c"
unfolding remove_pattern match_pattern match_loop element_at accepts bracket_end only_stars
remove_directory = refl

match_loop-Decides_example :
    Decides
      (Matches (codes "a*[b-d]") 0 (codes "axxc"))
      (match_loop (rounds (codes "a*[b-d]") (codes "axxc")) (codes "a*[b-d]") 0 (codes "axxc") none)
match_loop-Decides_example = match_loop-Decides (codes "a*[b-d]") (codes "axxc")

unescape-escape_example : unescape_pattern (escape_for_pattern (codes "a*[b]\\")) ≡ codes "a*[b]\\"
unescape-escape_example = unescape-escape (codes "a*[b]\\")

match-escape_example :
    (match_pattern (escape_for_pattern (codes "a*")) (codes "ab") ≡ true)
    ↔ (codes "ab" ≡ codes "a*")
match-escape_example = match-escape (codes "a*") (codes "ab")

remove_pattern-Removed_example :
    Removed
      (codes "a.tar.gz")
      (codes ".*")
      largest_suffix
      (remove_pattern (codes "a.tar.gz") (codes ".*") largest_suffix)
remove_pattern-Removed_example =
    remove_pattern-Removed (codes "a.tar.gz") (codes ".*") largest_suffix
