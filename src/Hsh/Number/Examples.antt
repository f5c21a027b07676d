-- ===== src/Hsh/Number/Examples.antt =====
-- Runs of src/components/BuiltinCommands/commands/hsh/HshNumber.cpp, and the theorem at a concrete number.
use haisos.Common.{◌≡◌, refl, ◌++◌, ◌∷◌, some, none, codes, leb, if◌then◌else◌}
use haisos.Hsh.Number.{negsuc, atomax10, skip_blanks, digits_loop, signed, int_max, limit_of}
use haisos.Hsh.Number.Decimal.{decimal, minus, sign_text, is_minus, atomax10-decimal}

smallest : atomax10 (codes " -9223372036854775808 ") ≡ some (negsuc 9223372036854775807)
unfolding atomax10 skip_blanks digits_loop signed int_max
smallest = refl

too_large : atomax10 (codes "9223372036854775808") ≡ none
unfolding atomax10 skip_blanks digits_loop signed int_max
too_large = refl

trailing_letter : atomax10 (codes "12x") ≡ none
unfolding atomax10 skip_blanks digits_loop signed int_max
trailing_letter = refl

atomax10-decimal_example :
    atomax10 (codes " " ++ (sign_text minus ++ (b'4' ∷ (codes "2" ++ codes "  ")))) ≡ (
      if leb (decimal 0 (codes "42")) (limit_of (is_minus minus))
      then some (signed (is_minus minus) (decimal 0 (codes "42")))
      else none)
atomax10-decimal_example =
    atomax10-decimal (codes " ") (codes "  ") minus b'4' (codes "2") refl refl refl
