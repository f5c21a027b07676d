-- ===== src/Hsh/Arithmetic/Operators.antt =====
-- src/components/BuiltinCommands/commands/hsh/HshArithmetic.cpp: the operators of an expression, and the errors
-- that an evaluation throws.
use haisos.Common.{Bool, true, false, not, ◌&&◌, ◌||◌, Option, none, some, [], if◌then◌else◌, Bytes}
pub use haisos.Common.Outcome.{Result, ok, err, out_of_fuel, bind}
use haisos.Hsh.Number.{ℤ, pos}
use haisos.Hsh.Arithmetic.Word
use haisos.Hsh.Arithmetic.Word.{eq_ℤ, lt_ℤ, is_nonzero, of_bool}
use haisos.Hsh.Arithmetic.Token.{Token}

-- What ShellError says: the messages of Fail, and the two of variables.
pub data ArithmeticError : Type 0 where
  expecting_eof expecting_colon expecting_paren expecting_primary division_by_zero : ArithmeticError
  illegal_number read_only : Bytes → ArithmeticError

-- IArithmeticVariables over a store.
pub record ArithmeticVariables (V : Type 0) : Type 0 where
  pub get : Bytes → V → Option Bytes
  pub set : Bytes → Bytes → V → V × Bool

-- Value; a number that is no variable has the empty name.
pub record Value : Type 0 where
  pub value : ℤ
  pub lvalue : Bytes

abbrev pub plain : ℤ → Value
plain v = record { value = v; lvalue = [] }

pub data BinaryOp : Type 0 where
  multiply divide_by modulo_by plus_by minus_by : BinaryOp
  shift_left_by shift_right_by less less_equal greater greater_equal : BinaryOp
  equal not_equal both_bits either_bits any_bits : BinaryOp

unfoldable pub apply_binary : BinaryOp → ℤ → ℤ → Result ArithmeticError ℤ
apply_binary multiply a b = ok (Word.mul a b)
apply_binary divide_by a b = if eq_ℤ b (pos 0) then err division_by_zero else ok (Word.div a b)
apply_binary modulo_by a b = if eq_ℤ b (pos 0) then err division_by_zero else ok (Word.modulo a b)
apply_binary plus_by a b = ok (Word.add a b)
apply_binary minus_by a b = ok (Word.sub a b)
apply_binary shift_left_by a b = ok (Word.shift_left a b)
apply_binary shift_right_by a b = ok (Word.shift_right a b)
apply_binary less a b = ok (of_bool (lt_ℤ a b))
apply_binary less_equal a b = ok (of_bool (not (lt_ℤ b a)))
apply_binary greater a b = ok (of_bool (lt_ℤ b a))
apply_binary greater_equal a b = ok (of_bool (not (lt_ℤ a b)))
apply_binary equal a b = ok (of_bool (eq_ℤ a b))
apply_binary not_equal a b = ok (of_bool (not (eq_ℤ a b)))
apply_binary both_bits a b = ok (Word.word_and a b)
apply_binary either_bits a b = ok (Word.word_xor a b)
apply_binary any_bits a b = ok (Word.word_or a b)

-- The operators that each of the functions with a loop looks for.
pub data Level : Type 0 where
  multiplicative additive shift relational equality bits_and bits_xor bits_or : Level

unfoldable pub operator_at : Level → Token → Option BinaryOp
operator_at multiplicative Token.star = some multiply
operator_at multiplicative Token.divide = some divide_by
operator_at multiplicative Token.percent = some modulo_by
operator_at additive Token.plus = some plus_by
operator_at additive Token.minus_sign = some minus_by
operator_at shift Token.shl = some shift_left_by
operator_at shift Token.shr = some shift_right_by
operator_at relational Token.lt = some less
operator_at relational Token.le = some less_equal
operator_at relational Token.gt = some greater
operator_at relational Token.ge = some greater_equal
operator_at equality Token.eq_eq = some equal
operator_at equality Token.not_eq = some not_equal
operator_at bits_and Token.and = some both_bits
operator_at bits_xor Token.xor = some either_bits
operator_at bits_or Token.or = some any_bits
operator_at _ _ = none

pub data UnaryOp : Type 0 where
  keep negate complement negation : UnaryOp

unfoldable pub unary_at : Token → Option UnaryOp
unary_at Token.plus = some keep
unary_at Token.minus_sign = some negate
unary_at Token.tilde = some complement
unary_at Token.not_sign = some negation
unary_at _ = none

abbrev pub apply_unary : UnaryOp → ℤ → ℤ
apply_unary keep v = v
apply_unary negate v = Word.neg v
apply_unary complement v = Word.bit_not v
apply_unary negation v = of_bool (eq_ℤ v (pos 0))

-- Mapped; a unary plus leaves the value with its name.
unfoldable pub mapped : UnaryOp → Bool → Value → Value
mapped keep evaluating v = v
mapped op evaluating v = plain (if evaluating then apply_unary op v.value else pos 0)

pub data AssignOp : Type 0 where
  simple : AssignOp
  compound : BinaryOp → AssignOp

unfoldable pub assign_at : Token → Option AssignOp
assign_at Token.assign = some simple
assign_at Token.plus_eq = some (compound plus_by)
assign_at Token.minus_eq = some (compound minus_by)
assign_at Token.star_eq = some (compound multiply)
assign_at Token.slash_eq = some (compound divide_by)
assign_at Token.percent_eq = some (compound modulo_by)
assign_at Token.shl_eq = some (compound shift_left_by)
assign_at Token.shr_eq = some (compound shift_right_by)
assign_at Token.and_eq = some (compound both_bits)
assign_at Token.xor_eq = some (compound either_bits)
assign_at Token.or_eq = some (compound any_bits)
assign_at _ = none

-- IsAssignOp.
abbrev pub is_assign_op : Option AssignOp → Bool
is_assign_op none = false
is_assign_op (some op) = true

unfoldable pub is_token : Token → Token → Bool
is_token Token.question Token.question = true
is_token Token.colon Token.colon = true
is_token Token.rparen Token.rparen = true
is_token Token.end Token.end = true
is_token Token.or_or Token.or_or = true
is_token Token.and_and Token.and_and = true
is_token _ _ = false

-- The two operators that leave their right side unevaluated: && where the left is zero, || where it
-- is not.
pub data Logical : Type 0 where
  logical_and logical_or : Logical

abbrev pub logical_token : Logical → Token
logical_token logical_and = Token.and_and
logical_token logical_or = Token.or_or

abbrev pub goes_on : Logical → ℤ → Bool
goes_on logical_and v = is_nonzero v
goes_on logical_or v = not (is_nonzero v)

abbrev pub logical_value : Logical → ℤ → ℤ → Bool
logical_value logical_and a b = is_nonzero a && is_nonzero b
logical_value logical_or a b = is_nonzero a || is_nonzero b
