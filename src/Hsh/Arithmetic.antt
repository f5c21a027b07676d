-- ===== src/Hsh/Arithmetic.antt =====
-- src/components/BuiltinCommands/commands/hsh/HshArithmetic.cpp: the value of $((...)). Word has the
-- arithmetic of intmax_t, Token the tokens, Parser the class ArithmeticParser.
pub mod Word
pub mod Numerals
pub mod Token
pub mod Operators
pub mod Parser
pub mod Wrapping
pub mod Decimal
pub mod Good
pub mod Loops
pub mod Consumes
pub mod Total
mod Examples
