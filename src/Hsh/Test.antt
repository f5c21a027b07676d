-- ===== src/Hsh/Test.antt =====
-- src/components/BuiltinCommands/commands/hsh/HshBuiltinTest.cpp: the builtins test and [. Table has the
-- operators, Grammar the class TestEvaluation.
pub mod Table
pub mod Primaries
pub mod Grammar
pub mod Command
pub mod Leaves
pub mod Rounds
pub mod Total
pub mod Posix
mod Examples
