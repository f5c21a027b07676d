-- ===== src/Hsh.antt =====
-- src/components/BuiltinCommands/commands/hsh: the shell.
pub mod Bracket
pub mod Pattern
pub mod Variables
pub mod Number
pub mod Quote
pub mod Arithmetic
pub mod Test
pub mod UnboundedPipe
pub mod Options
pub mod Invocation
pub mod SetBuiltin
