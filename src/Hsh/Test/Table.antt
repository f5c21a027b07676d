-- ===== src/Hsh/Test/Table.antt =====
-- src/components/BuiltinCommands/commands/hsh/HshBuiltinTest.cpp: the operators of test, and what a word is.
-- A position in the operands is the rest of the operands from it on.
use haisos.Common.{
  Bool, true, false, ◌&&◌, not, Option, none, some, List, [], ◌∷◌, if◌then◌else◌, Bytes, bytes_eq,
  codes,
}

pub data TestToken : Type 0 where
  end file_read file_write file_exec file_exists file_regular file_directory : TestToken
  file_char_device file_block_device file_fifo file_socket file_symlink : TestToken
  file_non_empty file_terminal file_set_uid file_set_gid file_sticky : TestToken
  file_newer file_older file_equal file_owner_uid file_owner_gid : TestToken
  string_empty string_not_empty string_equal string_not_equal string_less : TestToken
  string_greater int_equal int_not_equal int_greater_equal int_greater : TestToken
  int_less_equal int_less not_sign and or open_paren close_paren operand : TestToken

pub data TestOpType : Type 0 where
  unary binary unary_not binary_logical paren : TestOpType

pub record TestOp : Type 0 where
  pub text : Bytes
  pub token : TestToken
  pub kind : TestOpType

abbrev pub entry : Bytes → TestToken → TestOpType → TestOp
entry text token kind = record { text = text; token = token; kind = kind }

-- kTestOps.
abbrev pub test_ops : List TestOp
test_ops =
    entry (codes "-r") file_read unary
    ∷ entry (codes "-w") file_write unary
    ∷ entry (codes "-x") file_exec unary
    ∷ entry (codes "-e") file_exists unary
    ∷ entry (codes "-f") file_regular unary
    ∷ entry (codes "-d") file_directory unary
    ∷ entry (codes "-c") file_char_device unary
    ∷ entry (codes "-b") file_block_device unary
    ∷ entry (codes "-p") file_fifo unary
    ∷ entry (codes "-u") file_set_uid unary
    ∷ entry (codes "-g") file_set_gid unary
    ∷ entry (codes "-k") file_sticky unary
    ∷ entry (codes "-s") file_non_empty unary
    ∷ entry (codes "-t") file_terminal unary
    ∷ entry (codes "-z") string_empty unary
    ∷ entry (codes "-n") string_not_empty unary
    ∷ entry (codes "-h") file_symlink unary
    ∷ entry (codes "-O") file_owner_uid unary
    ∷ entry (codes "-G") file_owner_gid unary
    ∷ entry (codes "-L") file_symlink unary
    ∷ entry (codes "-S") file_socket unary
    ∷ entry (codes "=") string_equal binary
    ∷ entry (codes "!=") string_not_equal binary
    ∷ entry (codes "<") string_less binary
    ∷ entry (codes ">") string_greater binary
    ∷ entry (codes "-eq") int_equal binary
    ∷ entry (codes "-ne") int_not_equal binary
    ∷ entry (codes "-ge") int_greater_equal binary
    ∷ entry (codes "-gt") int_greater binary
    ∷ entry (codes "-le") int_less_equal binary
    ∷ entry (codes "-lt") int_less binary
    ∷ entry (codes "-nt") file_newer binary
    ∷ entry (codes "-ot") file_older binary
    ∷ entry (codes "-ef") file_equal binary
    ∷ entry (codes "!") not_sign unary_not
    ∷ entry (codes "-a") and binary_logical
    ∷ entry (codes "-o") or binary_logical
    ∷ entry (codes "(") open_paren paren
    ∷ entry (codes ")") close_paren paren
    ∷ []

abbrev pub lookup_loop : Bytes → List TestOp → Option TestOp
lookup_loop text [] = none
lookup_loop text (op ∷ ops) = elim (bytes_eq text op.text) [
  | true ↦ some op
  | false ↦ lookup_loop text ops
]

-- LookupOp.
unfoldable pub lookup_op : Bytes → Option TestOp
lookup_op text = lookup_loop text test_ops

abbrev pub is_unary : Option TestOp → Bool
is_unary none = false
is_unary (some op) = elim op.kind [
  | unary ↦ true
  | binary ↦ false
  | unary_not ↦ false
  | binary_logical ↦ false
  | paren ↦ false
]

abbrev pub is_binary : Option TestOp → Bool
is_binary none = false
is_binary (some op) = elim op.kind [
  | unary ↦ false
  | binary ↦ true
  | unary_not ↦ false
  | binary_logical ↦ false
  | paren ↦ false
]

-- The tokens that the grammar asks for.
unfoldable pub is_token : TestToken → TestToken → Bool
is_token end end = true
is_token not_sign not_sign = true
is_token and and = true
is_token or or = true
is_token open_paren open_paren = true
is_token close_paren close_paren = true
is_token _ _ = false

-- IsOperand, from the words behind the one that is asked about.
unfoldable pub is_operand : List Bytes → Bool
is_operand [] = true
is_operand (x ∷ []) = false
is_operand (x ∷ y ∷ rest) = is_binary (lookup_op x)

-- What a call of Lex returns, with m_currentOp as it leaves it.
pub record Lexed : Type 0 where
  pub token : TestToken
  pub current : Option TestOp

-- TokenOperand.
abbrev pub token_operand : Lexed
token_operand = record { token = operand; current = none }

abbrev pub is_last : List Bytes → Bool
is_last [] = true
is_last (x ∷ rest) = false

abbrev pub lex_word : Option TestOp → List Bytes → Lexed
lex_word none rest = token_operand
lex_word (some op) rest =
    if not (is_unary (some op) && is_operand rest)
      && not (is_token open_paren op.token && is_last rest)
    then record { token = op.token; current = some op }
    else token_operand

-- Lex.
unfoldable pub lex : List Bytes → Lexed
lex [] = record { token = end; current = none }
lex (word ∷ rest) = lex_word (lookup_op word) rest
