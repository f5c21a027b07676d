-- ===== src/Hsh/Test/Primaries.antt =====
-- src/components/BuiltinCommands/commands/hsh/HshBuiltinTest.cpp: UnaryTest and BinaryTest. The calls of the shell's
-- process, of interfaces/IFileIO.h, are a parameter.
use haisos.Common.{
  ℕ, Bool, true, false, not, ◌&&◌, Option, none, some, ltb, if◌then◌else◌, Bytes, is_empty,
  bytes_eq, bytes_compare,
}
use haisos.Common.Outcome.{Result, ok, err, bind}
use Prim.Native.Nat.{Ordering}
use haisos.Interfaces.{FileStatus, DirectoryEntryType, file, dir, char_device, earlier}
use haisos.Hsh.Number.{ℤ, pos, negsuc, atomax10}
use haisos.Hsh.Arithmetic.Word.{eq_ℤ, lt_ℤ}
use haisos.Hsh.Test.Table.{
  TestToken, file_read, file_write, file_exec, file_exists, file_regular, file_directory,
  file_char_device, file_symlink, file_non_empty, file_terminal, file_newer, file_older, file_equal,
  file_owner_uid, file_owner_gid, string_empty, string_not_empty, string_equal, string_not_equal,
  string_less, string_greater, int_equal, int_not_equal, int_greater_equal, int_greater,
  int_less_equal, int_less,
}

-- IFileIO's Stat, `none` for a result other than 0, its ResolvePath, and IsTerminal of its GetDescriptor, `none`
-- for a null one.
pub record TestHost : Type 0 where
  pub stat : Bytes → Option FileStatus
  pub resolve_path : Bytes → Bytes
  pub terminal : ℕ → Option Bool

-- What is reported with status 2: Syntax with its operator, and IllegalNumber.
pub data TestError : Type 0 where
  unexpected_operator argument_expected illegal_number : Bytes → TestError
  closing_paren_expected : TestError

-- IFileIO::kMaxDescriptors.
abbrev pub max_descriptors : ℕ
max_descriptors = 1024

abbrev pub is_kind : DirectoryEntryType → DirectoryEntryType → Bool
is_kind file file = true
is_kind dir dir = true
is_kind char_device char_device = true
is_kind _ _ = false

-- The last switch of UnaryTest.
abbrev pub status_test : TestToken → FileStatus → Bool
status_test file_exists status = true
status_test file_regular status = is_kind status.kind file
status_test file_directory status = is_kind status.kind dir
status_test file_char_device status = is_kind status.kind char_device
status_test file_non_empty status = ltb 0 status.size
status_test _ status = false

-- NumberOf.
abbrev pub read_number : Bytes → Option ℤ → Result TestError ℤ
read_number text none = err (illegal_number text)
read_number text (some n) = ok n

abbrev pub number_of_operand : Bytes → Result TestError ℤ
number_of_operand text = read_number text (atomax10 text)

abbrev pub compare_numbers : (ℤ → ℤ → Bool) → Bytes → Bytes → Result TestError Bool
compare_numbers relation a b =
    bind (number_of_operand a) λ m. bind (number_of_operand b) λ n. ok (relation m n)

-- operator< of two strings.
abbrev pub string_before : Bytes → Bytes → Bool
string_before a b = elim (bytes_compare a b) [
  | Ordering.lt ↦ true
  | Ordering.eq ↦ false
  | Ordering.gt ↦ false
]

module _ (host : TestHost) where
  open host use {stat, resolve_path, terminal}

  -- Shell::Exists of HshShell.cpp.
  abbrev pub exists : Bytes → Bool
  exists path = elim (stat path) [ none ↦ false | some status ↦ true ]

  abbrev pub is_terminal : ℤ → Bool
  is_terminal (negsuc n) = false
  is_terminal (pos n) =
      if not (ltb n max_descriptors)
      then false
      else (elim (terminal n) [ none ↦ false | some answer ↦ answer ])

  -- UnaryTest.
  unfoldable pub unary_test : TestToken → Bytes → Result TestError Bool
  unary_test string_empty operand = ok (is_empty operand)
  unary_test string_not_empty operand = ok (not (is_empty operand))
  unary_test file_terminal operand = bind (number_of_operand operand) λ fd. ok (is_terminal fd)
  unary_test file_symlink operand = ok false
  unary_test file_read operand = ok (exists operand)
  unary_test file_write operand = ok (exists operand)
  unary_test file_exec operand = ok (exists operand)
  unary_test file_owner_uid operand = ok (exists operand)
  unary_test file_owner_gid operand = ok (exists operand)
  unary_test token operand = elim (stat operand) [
    | none ↦ ok false
    | some status ↦ ok (status_test token status)
  ]

  -- -nt and -ot, by what they ask of the two files.
  abbrev pub compare_files : (FileStatus → FileStatus → Bool) → Bytes → Bytes → Bool
  compare_files relation a b = elim (stat a) [
    | none ↦ false
    | some s ↦ elim (stat b) [ none ↦ false | some t ↦ relation s t ]
  ]

  -- BinaryTest, from its operator on.
  unfoldable pub binary_test : TestToken → Bytes → Bytes → Result TestError Bool
  binary_test string_equal a b = ok (bytes_eq a b)
  binary_test string_not_equal a b = ok (not (bytes_eq a b))
  binary_test string_less a b = ok (string_before a b)
  binary_test string_greater a b = ok (string_before b a)
  binary_test int_equal a b = compare_numbers eq_ℤ a b
  binary_test int_not_equal a b = compare_numbers (λ m n. not (eq_ℤ m n)) a b
  binary_test int_greater_equal a b = compare_numbers (λ m n. not (lt_ℤ m n)) a b
  binary_test int_greater a b = compare_numbers (λ m n. lt_ℤ n m) a b
  binary_test int_less_equal a b = compare_numbers (λ m n. not (lt_ℤ n m)) a b
  binary_test int_less a b = compare_numbers lt_ℤ a b
  binary_test file_newer a b =
      ok (compare_files (λ s t. earlier t.modification_time s.modification_time) a b)
  binary_test file_older a b =
      ok (compare_files (λ s t. earlier s.modification_time t.modification_time) a b)
  binary_test file_equal a b =
      ok (exists a && (exists b && bytes_eq (resolve_path a) (resolve_path b)))
  binary_test _ a b = ok false
