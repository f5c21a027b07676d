-- ===== src/HaisosFile/Config.antt =====
-- src/haisos/HaisosFileParser.h: what a manifest says, and what the parser keeps between lines.
use haisos.Common.{ℕ, Bool, false, List, [], Bytes}
use haisos.Common.Dict.{Dict}
use haisos.Common.Outcome.{bind}
use haisos.HaisosFile.Text.{Parsed, substitute_or_fail}
use haisos.HaisosFile.Tokens.{split_tokens}

-- HaisosFileRunEntry.
pub record RunEntry : Type 0 where
  pub program_path : Bytes
  pub args : List Bytes
  pub interactive : Bool

-- HaisosFileOperationType.
pub data OperationType : Type 0 where
  create append create_dir copy delete out_copy builtin : OperationType

-- HaisosFileOperation.
pub record FileOperation : Type 0 where
  pub kind : OperationType
  pub path : Bytes
  pub host_path : Bytes
  pub content : Bytes
  pub fs_name : Bytes
  pub builtin_name : Bytes
  pub line_number : ℕ

-- A default-constructed operation, but for its type, its path and its line.
abbrev pub operation : OperationType → Bytes → ℕ → FileOperation
operation kind path n = record {
  kind = kind;
  path = path;
  host_path = [];
  content = [];
  fs_name = [];
  builtin_name = [];
  line_number = n;
}

-- HaisosFileFilesystemDecl and HaisosFileMount.
pub record FilesystemDecl : Type 0 where
  pub name : Bytes
  pub fs_type : Bytes
  pub args : List Bytes

pub record MountDecl : Type 0 where
  pub main_fs : Bytes
  pub path : Bytes
  pub to_be_mounted_fs : Bytes

-- HaisosFileFsStep, whose flag says which of the two it holds.
pub data FsStep : Type 0 where
  declare : FilesystemDecl → FsStep
  mount : MountDecl → FsStep

-- HaisosFileEnvEntry.
pub record EnvEntry : Type 0 where
  pub name : Bytes
  pub value : Bytes
  pub import_from_host : Bool

-- HaisosFileConfig.
pub record Config : Type 0 where
  pub root_path : Bytes
  pub fs_steps : List FsStep
  pub run_entries : List RunEntry
  pub env_entries : List EnvEntry
  pub setup_operations : List FileOperation
  pub out_copy_operations : List FileOperation

-- The locals of ParseHaisosFile. A line number of 0 is that of no line.
pub record ParserState : Type 0 where
  pub values : Dict Bytes
  pub declared_args : List Bytes
  pub saw_root : Bool
  pub first_run_line : ℕ
  pub first_file_directive_line : ℕ
  pub config : Config

abbrev pub initial_state : ParserState
initial_state = record {
  values = [];
  declared_args = [];
  saw_root = false;
  first_run_line = 0;
  first_file_directive_line = 0;
  config = record {
    root_path = [];
    fs_steps = [];
    run_entries = [];
    env_entries = [];
    setup_operations = [];
    out_copy_operations = [];
  };
}

-- The substitution and the tokens of what follows a keyword, which most directives start with.
unfoldable pub tokens_of : ParserState → ℕ → Bytes → Parsed (List Bytes)
unfolding substitute_or_fail split_tokens
tokens_of st n rest = bind (substitute_or_fail st.values n rest) (split_tokens n)
