-- ===== src/Interfaces.antt =====
-- The data that components hand to one another: interfaces/IFileDescriptor.h and
-- interfaces/IFileSystemService.h, and the helpers of
-- src/components/Filesystem/FilesystemUtils.h that make it.
use haisos.Common.{ℕ, ◌+◌, ◌/◌, ◌%◌, Bool, not, ◌==◌, ltb, if◌then◌else◌, Bytes}

-- The ssize_t of a read or a write: a count, or one of the negative constants.
pub data IoResult : Type 0 where
  count : ℕ → IoResult
  io_error io_interrupted io_broken_pipe : IoResult

pub record FileDateTime : Type 0 where
  pub seconds : ℕ
  pub nanoseconds : ℕ

-- CurrentFileDateTime, of the clock's nanoseconds since the epoch.
abbrev pub current_file_date_time : ℕ → FileDateTime
current_file_date_time since_epoch = record {
  seconds = since_epoch / 1000000000;
  nanoseconds = since_epoch % 1000000000;
}

-- operator<.
abbrev pub earlier : FileDateTime → FileDateTime → Bool
earlier a b =
    if not (a.seconds == b.seconds)
    then ltb a.seconds b.seconds
    else ltb a.nanoseconds b.nanoseconds

pub data DirectoryEntryType : Type 0 where
  file dir char_device : DirectoryEntryType

pub record DirectoryEntry : Type 0 where
  pub name : Bytes
  pub kind : DirectoryEntryType

-- FileStatus, less the device numbers that only devices have.
pub record FileStatus : Type 0 where
  pub kind : DirectoryEntryType
  pub size : ℕ
  pub blocks : ℕ
  pub link_count : ℕ
  pub access_time : FileDateTime
  pub modification_time : FileDateTime
  pub change_time : FileDateTime

-- BlocksForSize.
abbrev pub blocks_for_size : ℕ → ℕ
blocks_for_size size = (size + 511) / 512
