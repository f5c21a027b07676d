-- ===== src/Routing.antt =====
-- The filesystems that hand calls on to others: src/components/Filesystem/SubFileSystem.cpp, ReadOnlyFileSystem.cpp,
-- ComposedFileSystem.cpp and, in Mountable, MountableFileSystem.cpp, which all of them are.
pub mod Own
pub mod Mountable
pub mod Wrapping
pub mod Untouched
pub mod Entries
pub mod Listing
pub mod Places
pub mod Builtins
mod Examples
use haisos.Common.{
  Bool, true, false, not, ◌||◌, Option, none, some, List, [], ◌++◌, ℕ, if◌then◌else◌, Bytes,
  bytes_eq,
}
use haisos.Common.Dict.{Dict}
use haisos.Interfaces.{DirectoryEntry, FileStatus}
use haisos.Path.{root, normalize}
use haisos.Memory
use haisos.Memory.{Node, Clock, FileDescriptor, OpenFlags, Status, ok, failed}

-- IFileSystem of interfaces/IFileSystemService.h, or the Local part of a MountableFileSystem, over a state `W`
-- of everything that a call may change, with descriptors `D`. A mode is `none` where none is given; an int is
-- whether it is 0.
pub record FileSystem (W D : Type 0) : Type 0 where
  pub open_file : Bytes → OpenFlags → Option ℕ → W → Option D × W
  pub create_directory : Bytes → ℕ → W → Bool × W
  pub remove_directory : Bytes → W → Bool × W
  pub remove_file : Bytes → W → Bool × W
  pub read_directory : Bytes → W → List DirectoryEntry × W
  pub stat : Bytes → W → Option FileStatus × W
  pub is_builtin_command : Bytes → W → Option Bytes × W

-- RequestsWriteAccess of src/components/Filesystem/FilesystemUtils.h.
unfoldable pub requests_write_access : OpenFlags → Bool
requests_write_access flags =
    flags.write_only || (flags.read_write || (flags.creates || (flags.truncates || flags.appends)))

-- AbsolutePathFor.
unfoldable pub absolute_path_for : Bytes → Bytes
absolute_path_for path = normalize path root

-- ResolveInRoot, with m_basePath.
unfoldable pub resolve_in_root : Bytes → Bytes → Bytes
resolve_in_root base_path path =
    let normalized = normalize path root in
    if bytes_eq base_path root
    then normalized
    else if bytes_eq normalized root
    then base_path
    else base_path ++ normalized

module _ {W D : Type 0} where
  -- A filesystem whose calls take another path in another one.
  abbrev pub at_path : (Bytes → Bytes) → FileSystem W D → FileSystem W D
  at_path f inner = record {
    open_file = λ path flags mode. inner.open_file (f path) flags mode;
    create_directory = λ path mode. inner.create_directory (f path) mode;
    remove_directory = λ path. inner.remove_directory (f path);
    remove_file = λ path. inner.remove_file (f path);
    read_directory = λ path. inner.read_directory (f path);
    stat = λ path. inner.stat (f path);
    is_builtin_command = λ path. inner.is_builtin_command (f path);
  }

  -- SubFileSystem, of the path that its constructor normalizes.
  abbrev pub sub_filesystem : FileSystem W D → Bytes → FileSystem W D
  sub_filesystem whole base = at_path (resolve_in_root (normalize base root)) whole

  -- ComposedFileSystem, less what its constructor mounts.
  abbrev pub composed_filesystem : FileSystem W D → FileSystem W D
  composed_filesystem main = at_path absolute_path_for main

  -- ReadOnlyFileSystem.
  abbrev pub read_only_filesystem : FileSystem W D → FileSystem W D
  read_only_filesystem inner = record {
    open_file = λ path flags mode w.
        if requests_write_access flags
        then (none, w)
        else inner.open_file (normalize path root) flags mode w;
    create_directory = λ path mode w. (false, w);
    remove_directory = λ path w. (false, w);
    remove_file = λ path w. (false, w);
    read_directory = λ path. inner.read_directory (normalize path root);
    stat = λ path. inner.stat (normalize path root);
    is_builtin_command = λ path. inner.is_builtin_command (normalize path root);
  }

abbrev pub is_ok : Status → Bool
is_ok ok = true
is_ok failed = false

-- The filesystem of Memory, whose calls find the clock's readings in an argument.
abbrev pub in_memory : Clock → FileSystem (Dict Node) FileDescriptor
in_memory clock = record {
  open_file = λ path flags mode. Memory.open_file path flags clock;
  create_directory = λ path mode nodes.
      let (status, after) = Memory.create_directory path clock nodes in (is_ok status, after);
  remove_directory = λ path nodes.
      let (status, after) = Memory.remove_directory path clock nodes in (is_ok status, after);
  remove_file = λ path nodes.
      let (status, after) = Memory.remove_file path clock nodes in (is_ok status, after);
  read_directory = λ path nodes. (Memory.read_directory path nodes, nodes);
  stat = λ path nodes. (Memory.stat path nodes, nodes);
  is_builtin_command = λ path nodes. (none, nodes);
}
