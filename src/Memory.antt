-- ===== src/Memory.antt =====
-- src/components/Filesystem/InMemoryFileSystem.cpp: files and directories held under their
-- normalized paths. Each function is a call under the mutex. `clock` gives what the call's readings
-- of the system clock return, in their order. The open flags are the bits the code tests.
pub mod Keys
pub mod Tree
pub mod Removal
pub mod Calls
pub mod Content
mod Examples
use haisos.Common.{
  ℕ, zero, suc, ◌+◌, ◌-◌, ◌^◌, ◌≡◌, min, Bool, true, false, not, ◌&&◌, ◌||◌, Option, none, some,
  List, [], ◌∷◌, ◌++◌, ◌==◌, ltb, leb, if◌then◌else◌, Bytes, bytes_eq, starts_with, take, drop,
  length, replicate, any,
}
use haisos.Common.Dict.{Dict, lookup, insert, erase}
use haisos.Path.{slash, root, normalize, parent_of, last_segment}
use haisos.Interfaces.{
  IoResult, count, io_error, FileDateTime, DirectoryEntry, DirectoryEntryType, FileStatus,
  blocks_for_size,
}

pub record Node : Type 0 where
  pub is_directory : Bool
  pub data_bytes : Bytes
  pub access_time : FileDateTime
  pub modification_time : FileDateTime
  pub change_time : FileDateTime

abbrev pub Clock : Type 0
Clock = ℕ → FileDateTime

-- Node::Make.
abbrev pub make : Bool → FileDateTime → Node
make is_directory now = record {
  is_directory = is_directory;
  data_bytes = [];
  access_time = now;
  modification_time = now;
  change_time = now;
}

-- Node::Modified.
abbrev pub modified : FileDateTime → Node → Node
modified now node = record node { modification_time = now; change_time = now }

-- The constructor.
abbrev pub create_fs : FileDateTime → Dict Node
create_fs now = (root, make true now) ∷ []

-- TouchDirectory.
unfoldable pub touch_directory : Bytes → FileDateTime → Dict Node → Dict Node
touch_directory path now nodes = elim (lookup path nodes) [
  | none ↦ nodes
  | some node ↦ insert path (modified now node) nodes
]

-- it != end() && it->second.isDirectory.
abbrev pub is_directory_node : Option Node → Bool
is_directory_node none = false
is_directory_node (some node) = node.is_directory

unfoldable pub is_directory_at : Bytes → Dict Node → Bool
is_directory_at path nodes = is_directory_node (lookup path nodes)

pub record OpenFlags : Type 0 where
  pub write_only : Bool
  pub read_write : Bool
  pub creates : Bool
  pub truncates : Bool
  pub appends : Bool

-- InMemoryFileDescriptor.
pub record FileDescriptor : Type 0 where
  pub path : Bytes
  pub position : ℕ
  pub writable : Bool
  pub readable : Bool
  pub append_mode : Bool

abbrev pub descriptor : Bytes → OpenFlags → FileDescriptor
descriptor path flags = record {
  path = path;
  position = 0;
  writable = flags.write_only || flags.read_write;
  readable = not flags.write_only;
  append_mode = flags.appends;
}

-- A node put in under a new path, by a call that has found its parent.
abbrev pub add_node : Bytes → Bool → Clock → Dict Node → Dict Node
add_node path is_directory clock nodes =
    touch_directory (parent_of path) (clock 1) (insert path (make is_directory (clock 0)) nodes)

-- LocalOpenFile, with `none` for nullptr.
unfoldable pub open_file : Bytes → OpenFlags → Clock → Dict Node → Option FileDescriptor × Dict Node
open_file pathname flags clock nodes =
    let path = normalize pathname root in
    elim (lookup path nodes) [
      | none ↦
          if not flags.creates
          then (none, nodes)
          else if not (is_directory_at (parent_of path) nodes)
          then (none, nodes)
          else (some (descriptor path flags), add_node path false clock nodes)
      | some node ↦
          if node.is_directory
          then (none, nodes)
          else if flags.truncates
          then (
            some (descriptor path flags),
            insert path (modified (clock 0) (record node { data_bytes = [] })) nodes,
          )
          else (some (descriptor path flags), nodes)
    ]

-- What ReadAt returns, copies out, leaves as the position, and as the nodes.
abbrev pub ReadResult : Type 0
ReadResult = IoResult × Bytes × ℕ × Dict Node

-- ReadAt.
unfoldable pub read_at : Bytes → ℕ → ℕ → Clock → Dict Node → ReadResult
read_at path pos n clock nodes = elim (lookup path nodes) [
  | none ↦ (io_error, [], pos, nodes)
  | some node ↦
      let size = length node.data_bytes in
      if leb size pos
      then (count 0, [], pos, nodes)
      else (let to_copy = min n (size - pos) in
          (
            count to_copy,
            take to_copy (drop pos node.data_bytes),
            pos + to_copy,
            insert path (record node { access_time = clock 0 }) nodes,
          ))
]

-- SIZE_MAX of a 64-bit build.
unfoldable pub size_max : ℕ
size_max = 2 ^ 64 - 1

-- data.resize and memcpy.
unfoldable pub put_at : Bytes → ℕ → Bytes → Bytes
put_at bytes pos buf =
    let n = pos + length buf in
    let resized = if ltb (length bytes) n then bytes ++ replicate (n - length bytes) 0 else bytes in
    take pos resized ++ (buf ++ drop n resized)

-- WriteAt: the result, the position and the nodes.
unfoldable pub write_at : Bytes → ℕ → Bool → Bytes → Clock → Dict Node → IoResult × ℕ × Dict Node
write_at path pos append_mode buf clock nodes = elim (lookup path nodes) [
  | none ↦ (io_error, pos, nodes)
  | some node ↦
      let start = if append_mode then length node.data_bytes else pos in
      if ltb (size_max - start) (length buf) then (io_error, start, nodes) else (
        count (length buf),
        start + length buf,
        insert path
            (modified (clock 0) (record node { data_bytes = put_at node.data_bytes start buf }))
            nodes,
      )
]

-- InMemoryFileDescriptor::Read and Write.
unfoldable pub read_descriptor :
    FileDescriptor → ℕ → Clock → Dict Node → IoResult × Bytes × FileDescriptor × Dict Node
read_descriptor fd n clock nodes =
    let (r, out, pos, after) = read_at fd.path fd.position n clock nodes in
    if not fd.readable
    then (io_error, [], fd, nodes)
    else (r, out, record fd { position = pos }, after)

unfoldable pub write_descriptor :
    FileDescriptor → Bytes → Clock → Dict Node → IoResult × FileDescriptor × Dict Node
write_descriptor fd buf clock nodes =
    let (r, pos, after) = write_at fd.path fd.position fd.append_mode buf clock nodes in
    if not fd.writable then (io_error, fd, nodes) else (r, record fd { position = pos }, after)

-- The int of a call that creates or removes: 0 or -1.
pub data Status : Type 0 where
  ok failed : Status

-- LocalCreateDirectory.
unfoldable pub create_directory : Bytes → Clock → Dict Node → Status × Dict Node
create_directory pathname clock nodes =
    let path = normalize pathname root in
    elim (lookup path nodes) [
      | some node ↦ (failed, nodes)
      | none ↦
          if not (is_directory_at (parent_of path) nodes)
          then (failed, nodes)
          else (ok, add_node path true clock nodes)
    ]

-- m_nodes.erase(it) and the parent's times.
abbrev pub drop_node : Bytes → Clock → Dict Node → Dict Node
drop_node path clock nodes = touch_directory (parent_of path) (clock 0) (erase path nodes)

-- Whether some path is below a directory's.
abbrev pub has_below : Bytes → Dict Node → Bool
has_below path = any (λ (entry : Bytes × Node). starts_with entry.0 (path ++ slash ∷ []))

-- LocalRemoveDirectory.
unfoldable pub remove_directory : Bytes → Clock → Dict Node → Status × Dict Node
remove_directory pathname clock nodes =
    let path = normalize pathname root in
    if not (is_directory_at path nodes) || bytes_eq path root
    then (failed, nodes)
    else if has_below path nodes
    then (failed, nodes)
    else (ok, drop_node path clock nodes)

-- LocalRemoveFile.
unfoldable pub remove_file : Bytes → Clock → Dict Node → Status × Dict Node
remove_file pathname clock nodes =
    let path = normalize pathname root in
    elim (lookup path nodes) [
      | none ↦ (failed, nodes)
      | some node ↦ if node.is_directory then (failed, nodes) else (ok, drop_node path clock nodes)
    ]

abbrev pub entry_type : Node → DirectoryEntryType
entry_type node = if node.is_directory then DirectoryEntryType.dir else DirectoryEntryType.file

-- The loop of LocalReadDirectory.
unfoldable pub children_of : Bytes → Dict Node → List DirectoryEntry
children_of path [] = []
children_of path ((key, node) ∷ nodes) =
    let rest = children_of path nodes in
    if bytes_eq key path
    then rest
    else if bytes_eq (parent_of key) path
    then record { name = last_segment key; kind = entry_type node } ∷ rest
    else rest

-- LocalReadDirectory.
unfoldable pub read_directory : Bytes → Dict Node → List DirectoryEntry
unfolding children_of
read_directory pathname nodes =
    let path = normalize pathname root in
    if not (is_directory_at path nodes) then [] else children_of path nodes

-- The loop of LocalStat over the subdirectories.
unfoldable pub count_subdirectories : Bytes → Dict Node → ℕ
count_subdirectories path [] = 0
count_subdirectories path ((key, node) ∷ nodes) =
    let rest = count_subdirectories path nodes in
    if node.is_directory
      && (not (bytes_eq key path) && (not (bytes_eq key root) && bytes_eq (parent_of key) path))
    then suc rest
    else rest

-- LocalStat.
unfoldable pub stat : Bytes → Dict Node → Option FileStatus
unfolding count_subdirectories
stat pathname nodes =
    let path = normalize pathname root in
    elim (lookup path nodes) [
      | none ↦ none
      | some node ↦
          let size = if node.is_directory then 0 else length node.data_bytes in
          some (record {
            kind = entry_type node;
            size = size;
            blocks = blocks_for_size size;
            link_count = if node.is_directory then 2 + count_subdirectories path nodes else 1;
            access_time = node.access_time;
            modification_time = node.modification_time;
            change_time = node.change_time;
          })
    ]
