-- ===== src/Routing/Own.antt =====
-- src/components/Filesystem/MountableFileSystem.cpp and .h: its own builtin commands, and the entries of a listing.
use haisos.Common.{
  ℕ, ◌+◌, ◌-◌, min, Bool, true, false, not, ◌&&◌, ◌||◌, Option, none, some, List, [], ◌∷◌, ◌++◌,
  ◌==◌, ltb, if◌then◌else◌, Bytes, bytes_eq, starts_with, codes, length, any, take, drop, get_or,
}
use haisos.Common.Dict.{Dict, lookup}
use haisos.Interfaces.{DirectoryEntry, DirectoryEntryType, FileStatus, FileDateTime, file, dir}
use haisos.Path.{slash, dot, dot_dot, root, parent_of, last_segment}

pub record Builtin : Type 0 where
  pub name : Bytes
  pub placed_time : FileDateTime

-- A file of a filesystem, or a BuiltinCommandFileDescriptor with its text and its position.
pub data OpenedFile (D : Type 0) : Type 0 where
  of_filesystem : D → OpenedFile D
  of_builtin : Bytes → ℕ → OpenedFile D

-- BuiltinCommandFileDescriptor::Read, of a position that is within the text.
unfoldable pub read_builtin : ℕ → Bytes → ℕ → Bytes × ℕ
read_builtin n content position =
    let to_copy = min n (length content - position) in
    (take to_copy (drop position content), position + to_copy)

-- BuiltinCommandFileContent of src/components/Filesystem/BuiltinCommandFile.h.
unfoldable pub builtin_command_file_content : Bytes → Bytes
builtin_command_file_content name =
    codes "This is the HaisosOS builtin command "
    ++ (name
        ++ codes
            ". This file can be read if you have permissions but you cannot write it, nor delete the FS directory containing it.")

-- IsAtOrUnder.
unfoldable pub is_at_or_under_directory : Bytes → Bytes → Bool
is_at_or_under_directory path directory =
    if bytes_eq directory root || bytes_eq path directory
    then true
    else ltb (length directory) (length path)
      && (starts_with path directory && get_or path (length directory) 0 == slash)

-- OwnBuiltinAt.
unfoldable pub own_builtin_at : Bytes → Dict Builtin → Option Bytes
own_builtin_at absolute builtins = elim (lookup absolute builtins) [
  | none ↦ none
  | some builtin ↦ some builtin.name
]

-- HasOwnBuiltinAtOrUnder.
unfoldable pub has_own_builtin_at_or_under : Bytes → Dict Builtin → Bool
has_own_builtin_at_or_under absolute builtins =
    any (λ (entry : Bytes × Builtin). is_at_or_under_directory entry.0 absolute) builtins

abbrev pub listed : Bytes → List DirectoryEntry → Bool
listed name = any (λ (entry : DirectoryEntry). bytes_eq entry.name name)

-- entries.push_back, where no entry has the name.
abbrev pub add_entry : Bytes → DirectoryEntryType → List DirectoryEntry → List DirectoryEntry
add_entry name kind entries =
    if listed name entries then entries else entries ++ record { name = name; kind = kind } ∷ []

-- The loop of ReadDirectory over ChildSegments.
unfoldable pub add_segments : List Bytes → List DirectoryEntry → List DirectoryEntry
add_segments [] entries = entries
add_segments (segment ∷ segments) entries = add_segments segments (add_entry segment dir entries)

-- AddOwnBuiltinEntries.
unfoldable pub add_own_builtin_entries :
    Bytes → Dict Builtin → List DirectoryEntry → List DirectoryEntry
add_own_builtin_entries absolute [] entries = entries
add_own_builtin_entries absolute ((path, builtin) ∷ builtins) entries =
    add_own_builtin_entries absolute builtins (
      if not (bytes_eq (parent_of path) absolute)
      then entries
      else add_entry (last_segment path) file entries)

abbrev pub is_dots : DirectoryEntry → Bool
is_dots entry = bytes_eq entry.name dot || bytes_eq entry.name dot_dot

-- std::remove_if and erase.
unfoldable pub without_dots : List DirectoryEntry → List DirectoryEntry
without_dots [] = []
without_dots (entry ∷ entries) =
    let rest = without_dots entries in if is_dots entry then rest else entry ∷ rest

abbrev pub with_dots : List DirectoryEntry → List DirectoryEntry
with_dots entries =
    record { name = dot; kind = dir } ∷ record { name = dot_dot; kind = dir } ∷ entries

-- Stat(path, status) == 0 && status.type == Dir.
abbrev pub is_directory_status : Option FileStatus → Bool
is_directory_status none = false
is_directory_status (some status) = elim status.kind [
  | DirectoryEntryType.file ↦ false
  | DirectoryEntryType.dir ↦ true
  | DirectoryEntryType.char_device ↦ false
]

-- The status of a builtin command's file.
abbrev pub builtin_status : Builtin → FileStatus
builtin_status builtin = record {
  kind = file;
  size = length (builtin_command_file_content builtin.name);
  blocks = 0;
  link_count = 1;
  access_time = builtin.placed_time;
  modification_time = builtin.placed_time;
  change_time = builtin.placed_time;
}

-- That of a directory on the way to a mount point, with the mounts below it.
abbrev pub way_status : ℕ → FileDateTime → FileStatus
way_status segments mounted_at = record {
  kind = dir;
  size = 0;
  blocks = 0;
  link_count = 2 + segments;
  access_time = mounted_at;
  modification_time = mounted_at;
  change_time = mounted_at;
}
