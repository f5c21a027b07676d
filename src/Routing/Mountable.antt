-- ===== src/Routing/Mountable.antt =====
-- src/components/Filesystem/MountableFileSystem.cpp and .h: the calls over what is mounted and the builtin commands.
-- `local` is the Local part of the subclass. A call that holds a mutex for a while is one step.
use haisos.Common.{
  ℕ, Bool, true, false, not, ◌&&◌, ◌||◌, Option, none, some, List, if◌then◌else◌, Bytes, bytes_eq,
  length, is_empty, any,
}
use haisos.Common.Dict.{Dict, lookup, insert, erase}
use haisos.Interfaces.{DirectoryEntry, FileStatus, FileDateTime}
use haisos.Path.{root}
use haisos.Mounts.{Entry, mount, unmount, resolve, child_segments, latest_mount_time_below}
use haisos.Memory.{OpenFlags}
use haisos.Routing.{FileSystem, requests_write_access, absolute_path_for}
use haisos.Routing.Own.{
  Builtin, OpenedFile, of_filesystem, of_builtin, builtin_command_file_content, own_builtin_at,
  has_own_builtin_at_or_under, add_segments, add_own_builtin_entries, is_dots, without_dots,
  with_dots, is_directory_status, builtin_status, way_status,
}

-- m_mounts and m_builtins.
pub record Mountable (W D : Type 0) : Type 0 where
  pub mounts : List (Entry (FileSystem W D))
  pub builtins : Dict Builtin

module _ {W D : Type 0} where
  -- Mount and Unmount.
  abbrev pub mount_filesystem :
      Bytes → Option (FileSystem W D) → FileDateTime → Mountable W D → Mountable W D
  mount_filesystem path filesystem now st = record st {
    mounts = mount (absolute_path_for path) filesystem now st.mounts;
  }

  abbrev pub unmount_filesystem : Bytes → Mountable W D → Mountable W D
  unmount_filesystem path st = record st { mounts = unmount (absolute_path_for path) st.mounts }

  -- AddBuiltinCommand; `can_hold` is LocalCanHoldBuiltinCommands.
  unfoldable pub add_builtin_command :
      Bool → Bytes → Bytes → FileDateTime → Mountable W D → Bool × Mountable W D
  add_builtin_command can_hold path name now st =
      let absolute = absolute_path_for path in
      if bytes_eq absolute root || (is_empty name || not can_hold)
      then (false, st)
      else (elim (lookup absolute st.builtins) [
        | some builtin ↦ (false, st)
        | none ↦ (
          true,
          record st {
            builtins = insert absolute (record { name = name; placed_time = now }) st.builtins;
          },
        )
      ])

  -- RemoveBuiltinCommand.
  unfoldable pub remove_builtin_command : Bytes → Mountable W D → Bool × Mountable W D
  remove_builtin_command path st =
      let absolute = absolute_path_for path in
      elim (lookup absolute st.builtins) [
        | none ↦ (false, st)
        | some builtin ↦ (true, record st { builtins = erase absolute st.builtins })
      ]

  -- The answer of a call of another filesystem's OpenFile.
  abbrev pub opened : Option D × W → Option (OpenedFile D) × W
  opened (none, w) = (none, w)
  opened (some d, w) = (some (of_filesystem d), w)

  module _ (local : FileSystem W D) (st : Mountable W D) where
    -- What Resolve routes a call to: the filesystem and the path in it, or the Local part and the path as it is.
    abbrev pub route : Bytes → FileSystem W D × Bytes
    route path = elim (resolve (absolute_path_for path) st.mounts) [
      | none ↦ (local, path)
      | some found ↦ found
    ]

    -- OpenFile, with OpenOwnBuiltin.
    unfoldable pub open_file : Bytes → OpenFlags → Option ℕ → W → Option (OpenedFile D) × W
    open_file path flags mode w = elim (own_builtin_at (absolute_path_for path) st.builtins) [
      | some name ↦
          if requests_write_access flags
          then (none, w)
          else (some (of_builtin (builtin_command_file_content name) 0), w)
      | none ↦
          let (filesystem, inner) = route path in opened (filesystem.open_file inner flags mode w)
    ]

    -- CreateDirectory.
    unfoldable pub create_directory : Bytes → ℕ → W → Bool × W
    create_directory path mode w = elim (own_builtin_at (absolute_path_for path) st.builtins) [
      | some name ↦ (false, w)
      | none ↦ let (filesystem, inner) = route path in filesystem.create_directory inner mode w
    ]

    -- RemoveDirectory.
    unfoldable pub remove_directory : Bytes → W → Bool × W
    remove_directory path w =
        if has_own_builtin_at_or_under (absolute_path_for path) st.builtins
        then (false, w)
        else (let (filesystem, inner) = route path in filesystem.remove_directory inner w)

    -- RemoveFile.
    unfoldable pub remove_file : Bytes → W → Bool × W
    remove_file path w = elim (own_builtin_at (absolute_path_for path) st.builtins) [
      | some name ↦ (false, w)
      | none ↦ let (filesystem, inner) = route path in filesystem.remove_file inner w
    ]

    -- Stat behind its builtins, for a path that no mount serves.
    abbrev pub stat_on_the_way : Bytes → Option FileStatus × W → Option FileStatus × W
    stat_on_the_way absolute (some status, w) = (some status, w)
    stat_on_the_way absolute (none, w) = elim (latest_mount_time_below absolute st.mounts) [
      | none ↦ (none, w)
      | some mounted_at ↦
          (some (way_status (length (child_segments absolute st.mounts)) mounted_at), w)
    ]

    -- Stat.
    unfoldable pub stat : Bytes → W → Option FileStatus × W
    stat path w = elim (lookup (absolute_path_for path) st.builtins) [
      | some builtin ↦ (some (builtin_status builtin), w)
      | none ↦ elim (resolve (absolute_path_for path) st.mounts) [
        | some (filesystem, inner) ↦ filesystem.stat inner w
        | none ↦ stat_on_the_way (absolute_path_for path) (local.stat path w)
      ]
    ]

    -- PutDotEntriesFirst.
    unfoldable pub put_dot_entries_first : Bytes → List DirectoryEntry → W → List DirectoryEntry × W
    put_dot_entries_first path entries w =
        let rest = without_dots entries in
        if not (any is_dots entries) && is_empty rest
        then (let (status, w') = stat path w in
            if is_directory_status status then (with_dots rest, w') else (rest, w'))
        else (with_dots rest, w)

    -- The entries of ReadDirectory before the last two calls.
    abbrev pub routed_entries : Bytes → W → List DirectoryEntry × W
    routed_entries path w = elim (resolve (absolute_path_for path) st.mounts) [
      | some (filesystem, inner) ↦ filesystem.read_directory inner w
      | none ↦
          let (entries, w') = local.read_directory path w in
          (add_segments (child_segments (absolute_path_for path) st.mounts) entries, w')
    ]

    -- ReadDirectory.
    unfoldable pub read_directory : Bytes → W → List DirectoryEntry × W
    read_directory path w =
        let (entries, w') = routed_entries path w in
        put_dot_entries_first path
          (add_own_builtin_entries (absolute_path_for path) st.builtins entries) w'

    -- IsBuiltinCommand.
    unfoldable pub is_builtin_command : Bytes → W → Option Bytes × W
    is_builtin_command path w = elim (own_builtin_at (absolute_path_for path) st.builtins) [
      | some name ↦ (some name, w)
      | none ↦ let (filesystem, inner) = route path in filesystem.is_builtin_command inner w
    ]

  -- The class as a filesystem.
  abbrev pub mountable_filesystem : FileSystem W D → Mountable W D → FileSystem W (OpenedFile D)
  mountable_filesystem local st = record {
    open_file = open_file local st;
    create_directory = create_directory local st;
    remove_directory = remove_directory local st;
    remove_file = remove_file local st;
    read_directory = read_directory local st;
    stat = stat local st;
    is_builtin_command = is_builtin_command local st;
  }
