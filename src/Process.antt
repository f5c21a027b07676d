-- ===== src/Process.antt =====
-- src/components/HaisosOS/ProcessFileIO.cpp and .h: the working directory of a process, its table of descriptors,
-- and the calls it makes of the filesystem of the OS. A call under a mutex is one step; a null pointer is `none`.
pub mod Slots
pub mod Descriptors
pub mod Reach
mod Examples
use haisos.Common.{
  ℕ, zero, suc, ◌+◌, ◌-◌, ◌<◌, Bool, true, false, not, ◌&&◌, Option, none, some, List, [], ◌∷◌,
  ◌++◌, ◌==◌, ltb, if◌then◌else◌, Bytes, bytes_eq, is_empty, length, drop, replicate,
}
use haisos.Interfaces.{DirectoryEntry, FileStatus}
use haisos.Path.{root, normalize}
use haisos.Memory.{OpenFlags}
use haisos.Hsh.Number.{ℤ, pos, negsuc}
use haisos.Hsh.Test.Primaries.{max_descriptors}
use haisos.Routing.{FileSystem}
use haisos.Routing.Own.{is_directory_status}

-- m_descriptors, and a slot of it, `none` also where it does not reach.
abbrev pub Table : Type 0 → Type 0
Table D = List (Option D)

module _ {D : Type 0} where
  abbrev pub slot : ℕ → Table D → Option D
  slot n [] = none
  slot zero (entry ∷ table) = entry
  slot (suc n) (entry ∷ table) = slot n table

  -- An assignment to a slot that is there.
  abbrev pub set_slot : ℕ → Option D → Table D → Table D
  set_slot n value [] = []
  set_slot zero value (entry ∷ table) = value ∷ table
  set_slot (suc n) value (entry ∷ table) = entry ∷ set_slot n value table

  -- GetDescriptor.
  unfoldable pub get_descriptor : ℤ → Table D → Option D
  get_descriptor (pos fd) table = slot fd table
  get_descriptor (negsuc n) table = none

  -- The loop of NextFreeSlotLocked, from an index on.
  unfoldable pub next_hole : ℕ → Table D → Option ℕ
  next_hole i [] = none
  next_hole i (none ∷ table) = some i
  next_hole i (some descriptor ∷ table) = next_hole (suc i) table

  -- NextFreeSlotLocked.
  unfoldable pub next_free_slot : ℕ → Table D → Option ℕ
  next_free_slot from table = elim (next_hole from (drop from table)) [
    | some i ↦ some i
    | none ↦
        let grown = if ltb from (length table) then length table else from in
        if ltb grown max_descriptors then some grown else none
  ]

  -- AddDescriptorLocked.
  unfoldable pub add_locked : D → Table D → Option ℕ × Table D
  add_locked descriptor table = elim (next_free_slot 0 table) [
    | none ↦ (none, table)
    | some n ↦ (
      some n,
      if n == length table
          then table ++ some descriptor ∷ []
          else set_slot n (some descriptor) table,
    )
  ]

  -- AddDescriptor.
  unfoldable pub add_descriptor : Option D → Table D → Option ℕ × Table D
  add_descriptor none table = (none, table)
  add_descriptor (some descriptor) table = add_locked descriptor table

  -- Dup.
  unfoldable pub dup : ℤ → Table D → Option ℕ × Table D
  dup fd table = elim (get_descriptor fd table) [
    | none ↦ (none, table)
    | some descriptor ↦ add_locked descriptor table
  ]

  -- m_descriptors.resize, to a size that is not smaller.
  abbrev pub resize : ℕ → Table D → Table D
  resize size table = table ++ replicate (size - length table) none

  -- Dup2 from a descriptor to a slot that is not negative.
  abbrev pub dup_to : ℤ → D → ℕ → Table D → Option ℕ × Table D
  dup_to old_fd descriptor new_fd table =
      if not (ltb new_fd max_descriptors)
      then (none, table)
      else if (elim old_fd [ pos n ↦ n == new_fd | negsuc n ↦ false ])
      then (some new_fd, table)
      else (
        some new_fd,
        set_slot new_fd (some descriptor)
            (if ltb new_fd (length table) then table else resize (new_fd + 1) table),
      )

  -- Dup2.
  unfoldable pub dup2 : ℤ → ℤ → Table D → Option ℕ × Table D
  dup2 old_fd new_fd table = elim (get_descriptor old_fd table) [
    | none ↦ (none, table)
    | some descriptor ↦ elim new_fd [
      | pos n ↦ dup_to old_fd descriptor n table
      | negsuc n ↦ (none, table)
    ]
  ]

  -- CloseDescriptor.
  unfoldable pub close_descriptor : ℤ → Table D → Bool × Table D
  close_descriptor (negsuc n) table = (false, table)
  close_descriptor (pos fd) table = elim (slot fd table) [
    | none ↦ (false, table)
    | some descriptor ↦ (true, set_slot fd none table)
  ]

  abbrev pub all_free : Table D → Bool
  all_free [] = true
  all_free (none ∷ table) = all_free table
  all_free (some descriptor ∷ table) = false

  -- InstallStandardStreams, of pointers that are not null.
  unfoldable pub install_standard_streams : D → D → D → Table D → Bool × Table D
  install_standard_streams input output error table =
      if all_free table then (true, some input ∷ some output ∷ some error ∷ []) else (false, table)

  -- CreatePipe, of what the pipe service of the OS gave: `none` where there is no OS or no service.
  unfoldable pub create_pipe_slots : Option (D × D) → Table D → Option (ℕ × ℕ) × Table D
  create_pipe_slots none table = (none, table)
  create_pipe_slots (some (read_end, write_end)) table = elim (next_free_slot 0 table) [
    | none ↦ (none, table)
    | some read_slot ↦ elim (next_free_slot (read_slot + 1) table) [
      | none ↦ (none, table)
      | some write_slot ↦
          let (first, table1) = add_locked read_end table in
          let (second, table2) = add_locked write_end table1 in
          (
            elim first [
              | none ↦ none
              | some r ↦ elim second [ none ↦ none | some w ↦ some (r, w) ]
            ],
            table2,
          )
    ]
  ]

  -- ReleaseAllDescriptors.
  unfoldable pub release_all_descriptors : Table D → Table D
  release_all_descriptors table = []

-- The constructor's working directory.
unfoldable pub initial_directory : Bytes → Bytes
initial_directory directory = if is_empty directory then root else normalize directory root

-- ResolvePath, from the working directory.
unfoldable pub resolve_path : Bytes → Bytes → Bytes
resolve_path directory path = normalize path directory

module _ {W D : Type 0} (os : Option (FileSystem W D)) where
  -- ChangeDirectory: whether it succeeds, and the working directory.
  unfoldable pub change_directory : Bytes → Bytes → W → Bool × Bytes × W
  change_directory directory path w =
      let target = normalize path directory in
      if bytes_eq target root then (true, target, w) else (elim os [
        | none ↦ (false, directory, w)
        | some filesystem ↦
            let (status, w') = filesystem.stat target w in
            if is_directory_status status then (true, target, w') else (false, directory, w')
      ])

  -- OpenFile.
  unfoldable pub open_in : Bytes → Bytes → OpenFlags → Option ℕ → W → Option D × W
  open_in directory path flags mode w = elim os [
    | none ↦ (none, w)
    | some filesystem ↦ filesystem.open_file (resolve_path directory path) flags mode w
  ]

  -- CreateDirectory, RemoveDirectory, RemoveFile.
  unfoldable pub create_directory_in : Bytes → Bytes → ℕ → W → Bool × W
  create_directory_in directory path mode w = elim os [
    | none ↦ (false, w)
    | some filesystem ↦ filesystem.create_directory (resolve_path directory path) mode w
  ]

  unfoldable pub remove_directory_in : Bytes → Bytes → W → Bool × W
  remove_directory_in directory path w = elim os [
    | none ↦ (false, w)
    | some filesystem ↦ filesystem.remove_directory (resolve_path directory path) w
  ]

  unfoldable pub remove_file_in : Bytes → Bytes → W → Bool × W
  remove_file_in directory path w = elim os [
    | none ↦ (false, w)
    | some filesystem ↦ filesystem.remove_file (resolve_path directory path) w
  ]

  -- ReadDirectory, Stat, IsBuiltinCommand.
  unfoldable pub read_directory_in : Bytes → Bytes → W → List DirectoryEntry × W
  read_directory_in directory path w = elim os [
    | none ↦ ([], w)
    | some filesystem ↦ filesystem.read_directory (resolve_path directory path) w
  ]

  unfoldable pub stat_in : Bytes → Bytes → W → Option FileStatus × W
  stat_in directory path w = elim os [
    | none ↦ (none, w)
    | some filesystem ↦ filesystem.stat (resolve_path directory path) w
  ]

  unfoldable pub is_builtin_command_in : Bytes → Bytes → W → Option Bytes × W
  is_builtin_command_in directory path w = elim os [
    | none ↦ (none, w)
    | some filesystem ↦ filesystem.is_builtin_command (resolve_path directory path) w
  ]
