-- ===== src/Mounts.antt =====
-- src/components/Filesystem/MountPoints.cpp: the table of what is mounted where. `F` is the type of
-- the pointers to filesystems; a null pointer is `none`. Times are what the clock says to a mount.
pub mod Table
pub mod Innermost
mod Examples
use haisos.Common.{
  ℕ, zero, suc, ◌+◌, ◌-◌, Bool, true, false, not, ◌&&◌, ◌||◌, Option, none, some, List, [], ◌∷◌,
  ◌++◌, ◌==◌, ltb, leb, if◌then◌else◌, Bytes, bytes_eq, starts_with, take, drop, length, get_or,
  is_empty, any,
}
use haisos.Interfaces.{FileDateTime, earlier}
use haisos.Path.{slash, root, normalize, relative_to_base}

-- IsAtOrUnder.
unfoldable pub is_at_or_under : Bytes → Bytes → Bool
is_at_or_under path mount_point =
    if bytes_eq mount_point root
    then true
    else if not (starts_with path mount_point)
    then false
    else length path == length mount_point || get_or path (length mount_point) 0 == slash

-- MountPoints::Entry.
pub record Entry (F : Type 0) : Type 0 where
  pub path : Bytes
  pub filesystem : F
  pub mounted_at : FileDateTime

-- remainder.find('/').
unfoldable pub find_slash : Bytes → Option ℕ
find_slash [] = none
find_slash (c ∷ s) = elim (find_slash s) [
  | some i ↦ if c == slash then some 0 else some (suc i)
  | none ↦ if c == slash then some 0 else none
]

-- The next segment from a directory towards a path below it.
abbrev pub next_segment : Bytes → Bytes → Bytes
next_segment base path =
    let remainder = drop (length base + 1) path in
    elim (find_slash remainder) [ none ↦ remainder | some i ↦ take i remainder ]

-- relative ? *relative : "/".
abbrev pub inner_path : Option Bytes → Bytes
inner_path none = root
inner_path (some relative) = relative

-- !latest || time > *latest.
abbrev pub later_than : FileDateTime → Option FileDateTime → Bool
later_than time none = true
later_than time (some latest) = earlier latest time

module _ {F : Type 0} where
  -- The loop of Mount over the entries: those with the one at the path replaced, or `none` where
  -- there is none.
  unfoldable pub replace_at : Bytes → F → FileDateTime → List (Entry F) → Option (List (Entry F))
  replace_at path filesystem now [] = none
  replace_at path filesystem now (entry ∷ mounts) =
      let rest = replace_at path filesystem now mounts in
      if bytes_eq entry.path path
      then some (record entry { filesystem = filesystem; mounted_at = now } ∷ mounts)
      else (elim rest [ none ↦ none | some later ↦ some (entry ∷ later) ])

  -- std::sort by length, longest first. The standard leaves the order of equal lengths open; here
  -- they stay in order.
  unfoldable pub insert_sorted : Entry F → List (Entry F) → List (Entry F)
  insert_sorted entry [] = entry ∷ []
  insert_sorted entry (first ∷ mounts) =
      let rest = insert_sorted entry mounts in
      if ltb (length first.path) (length entry.path) then entry ∷ first ∷ mounts else first ∷ rest

  unfoldable pub sort_mounts : List (Entry F) → List (Entry F)
  sort_mounts [] = []
  sort_mounts (entry ∷ mounts) = insert_sorted entry (sort_mounts mounts)

  -- Mount.
  unfoldable pub mount : Bytes → Option F → FileDateTime → List (Entry F) → List (Entry F)
  mount path none now mounts = mounts
  mount path (some filesystem) now mounts =
      let normalized = normalize path root in
      let entry : Entry F = record {
        path = normalized;
        filesystem = filesystem;
        mounted_at = now;
      } in
      elim (replace_at normalized filesystem now mounts) [
        | some replaced ↦ replaced
        | none ↦ sort_mounts (mounts ++ entry ∷ [])
      ]

  -- Unmount's std::remove_if.
  unfoldable pub remove_at : Bytes → List (Entry F) → List (Entry F)
  remove_at path [] = []
  remove_at path (entry ∷ mounts) =
      let rest = remove_at path mounts in if bytes_eq entry.path path then rest else entry ∷ rest

  -- Unmount.
  unfoldable pub unmount : Bytes → List (Entry F) → List (Entry F)
  unmount path mounts = remove_at (normalize path root) mounts

  -- Resolve: the filesystem and the path in it, or `none` for a null filesystem.
  unfoldable pub resolve : Bytes → List (Entry F) → Option (F × Bytes)
  resolve path [] = none
  resolve path (entry ∷ mounts) =
      let rest = resolve path mounts in
      if not (is_at_or_under path entry.path)
      then rest
      else some (entry.filesystem, inner_path (relative_to_base entry.path path))

  -- The loop of ChildSegments.
  unfoldable pub segments_loop : Bytes → List (Entry F) → List Bytes → List Bytes
  segments_loop base [] segments = segments
  segments_loop base (entry ∷ mounts) segments =
      let segment = next_segment base entry.path in
      if leb (length entry.path) (length base)
        || not (is_at_or_under entry.path (if is_empty base then root else base))
      then segments_loop base mounts segments
      else if not (is_empty segment) && not (any (bytes_eq segment) segments)
      then segments_loop base mounts (segments ++ segment ∷ [])
      else segments_loop base mounts segments

  -- ChildSegments.
  unfoldable pub child_segments : Bytes → List (Entry F) → List Bytes
  child_segments directory mounts =
      segments_loop (if bytes_eq directory root then [] else directory) mounts []

  unfoldable pub latest_loop : Bytes → List (Entry F) → Option FileDateTime → Option FileDateTime
  latest_loop directory [] latest = latest
  latest_loop directory (entry ∷ mounts) latest = latest_loop directory mounts (
      if not (bytes_eq entry.path directory)
        && (is_at_or_under entry.path directory && later_than entry.mounted_at latest)
      then some entry.mounted_at
      else latest)

  -- LatestMountTimeBelow.
  unfoldable pub latest_mount_time_below : Bytes → List (Entry F) → Option FileDateTime
  latest_mount_time_below directory mounts = latest_loop directory mounts none
