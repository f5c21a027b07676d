-- ===== src/Routing/Untouched.antt =====
-- src/components/Filesystem/ReadOnlyFileSystem.cpp with src/components/Filesystem/MountableFileSystem.cpp above it.
use mathlib.Core.Path.{subst}
use haisos.Common.{
  ℕ, false, not, Option, none, some, List, [], ◌∷◌, ◌≡◌, refl, ◌∙◌, inl, inr, Bytes, is_empty, any,
  All, arith, ◌&&◌, Bool-cases, Option-cases,
}
use haisos.Common.Dict.{Dict, lookup}
use haisos.Interfaces.{DirectoryEntry, FileStatus}
use haisos.Path.{root, normalize}
use haisos.Mounts.{Entry, resolve, is_at_or_under, latest_mount_time_below}
use haisos.Memory
use haisos.Memory.{Node, Clock, FileDescriptor, OpenFlags}
use haisos.Routing.{
  FileSystem, requests_write_access, absolute_path_for, read_only_filesystem, in_memory,
}
use haisos.Routing.Mountable
use haisos.Routing.Mountable.{
  Mountable, mountable_filesystem, opened, route, stat_on_the_way, put_dot_entries_first,
  routed_entries,
}
use haisos.Routing.Own.{
  own_builtin_at, has_own_builtin_at_or_under, is_dots, without_dots, is_directory_status,
}

-- The calls that only look change nothing.
pub record Keeps {W D : Type 0} (filesystem : FileSystem W D) : Type 0 where
  pub opening :
      (path : Bytes) (flags : OpenFlags) (mode : Option ℕ) (w : W)
      → requests_write_access flags ≡ false
      → (filesystem.open_file path flags mode w).1 ≡ w
  pub listing : (path : Bytes) (w : W) → (filesystem.read_directory path w).1 ≡ w
  pub asking : (path : Bytes) (w : W) → (filesystem.stat path w).1 ≡ w
  pub naming : (path : Bytes) (w : W) → (filesystem.is_builtin_command path w).1 ≡ w

-- No call changes anything.
pub record Inert {W D : Type 0} (filesystem : FileSystem W D) : Type 0 where
  pub opening :
      (path : Bytes) (flags : OpenFlags) (mode : Option ℕ) (w : W)
      → (filesystem.open_file path flags mode w).1 ≡ w
  pub creating : (path : Bytes) (mode : ℕ) (w : W) → (filesystem.create_directory path mode w).1 ≡ w
  pub removing : (path : Bytes) (w : W) → (filesystem.remove_directory path w).1 ≡ w
  pub unlinking : (path : Bytes) (w : W) → (filesystem.remove_file path w).1 ≡ w
  pub listing : (path : Bytes) (w : W) → (filesystem.read_directory path w).1 ≡ w
  pub asking : (path : Bytes) (w : W) → (filesystem.stat path w).1 ≡ w
  pub naming : (path : Bytes) (w : W) → (filesystem.is_builtin_command path w).1 ≡ w

module _ {W D : Type 0} where
  abbrev Found : (FileSystem W D → Type 0) → Option (FileSystem W D × Bytes) → Type 0
  Found P none = Unit
  Found P (some (filesystem, inner)) = P filesystem

  -- What Resolve finds is one of those mounted.
  resolve-Found :
      (P : FileSystem W D → Type 0) (path : Bytes) (mounts : List (Entry (FileSystem W D)))
      → All (λ (entry : Entry (FileSystem W D)). P entry.filesystem) mounts
      → Found P (resolve path mounts)
  unfolding resolve
  resolve-Found P path [] h = tt
  resolve-Found P path (entry ∷ mounts) (h, hs) =
      elim (Bool-cases (is_at_or_under path entry.path)) [
        | inl b ↦ rw (resolve, b) h
        | inr b ↦ rw (resolve, b) (resolve-Found P path mounts hs)
      ]

  pub resolve-All :
      (P : FileSystem W D → Type 0) (path : Bytes) (mounts : List (Entry (FileSystem W D)))
      → All (λ (entry : Entry (FileSystem W D)). P entry.filesystem) mounts
      → (found : FileSystem W D × Bytes) → resolve path mounts ≡ some found
      → P found.0
  resolve-All P path mounts h found e = subst (Found P) e (resolve-Found P path mounts h)

  -- The filesystem over one that keeps what it is asked about.
  read_only-Inert : (inner : FileSystem W D) → Keeps inner → Inert (read_only_filesystem inner)
  read_only-Inert inner k = record {
    opening = λ path flags mode w. elim (Bool-cases (requests_write_access flags)) [
      | inl e ↦ rw e refl
      | inr e ↦ rw e (k.opening (normalize path root) flags mode w e)
    ];
    creating = λ path mode w. refl;
    removing = λ path w. refl;
    unlinking = λ path w. refl;
    listing = λ path w. k.listing (normalize path root) w;
    asking = λ path w. k.asking (normalize path root) w;
    naming = λ path w. k.naming (normalize path root) w;
  }

  opened-world : (r : Option D × W) → (opened r).1 ≡ r.1
  opened-world (none, w) = refl
  opened-world (some d, w) = refl

  module _ (local : FileSystem W D) (st : Mountable W D) (inert : Inert local)
      (all : All (λ (entry : Entry (FileSystem W D)). Inert entry.filesystem) st.mounts) where
    route-Inert : (path : Bytes) → Inert (route local st path).0
    route-Inert path = elim (Option-cases (resolve (absolute_path_for path) st.mounts)) [
      | inl e ↦ rw (route, e) inert
      | inr (found, e) ↦
          rw (route, e) (resolve-All Inert (absolute_path_for path) st.mounts all found e)
    ]

    opening-keeps :
        (path : Bytes) (flags : OpenFlags) (mode : Option ℕ) (w : W)
        → (Mountable.open_file local st path flags mode w).1 ≡ w
    unfolding Mountable.open_file
    opening-keeps path flags mode w =
        elim (Option-cases (own_builtin_at (absolute_path_for path) st.builtins)) [
          | inl e ↦
              rw (Mountable.open_file, e)
                (opened-world
                    ((route local st path).0.open_file (route local st path).1 flags mode w)
                  ∙ (route-Inert path).opening _ flags mode w)
          | inr (name, e) ↦
              rw (Mountable.open_file, e)
                (elim (Bool-cases (requests_write_access flags)) [
                  | inl b ↦ rw (Mountable.open_file, b) refl
                  | inr b ↦ rw (Mountable.open_file, b) refl
                ])
        ]

    creating-keeps :
        (path : Bytes) (mode : ℕ) (w : W) → (Mountable.create_directory local st path mode w).1 ≡ w
    unfolding Mountable.create_directory
    creating-keeps path mode w =
        elim (Option-cases (own_builtin_at (absolute_path_for path) st.builtins)) [
          | inl e ↦ rw (Mountable.create_directory, e) ((route-Inert path).creating _ mode w)
          | inr (name, e) ↦ rw (Mountable.create_directory, e) refl
        ]

    removing-keeps : (path : Bytes) (w : W) → (Mountable.remove_directory local st path w).1 ≡ w
    unfolding Mountable.remove_directory
    removing-keeps path w =
        elim (Bool-cases (has_own_builtin_at_or_under (absolute_path_for path) st.builtins)) [
          | inl e ↦ rw e refl
          | inr e ↦ rw e ((route-Inert path).removing _ w)
        ]

    unlinking-keeps : (path : Bytes) (w : W) → (Mountable.remove_file local st path w).1 ≡ w
    unfolding Mountable.remove_file
    unlinking-keeps path w =
        elim (Option-cases (own_builtin_at (absolute_path_for path) st.builtins)) [
          | inl e ↦ rw (Mountable.remove_file, e) ((route-Inert path).unlinking _ w)
          | inr (name, e) ↦ rw (Mountable.remove_file, e) refl
        ]

    naming-keeps : (path : Bytes) (w : W) → (Mountable.is_builtin_command local st path w).1 ≡ w
    unfolding Mountable.is_builtin_command
    naming-keeps path w =
        elim (Option-cases (own_builtin_at (absolute_path_for path) st.builtins)) [
          | inl e ↦ rw (Mountable.is_builtin_command, e) ((route-Inert path).naming _ w)
          | inr (name, e) ↦ rw (Mountable.is_builtin_command, e) refl
        ]

    on_the_way-world :
        (absolute : Bytes) (r : Option FileStatus × W)
        → (stat_on_the_way local st absolute r).1 ≡ r.1
    on_the_way-world absolute (some s, w) = refl
    on_the_way-world absolute (none, w) =
        elim (Option-cases (latest_mount_time_below absolute st.mounts)) [
          | inl e ↦ rw (stat_on_the_way, e) refl
          | inr (t, e) ↦ rw (stat_on_the_way, e) refl
        ]

    asking-keeps : (path : Bytes) (w : W) → (Mountable.stat local st path w).1 ≡ w
    unfolding Mountable.stat
    asking-keeps path w = elim (Option-cases (lookup (absolute_path_for path) st.builtins)) [
      | inr (b, e) ↦ rw (Mountable.stat, e) refl
      | inl e ↦
          rw (Mountable.stat, e)
            (elim (Option-cases (resolve (absolute_path_for path) st.mounts)) [
              | inr (found, f) ↦ rw f (
                  (resolve-All Inert (absolute_path_for path) st.mounts all found f).asking found.1
                    w)
              | inl f ↦ rw f (
                  on_the_way-world (absolute_path_for path) (local.stat path w)
                  ∙ inert.asking path w)
            ])
    ]

    dots-keeps :
        (path : Bytes) (entries : List DirectoryEntry) (w : W)
        → (put_dot_entries_first local st path entries w).1 ≡ w
    unfolding put_dot_entries_first
    dots-keeps path entries w =
        elim (Bool-cases (not (any is_dots entries) && is_empty (without_dots entries))) [
          | inr e ↦ rw e refl
          | inl e ↦
              rw e (elim (Bool-cases (is_directory_status ((Mountable.stat local st path w).0))) [
                | inl b ↦ rw b (asking-keeps path w)
                | inr b ↦ rw b (asking-keeps path w)
              ])
        ]

    routed-keeps : (path : Bytes) (w : W) → (routed_entries local st path w).1 ≡ w
    routed-keeps path w = elim (Option-cases (resolve (absolute_path_for path) st.mounts)) [
      | inr (found, f) ↦
          rw (routed_entries, f)
            ((resolve-All Inert (absolute_path_for path) st.mounts all found f).listing found.1 w)
      | inl f ↦ rw (routed_entries, f) (inert.listing path w)
    ]

    listing-keeps : (path : Bytes) (w : W) → (Mountable.read_directory local st path w).1 ≡ w
    unfolding Mountable.read_directory
    listing-keeps path w = dots-keeps path _ _ ∙ routed-keeps path w

    mountable-Inert : Inert (mountable_filesystem local st)
    mountable-Inert = record {
      opening = opening-keeps;
      creating = creating-keeps;
      removing = removing-keeps;
      unlinking = unlinking-keeps;
      listing = listing-keeps;
      asking = asking-keeps;
      naming = naming-keeps;
    }

  -- Through a read-only filesystem no call changes anything, whatever builtin commands it has, where looking
  -- at the inner filesystem changes nothing, and where the filesystems mounted on it let no call change
  -- anything either.
  pub read_only_filesystem-Inert :
      (inner : FileSystem W D) (st : Mountable W D)
      → Keeps inner
      → All (λ (entry : Entry (FileSystem W D)). Inert entry.filesystem) st.mounts
      → Inert (mountable_filesystem (read_only_filesystem inner) st)
  read_only_filesystem-Inert inner st k all =
      mountable-Inert (read_only_filesystem inner) st (read_only-Inert inner k) all

open_file-same :
    (clock : Clock) (path : Bytes) (flags : OpenFlags) (w : Dict Node)
    → requests_write_access flags ≡ false
    → (Memory.open_file path flags clock w).1 ≡ w
unfolding Memory.open_file requests_write_access
open_file-same clock path flags w e = ground (arith, e)

-- Looking at the filesystem in memory changes no node.
pub in_memory-Keeps : (clock : Clock) → Keeps (in_memory clock)
in_memory-Keeps clock = record {
  opening = λ path flags mode w e. open_file-same clock path flags w e;
  listing = λ path w. refl;
  asking = λ path w. refl;
  naming = λ path w. refl;
}
