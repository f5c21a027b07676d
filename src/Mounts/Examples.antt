-- ===== src/Mounts/Examples.antt =====
-- Runs of src/components/Filesystem/MountPoints.cpp, and the theorems at a concrete table. A filesystem
-- is a number here.
use haisos.Common.{ℕ, List, [], ◌∷◌, ◌≡◌, refl, some, none, Bytes, codes, bytes_eq, starts_with}
use haisos.Interfaces.{FileDateTime}
use haisos.Path.{normalize, path_of, relative_to_base}
use haisos.Path.Segments.{IsSegment}
use haisos.Mounts.{
  Entry, mount, unmount, resolve, replace_at, sort_mounts, insert_sorted, is_at_or_under,
  child_segments, segments_loop, find_slash,
}
use haisos.Mounts.Table.{Reach, empty, mounted, unmounted, IsTable, Reach-IsTable}
use haisos.Mounts.Innermost.{Resolved, resolve-Resolved}

abbrev dawn : FileDateTime
dawn = record { seconds = 21600; nanoseconds = 0 }

-- One filesystem at "/a", another within it at "/a/b/c".
abbrev nested : List (Entry ℕ)
nested = mount (codes "/a/b/c") (some 2) dawn (mount (codes "a") (some 1) dawn [])

resolve_inner : resolve (codes "/a/b/c/d") nested ≡ some (2, codes "/d")
unfolding mount replace_at sort_mounts insert_sorted resolve is_at_or_under relative_to_base
    normalize bytes_eq starts_with
resolve_inner = refl

resolve_outer : resolve (codes "/a/b") nested ≡ some (1, codes "/b")
unfolding mount replace_at sort_mounts insert_sorted resolve is_at_or_under relative_to_base
    normalize bytes_eq starts_with
resolve_outer = refl

resolve_sibling : resolve (codes "/ab") nested ≡ none
unfolding mount replace_at sort_mounts insert_sorted resolve is_at_or_under relative_to_base
    normalize bytes_eq starts_with
resolve_sibling = refl

children_of_a : child_segments (codes "/a") nested ≡ codes "b" ∷ []
unfolding mount replace_at sort_mounts insert_sorted child_segments segments_loop find_slash
    is_at_or_under normalize bytes_eq starts_with
children_of_a = refl

nested-Reach : Reach ℕ nested
nested-Reach = mounted (mounted empty (codes "a") (some 1) dawn) (codes "/a/b/c") (some 2) dawn

Reach-IsTable_example : IsTable (unmount (codes "/a/./b/c") nested)
Reach-IsTable_example = Reach-IsTable (unmounted nested-Reach (codes "/a/./b/c"))

abbrev one_letter : Bytes
one_letter = codes "a"

one_letter-IsSegment : IsSegment one_letter
unfolding bytes_eq
one_letter-IsSegment = record {
  non_empty = refl;
  no_separator = refl;
  not_dot = refl;
  not_dot_dot = refl;
}

resolve-Resolved_example :
    Resolved
      (one_letter ∷ one_letter ∷ [])
      nested
      (resolve (path_of (one_letter ∷ one_letter ∷ [])) nested)
resolve-Resolved_example =
    resolve-Resolved (one_letter ∷ one_letter ∷ []) nested
      (one_letter-IsSegment, (one_letter-IsSegment, tt)) (Reach-IsTable nested-Reach)
