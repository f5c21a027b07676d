-- ===== src/Path/Examples.antt =====
-- Runs of src/components/Filesystem/VirtualPath.h, and the theorems about it at concrete paths.
use haisos.Common.{
  List, [], ◌∷◌, ◌++◌, ◌≡◌, ◌&&◌, ◌↔◌, refl, Bytes, codes, some, none, bytes_eq, true,
}
use haisos.Path.{
  append_segments, normalize, relative_to_base, path_of, parent_of, last_segment, slash,
}
use haisos.Path.Segments.{IsSegment, append_segments-path_of, normalize_idem}
use haisos.Path.Segments.Following.{Follows, append_segments-Follows}
use haisos.Path.Compose.{append_segments-slash}
use haisos.Path.Parents.{parent_of-path_of, last_segment-path_of}
use haisos.Path.Relative.{relative_to_base_iff}

normalize_climbs : normalize (codes "a/../../b/./c//d/..") (codes "/x") ≡ codes "/b/c"
unfolding normalize bytes_eq
normalize_climbs = refl

normalize_relative : normalize (codes "log") (codes "/var/tmp") ≡ codes "/var/tmp/log"
unfolding normalize bytes_eq
normalize_relative = refl

relative_below : relative_to_base (codes "/a") (codes "/a/b/c") ≡ some (codes "/b/c")
unfolding relative_to_base
relative_below = refl

relative_sibling : relative_to_base (codes "/a") (codes "/ab") ≡ none
unfolding relative_to_base
relative_sibling = refl

abbrev usr : Bytes
usr = codes "usr"

abbrev bin : Bytes
bin = codes "bin"

usr-IsSegment : IsSegment usr
unfolding bytes_eq
usr-IsSegment = record { non_empty = refl; no_separator = refl; not_dot = refl; not_dot_dot = refl }

bin-IsSegment : IsSegment bin
unfolding bytes_eq
bin-IsSegment = record { non_empty = refl; no_separator = refl; not_dot = refl; not_dot_dot = refl }

append_segments-path_of_example :
    append_segments (path_of (usr ∷ bin ∷ [])) [] ≡ (usr ∷ bin ∷ [], true)
append_segments-path_of_example =
    append_segments-path_of (usr ∷ bin ∷ []) (usr-IsSegment, (bin-IsSegment, tt))

normalize_idem_example :
    normalize (normalize (codes "../a/./b") (codes "/c")) (codes "/d")
    ≡ normalize (codes "../a/./b") (codes "/c")
normalize_idem_example = normalize_idem (codes "../a/./b") (codes "/c") (codes "/d")

abbrev climbing : List Bytes
climbing = codes "." ∷ codes ".." ∷ codes ".." ∷ codes "" ∷ bin ∷ []

append_segments-Follows_example :
    Follows
      (codes "a" ∷ climbing)
      (usr ∷ [])
      (append_segments (codes "a/./../..//bin") (usr ∷ [])).0
      (append_segments (codes "a/./../..//bin") (usr ∷ [])).1
append_segments-Follows_example =
    append_segments-Follows (codes "a") climbing (usr ∷ [])
      (refl, (refl, (refl, (refl, (refl, (refl, tt))))))

append_segments-slash_example :
    append_segments (codes "../a" ++ slash ∷ codes "../b") (usr ∷ []) ≡ (
      let first = append_segments (codes "../a") (usr ∷ []) in
      let second = append_segments (codes "../b") first.0 in (second.0, first.1 && second.1))
append_segments-slash_example = append_segments-slash (codes "../a") (codes "../b") (usr ∷ [])

parent_of-path_of_example :
    (parent_of (path_of (usr ∷ bin ∷ [])) ≡ path_of (usr ∷ []))
    × (parent_of (path_of []) ≡ path_of [])
parent_of-path_of_example = parent_of-path_of (usr ∷ []) bin bin-IsSegment

last_segment-path_of_example : last_segment (path_of (usr ∷ bin ∷ [])) ≡ bin
last_segment-path_of_example = last_segment-path_of (usr ∷ []) bin bin-IsSegment

relative_to_base_iff_example :
    (relative_to_base (path_of (usr ∷ [])) (path_of (usr ∷ bin ∷ [])) ≡ some (codes "/bin"))
    ↔ ((r : List Bytes) × (usr ∷ bin ∷ [] ≡ usr ∷ [] ++ r) × (codes "/bin" ≡ path_of r))
relative_to_base_iff_example =
    relative_to_base_iff (usr ∷ []) (usr ∷ bin ∷ []) (codes "/bin") (usr-IsSegment, tt)
      (usr-IsSegment, (bin-IsSegment, tt))
