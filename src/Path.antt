-- ===== src/Path.antt =====
-- src/components/Filesystem/VirtualPath.h: lexical paths. A path is the list of its bytes, and a
-- `std::vector<std::string>` of segments is a list of such lists. The build is the POSIX one, where
-- '/' alone separates segments.
pub mod Segments
pub mod Compose
pub mod Parents
pub mod Relative
mod Examples
use haisos.Common.{
  ℕ, suc, ◌-◌, Bool, true, false, ◌&&◌, not, Option, none, some, List, [], ◌∷◌, ◌++◌, ◌==◌,
  if◌then◌else◌, Bytes, codes, bytes_eq, starts_with, take, drop, length, is_empty,
}

abbrev pub slash : ℕ
slash = b'/'

abbrev pub dot : Bytes
dot = codes "."

abbrev pub dot_dot : Bytes
dot_dot = codes ".."

abbrev pub root : Bytes
root = codes "/"

-- IsVirtualPathSeparator.
abbrev pub is_separator : ℕ → Bool
is_separator c = c == slash

-- What AppendVirtualPathSegments carries round its loop.
pub record Split : Type 0 where
  pub segment : Bytes
  pub segments : List Bytes
  pub within : Bool

-- segments.pop_back().
abbrev pub pop_back : List Bytes → List Bytes
pop_back [] = []
pop_back (s ∷ []) = []
pop_back (s ∷ t ∷ r) = s ∷ pop_back (t ∷ r)

-- The lambda endSegment.
end_segment : Split → Split
end_segment st =
    if bytes_eq st.segment dot_dot
    then (if is_empty st.segments
        then record st { segment = []; within = false }
        else record st { segment = []; segments = pop_back st.segments })
    else if not (is_empty st.segment) && not (bytes_eq st.segment dot)
    then record st { segment = []; segments = st.segments ++ st.segment ∷ [] }
    else record st { segment = [] }

-- One round of the loop over the characters.
next_char : Split → ℕ → Split
next_char st c =
    if is_separator c then end_segment st else record st { segment = st.segment ++ c ∷ [] }

split_loop : Bytes → Split → Split
split_loop [] st = end_segment st
split_loop (c ∷ path) st = split_loop path (next_char st c)

-- AppendVirtualPathSegments: the segments after it, and whether the path stayed within.
unfoldable pub append_segments : Bytes → List Bytes → List Bytes × Bool
unfolding split_loop next_char end_segment
append_segments path segments =
    let st = split_loop path (record { segment = []; segments = segments; within = true }) in
    (st.segments, st.within)

-- SplitVirtualPath.
unfoldable pub split_path : Bytes → List Bytes × Bool
unfolding append_segments
split_path path = append_segments path []

-- The loop `result += "/" + s`.
unfoldable pub join_segments : List Bytes → Bytes
join_segments [] = []
join_segments (s ∷ r) = (slash ∷ s) ++ join_segments r

starts_at_root : Bytes → Bool
starts_at_root [] = false
starts_at_root (c ∷ path) = is_separator c

-- The end of NormalizeVirtualPath.
unfoldable pub path_of : List Bytes → Bytes
unfolding join_segments
path_of segments = if is_empty segments then root else join_segments segments

-- NormalizeVirtualPath.
unfoldable pub normalize : Bytes → Bytes → Bytes
unfolding append_segments starts_at_root path_of
normalize path base =
    let start = if starts_at_root path then [] else (append_segments base []).0 in
    path_of (append_segments path start).0

-- RelativeToBase.
unfoldable pub relative_to_base : Bytes → Bytes → Option Bytes
unfolding starts_with bytes_eq
relative_to_base base path =
    if bytes_eq path base
    then some root
    else (let prefix = if bytes_eq base root then root else base ++ root in
        if starts_with path prefix then some (drop (length prefix - 1) path) else none)

-- find_last_of(c), with `none` for npos.
unfoldable pub find_last_of : ℕ → Bytes → Option ℕ
find_last_of c [] = none
find_last_of c (x ∷ s) = elim (find_last_of c s) [
  | some i ↦ some (suc i)
  | none ↦ if x == c then some 0 else none
]

-- VirtualParentOf.
unfoldable pub parent_of : Bytes → Bytes
unfolding find_last_of
parent_of path = elim (find_last_of slash path) [
  | none ↦ root
  | some pos ↦ if pos == 0 then root else take pos path
]

-- VirtualLastSegment.
unfoldable pub last_segment : Bytes → Bytes
unfolding find_last_of
last_segment path = elim (find_last_of slash path) [ none ↦ path | some pos ↦ drop (suc pos) path ]
