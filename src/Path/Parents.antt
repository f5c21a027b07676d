-- ===== src/Path/Parents.antt =====
-- The directory that holds a path and its last segment (src/components/Filesystem/VirtualPath.h).
use haisos.Common.{
  ℕ, suc, false, List, [], ◌∷◌, ◌++◌, ◌≡◌, refl, sym, ap, ◌∙◌, append-nil, append_assoc, some, none,
  Bytes, any, is_empty, arith, length, drop, take-append, if◌then◌else◌,
}
use haisos.Path.{
  slash, root, is_separator, find_last_of, join_segments, path_of, parent_of, last_segment,
}
use haisos.Path.Segments.{IsSegment}

find_last_of-none : (s : Bytes) → any is_separator s ≡ false → find_last_of slash s ≡ none
unfolding find_last_of
find_last_of-none [] h = refl
find_last_of-none (c ∷ s) h = ground (arith, find_last_of-none s)

find_last_of-append :
    (p s : Bytes)
    → any is_separator s ≡ false
    → find_last_of slash (p ++ slash ∷ s) ≡ some (length p)
unfolding find_last_of
find_last_of-append [] s h = ground (arith, find_last_of-none s h)
find_last_of-append (c ∷ p) s h = ground (arith, find_last_of-append p s h)

pub join_segments-append :
    (r t : List Bytes) → join_segments (r ++ t) ≡ join_segments r ++ join_segments t
unfolding join_segments
join_segments-append [] t = refl
join_segments-append (s ∷ r) t =
    ap (λ x. (slash ∷ s) ++ x) (join_segments-append r t)
    ∙ sym (append_assoc (slash ∷ s) (join_segments r) (join_segments t))

join_segments-snoc :
    (r : List Bytes) (s : Bytes) → join_segments (r ++ s ∷ []) ≡ join_segments r ++ slash ∷ s
unfolding join_segments
join_segments-snoc r s =
    join_segments-append r (s ∷ []) ∙ ap (λ x. join_segments r ++ slash ∷ x) (append-nil s)

pub path_of-snoc :
    (r : List Bytes) (s : Bytes) → path_of (r ++ s ∷ []) ≡ join_segments r ++ slash ∷ s
unfolding path_of
path_of-snoc [] s = join_segments-snoc [] s
path_of-snoc (t ∷ r) s = join_segments-snoc (t ∷ r) s

drop_past : (p : Bytes) (c : ℕ) (s : Bytes) → drop (suc (length p)) (p ++ c ∷ s) ≡ s
drop_past [] c s = refl
drop_past (x ∷ p) c s = drop_past p c s

parent_of-slash :
    (p s : Bytes)
    → any is_separator s ≡ false
    → parent_of (p ++ slash ∷ s) ≡ (if is_empty p then root else p)
unfolding parent_of
parent_of-slash [] s h = rw (find_last_of-append [] s h) refl
parent_of-slash (c ∷ p) s h =
    ground (arith, find_last_of-append (c ∷ p) s h, take-append (c ∷ p) (slash ∷ s))

path_of-join :
    (r : List Bytes) → (if is_empty (join_segments r) then root else join_segments r) ≡ path_of r
unfolding path_of join_segments
path_of-join [] = refl
path_of-join (s ∷ r) = refl

-- The parent of a path is the path without its last name, and the root is its own parent.
pub parent_of-path_of :
    (r : List Bytes) (s : Bytes)
    → IsSegment s
    → (parent_of (path_of (r ++ s ∷ [])) ≡ path_of r) × (parent_of (path_of []) ≡ path_of [])
unfolding parent_of
parent_of-path_of r s v = (
  ap parent_of (path_of-snoc r s)
      ∙ parent_of-slash (join_segments r) s v.no_separator
      ∙ path_of-join r,
  unfold path_of in refl,
)

last_segment-slash : (p s : Bytes) → any is_separator s ≡ false → last_segment (p ++ slash ∷ s) ≡ s
unfolding last_segment
last_segment-slash p s h = rw (find_last_of-append p s h, last_segment) (drop_past p slash s)

-- The last segment of a path is its last name.
pub last_segment-path_of :
    (r : List Bytes) (s : Bytes) → IsSegment s → last_segment (path_of (r ++ s ∷ [])) ≡ s
last_segment-path_of r s v =
    ap last_segment (path_of-snoc r s) ∙ last_segment-slash (join_segments r) s v.no_separator
