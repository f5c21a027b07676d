-- ===== src/Routing/Places.antt =====
-- Where a builtin command of src/components/Filesystem/MountableFileSystem.cpp stands: its path, and those above it.
use haisos.Common.{
  ℕ, true, false, List, [], ◌∷◌, ◌++◌, ◌≡◌, ◌⊎◌, refl, sym, ap, ◌∙◌, inl, inr, Bytes, bytes_eq,
  bytes_eq_self, get_or, append-nil, length, length-append, starts_with-append, All, arith,
  false≢true,
}
use haisos.Path.{root, slash, join_segments, path_of}
use haisos.Path.Segments.{IsSegment, normalize-names}
use haisos.Path.Parents.{join_segments-append}
use haisos.Routing.{absolute_path_for}
use haisos.Routing.Own.{is_at_or_under_directory}

nil_is_root : bytes_eq (path_of []) root ≡ true
unfolding path_of bytes_eq
nil_is_root = refl

-- The last of some names.
unsnoc :
    (r : List Bytes)
    → All IsSegment r
    → (r ≡ [])
      ⊎ ((front : List Bytes) × (s : Bytes) × (r ≡ front ++ s ∷ [])
          × All IsSegment front
          × IsSegment s)
unsnoc [] h = inl refl
unsnoc (x ∷ r) (h, hs) = elim (unsnoc r hs) [
  | inl e ↦ inr ([], x, ap (◌∷◌ x) e, tt, h)
  | inr (front, s, e, hf, v) ↦ inr (x ∷ front, s, ap (◌∷◌ x) e, (h, hf), v)
]

-- A path that is not the root: its parent, and its last name.
pub record Split (absolute : Bytes) : Type 0 where
  pub front : List Bytes
  pub name : Bytes
  pub names : All IsSegment front
  pub segment : IsSegment name
  pub whole : absolute ≡ path_of (front ++ name ∷ [])

pub path-Split :
    (path : Bytes) → bytes_eq (absolute_path_for path) root ≡ false → Split (absolute_path_for path)
unfolding absolute_path_for
path-Split path h =
    let (r, hr, e) = normalize-names path root in
    elim (unsnoc r hr) [
      | inl n ↦
          absurd (false≢true (sym h ∙ ap (λ p. bytes_eq p root) (e ∙ ap path_of n) ∙ nil_is_root))
      | inr (front, s, w, hf, v) ↦ record {
        front = front;
        name = s;
        names = hf;
        segment = v;
        whole = e ∙ ap path_of w;
      }
    ]

under-root : (path : Bytes) → is_at_or_under_directory path (path_of []) ≡ true
unfolding is_at_or_under_directory path_of bytes_eq
under-root path = refl

get_or-append : (p : Bytes) (c : ℕ) (s : Bytes) → get_or (p ++ c ∷ s) (length p) 0 ≡ c
get_or-append [] c s = refl
get_or-append (x ∷ p) c s = get_or-append p c s

under-slash : (p s : Bytes) → is_at_or_under_directory (p ++ slash ∷ s) p ≡ true
unfolding is_at_or_under_directory
under-slash p s =
    ground (
      arith,
      length-append p (slash ∷ s),
      starts_with-append p (slash ∷ s),
      get_or-append p slash s,
    )

under_self : (path : Bytes) → is_at_or_under_directory path path ≡ true
unfolding is_at_or_under_directory
under_self path = ground (arith, bytes_eq_self path)

join_cons : (s : Bytes) (r : List Bytes) → join_segments (s ∷ r) ≡ slash ∷ (s ++ join_segments r)
unfolding join_segments
join_cons s r = refl

-- A path is at or under those of its first names.
pub under-names :
    (b r : List Bytes) → is_at_or_under_directory (path_of (b ++ r)) (path_of b) ≡ true
unfolding path_of
under-names [] r = under-root (path_of r)
under-names (x ∷ b) [] =
    ap (λ l. is_at_or_under_directory (path_of l) (path_of (x ∷ b))) (append-nil (x ∷ b))
    ∙ under_self (path_of (x ∷ b))
under-names (x ∷ b) (s ∷ r) =
    ap (λ p. is_at_or_under_directory p (join_segments (x ∷ b)))
      (join_segments-append (x ∷ b) (s ∷ r) ∙ ap (λ t. join_segments (x ∷ b) ++ t) (join_cons s r))
    ∙ under-slash (join_segments (x ∷ b)) (s ++ join_segments r)
