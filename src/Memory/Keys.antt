-- ===== src/Memory/Keys.antt =====
-- What the paths of src/components/Filesystem/InMemoryFileSystem.cpp are: the normalized ones of
-- src/components/Filesystem/VirtualPath.h, and where a path stands below its parent's.
use haisos.Common.{
  true, List, [], ◌∷◌, ◌++◌, ◌≡◌, ◌≢◌, ◌⊎◌, inl, inr, refl, sym, ap, ap₂, ◌∙◌, append_assoc, All,
  All-right, Bytes, starts_with, starts_with-append,
}
use haisos.Path.{slash, root, normalize, path_of, parent_of, join_segments}
use haisos.Path.Segments.{IsSegment, normalize-names}
use haisos.Path.Parents.{parent_of-path_of, path_of-snoc}

-- A normalized path.
abbrev pub IsNormal : Bytes → Type 0
IsNormal path = (r : List Bytes) × All IsSegment r × (path ≡ path_of r)

pub normalize-IsNormal : (path : Bytes) → IsNormal (normalize path root)
normalize-IsNormal path = normalize-names path root

snoc_cases : (r : List Bytes) → (r ≡ []) ⊎ ((q : List Bytes) × (s : Bytes) × (r ≡ q ++ s ∷ []))
snoc_cases [] = inl refl
snoc_cases (x ∷ r) = elim (snoc_cases r) [
  | inl e ↦ inr ([], x, ap (◌∷◌ x) e)
  | inr (q, s, e) ↦ inr (x ∷ q, s, ap (◌∷◌ x) e)
]

-- The path of some names, the last apart.
snoc-starts :
    (q : List Bytes) (s : Bytes)
    → path_of q ≢ root
    → starts_with (path_of (q ++ s ∷ [])) (path_of q ++ slash ∷ []) ≡ true
snoc-starts [] s h = absurd (h (unfold path_of in refl))
snoc-starts (x ∷ q) s h =
    let front = join_segments (x ∷ q) in
    let same : path_of (x ∷ q) ≡ front = unfold path_of in refl in
    ap₂ starts_with (path_of-snoc (x ∷ q) s ∙ sym (append_assoc front (slash ∷ []) s))
      (ap (λ y. y ++ slash ∷ []) same)
    ∙ starts_with-append (front ++ slash ∷ []) s

-- A path other than the root is below its parent, where that is not the root.
pub parent_of-starts_with :
    (path : Bytes)
    → IsNormal path
    → path ≢ root
    → parent_of path ≢ root
    → starts_with path (parent_of path ++ slash ∷ []) ≡ true
parent_of-starts_with path (r, names, e) off below = elim (snoc_cases r) [
  | inl none ↦ absurd (off (e ∙ ap path_of none ∙ unfold path_of in refl))
  | inr (q, s, split) ↦
      let whole : path ≡ path_of (q ++ s ∷ []) = e ∙ ap path_of split in
      let last : IsSegment s = (All-right IsSegment q (s ∷ []) (rw split at names)).0 in
      let parent : parent_of path ≡ path_of q =
        ap parent_of whole ∙ (parent_of-path_of q s last).0 in
      ap₂ starts_with whole (ap (λ y. y ++ slash ∷ []) parent)
      ∙ snoc-starts q s (λ root_q. below (parent ∙ root_q))
]
