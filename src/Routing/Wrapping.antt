-- ===== src/Routing/Wrapping.antt =====
-- Where src/components/Filesystem/SubFileSystem.cpp takes a path.
use haisos.Common.{
  true, false, List, [], ◌∷◌, ◌++◌, some, ◌≡◌, refl, sym, ap, ◌∙◌, append-nil, append_assoc, Bytes,
  bytes_eq, All, All-append, false≢true,
}
use haisos.Path.{root, normalize, path_of, join_segments, relative_to_base}
use haisos.Path.Segments.{IsSegment, normalize-names, normalize-path_of}
use haisos.Path.Parents.{join_segments-append}
use haisos.Path.Relative.{relative_to_base_iff}
use haisos.Routing.{resolve_in_root}

not_root : (s : Bytes) (r : List Bytes) → IsSegment s → bytes_eq (path_of (s ∷ r)) root ≡ false
unfolding path_of join_segments bytes_eq
not_root [] r h = absurd (false≢true (sym h.non_empty))
not_root (c ∷ s) r h = refl

nil_is_root : bytes_eq (path_of []) root ≡ true
unfolding path_of bytes_eq
nil_is_root = refl

path_of-append :
    (d s : Bytes) (b p : List Bytes)
    → path_of (d ∷ b) ++ path_of (s ∷ p) ≡ path_of (d ∷ (b ++ s ∷ p))
unfolding path_of
path_of-append d s b p = sym (join_segments-append (d ∷ b) (s ∷ p))

-- The path of the names of the base, then those of the path.
resolve_names :
    (b p : List Bytes) (path : Bytes)
    → All IsSegment b
    → All IsSegment p
    → normalize path root ≡ path_of p
    → resolve_in_root (path_of b) path ≡ path_of (b ++ p)
unfolding resolve_in_root
resolve_names [] p path hb hp e = rw (e, nil_is_root) refl
resolve_names (d ∷ b) [] path (hd, hb) hp e =
    rw (e, not_root d b hd, nil_is_root) (ap path_of (sym (append-nil (d ∷ b))))
resolve_names (d ∷ b) (s ∷ p) path (hd, hb) (hs, hp) e =
    rw (e, not_root d b hd, not_root s p hs) (path_of-append d s b p)

-- The path in the whole filesystem is at or under the base, and is the path given below it, whatever ".." that
-- one has.
pub resolve_in_root-below :
    (base path : Bytes)
    → relative_to_base (normalize base root) (resolve_in_root (normalize base root) path)
      ≡ some (normalize path root)
resolve_in_root-below base path =
    let (b, hb, eb) = normalize-names base root in
    let (p, hp, ep) = normalize-names path root in
    rw (eb, resolve_names b p path hb hp ep, ep)
      ((relative_to_base_iff b (b ++ p) (path_of p) hb (All-append IsSegment b p hb hp)).1
        (p, refl, refl))

-- A sub-filesystem of a sub-filesystem is that of the one base below the other.
pub resolve_in_root-nested :
    (outer inner path : Bytes)
    → resolve_in_root (normalize outer root) (resolve_in_root (normalize inner root) path)
      ≡ resolve_in_root (resolve_in_root (normalize outer root) inner) path
resolve_in_root-nested outer inner path =
    let (a, ha, ea) = normalize-names outer root in
    let (b, hb, eb) = normalize-names inner root in
    let (p, hp, ep) = normalize-names path root in
    rw (ea, eb)
      (rw (resolve_names b p path hb hp ep, resolve_names a b inner ha hb eb)
        (resolve_names a (b ++ p) (path_of (b ++ p)) ha (All-append IsSegment b p hb hp)
            (normalize-path_of (b ++ p) root (All-append IsSegment b p hb hp))
          ∙ ap path_of (sym (append_assoc a b p))
          ∙ sym (resolve_names (a ++ b) p path (All-append IsSegment a b ha hb) hp ep)))
