-- ===== src/Path/Relative.antt =====
-- Paths below a base (RelativeToBase of src/components/Filesystem/VirtualPath.h).
use mathlib.Core.Path.{subst}
use haisos.Common.{
  ℕ, ◌-◌, Bool, true, false, List, [], ◌∷◌, ◌++◌, ◌≡◌, refl, sym, ap, ap₂, ◌∙◌, append-nil,
  append_assoc, some, Bytes, bytes_eq, bytes_eq_iff, bytes_eq_self, any, is_empty, All, All-right,
  arith, length, drop, drop-append, length-append, starts_with, starts_with→append,
  starts_with-append, ◌↔◌, ◌⊎◌, Bool-cases, inl, inr,
}
use mathlib.Core.List.{tail}
use haisos.Path.{
  slash, root, is_separator, join_segments, path_of, relative_to_base, append_segments,
}
use haisos.Path.Segments.{IsSegment, append_segments-path_of}
use haisos.Path.Parents.{join_segments-append}

pub path_of-injective :
    (r t : List Bytes) → All IsSegment r → All IsSegment t → path_of r ≡ path_of t → r ≡ t
path_of-injective r t h k e =
    ap (λ (x : List Bytes × Bool). x.0)
      (sym (append_segments-path_of r h)
        ∙ ap (λ p. append_segments p []) e
        ∙ append_segments-path_of t k)

-- Nothing, or a separator, follows.
abbrev at_end : Bytes → Bool
at_end [] = true
at_end (c ∷ u) = is_separator c

name_unique :
    (t s u v : Bytes)
    → any is_separator t ≡ false
    → any is_separator s ≡ false
    → at_end u ≡ true
    → at_end v ≡ true
    → t ++ u ≡ s ++ v
    → (t ≡ s) × (u ≡ v)
name_unique [] [] u v ht hs hu hv e = (refl, e)
name_unique [] (c ∷ s) [] v ht hs hu hv e = cc
name_unique [] (c ∷ s) (d ∷ u) v ht hs hu hv e = ground arith
name_unique (c ∷ t) [] u [] ht hs hu hv e = cc
name_unique (c ∷ t) [] u (d ∷ v) ht hs hu hv e = ground arith
name_unique (c ∷ t) (d ∷ s) u v ht hs hu hv e = ground (arith, name_unique t s u v)

at_end-join :
    (r : List Bytes) (x : Bytes)
    → (at_end (join_segments r) ≡ true) × (at_end (join_segments r ++ slash ∷ x) ≡ true)
unfolding join_segments
at_end-join [] x = (refl, refl)
at_end-join (s ∷ r) x = (refl, refl)

-- Joined names that begin with other joined names and a separator begin with those names.
join_prefix :
    (b p : List Bytes) (x : Bytes)
    → All IsSegment b
    → All IsSegment p
    → join_segments p ≡ join_segments b ++ slash ∷ x
    → (r : List Bytes) × (p ≡ b ++ r) × (join_segments r ≡ slash ∷ x)
unfolding join_segments
join_prefix [] p x hb hp e = (p, refl, e)
join_prefix (s ∷ b) [] x hb hp e = cc
join_prefix (s ∷ b) (t ∷ p) x (vs, hb) (vt, hp) e =
    let (same, rest) =
      name_unique t s (join_segments p) (join_segments b ++ slash ∷ x) vt.no_separator
        vs.no_separator (at_end-join p x).0 (at_end-join b x).1
        (ap tail e ∙ append_assoc s (join_segments b) (slash ∷ x)) in
    let (r, e1, e2) = join_prefix b p x hb hp rest in (r, ap₂ ◌∷◌ same e1, e2)

path_of-join : (r : List Bytes) (x : Bytes) → join_segments r ≡ slash ∷ x → path_of r ≡ slash ∷ x
unfolding path_of join_segments
path_of-join [] x e = cc
path_of-join (s ∷ r) x e = e

-- A path is given relative to itself as the root.
relative_to_base_self : (b : Bytes) → relative_to_base b b ≡ some root
unfolding relative_to_base
relative_to_base_self b = rw (bytes_eq_self b) refl

relative_from_root :
    (x : Bytes) → is_empty x ≡ false → relative_to_base root (slash ∷ x) ≡ some (slash ∷ x)
unfolding relative_to_base
relative_from_root [] h = cc
relative_from_root (c ∷ x) h = refl

longer : (p x : Bytes) → bytes_eq (p ++ slash ∷ x) p ≡ true → ⊥
longer p x h = omega (
  arith,
  ap (length {A = ℕ}) ((bytes_eq_iff (p ++ slash ∷ x) p).0 h),
  length-append p (slash ∷ x),
)

prefix_found : (p x : Bytes) → starts_with (p ++ slash ∷ x) (p ++ root) ≡ true
prefix_found p x =
    ap (λ t. starts_with t (p ++ root)) (sym (append_assoc p root x))
    ∙ starts_with-append (p ++ root) x

length_prefix : (p : Bytes) → length (p ++ root) - 1 ≡ length p
length_prefix p = omega (arith, length-append p root)

-- A directory that is not the root, with a '/' and more behind it.
relative_from_dir :
    (p x : Bytes) → bytes_eq p root ≡ false → relative_to_base p (p ++ slash ∷ x) ≡ some (slash ∷ x)
unfolding relative_to_base
relative_from_dir p x h = elim (Bool-cases (bytes_eq (p ++ slash ∷ x) p)) [
  | inl e ↦ absurd (longer p x e)
  | inr e ↦
      rw (e, relative_to_base)
        (rw (h, prefix_found p x, length_prefix p) (ap some (drop-append p (slash ∷ x))))
]

not_root : (s : Bytes) (b : List Bytes) → IsSegment s → bytes_eq (path_of (s ∷ b)) root ≡ false
unfolding path_of join_segments bytes_eq
not_root [] b v = cc v.non_empty
not_root (c ∷ s) b v = refl

-- Below a base of names, the relative path is that of the further names.
relative-append :
    (b r : List Bytes)
    → All IsSegment b
    → All IsSegment r
    → relative_to_base (path_of b) (path_of (b ++ r)) ≡ some (path_of r)
unfolding path_of join_segments
relative-append b [] hb hr = rw append-nil (relative_to_base_self (path_of b))
relative-append [] ([] ∷ t) hb (v, hr) = cc v.non_empty
relative-append [] ((c ∷ s) ∷ t) hb (v, hr) = relative_from_root _ refl
relative-append (d ∷ b) (s ∷ t) (v, hb) hr =
    ap (relative_to_base (path_of (d ∷ b))) (join_segments-append (d ∷ b) (s ∷ t))
    ∙ relative_from_dir (path_of (d ∷ b)) (s ++ join_segments t) (not_root d b v)

drop_prefix : (p x : Bytes) → drop (length p) ((p ++ root) ++ x) ≡ slash ∷ x
drop_prefix p x = ap (drop (length p)) (append_assoc p root x) ∙ drop-append p (slash ∷ x)

-- What a path looks like for which RelativeToBase gives `q`.
abbrev Below : Bytes → Bytes → Bytes → Type 0
Below base path q =
    (x : Bytes) × (bytes_eq base root ≡ false) × (path ≡ base ++ slash ∷ x) × (q ≡ slash ∷ x)

Below-inv :
    (base path q : Bytes)
    → bytes_eq base root ≡ false
    → starts_with path (base ++ root) ≡ true
    → q ≡ drop (length (base ++ root) - 1) path
    → Below base path q
Below-inv base path q h found e =
    let x : Bytes = drop (length (base ++ root)) path in
    let parts : (base ++ root) ++ x ≡ path = starts_with→append path (base ++ root) found in
    (
      x,
      h,
      sym parts ∙ append_assoc base root x,
      e
          ∙ ap (λ n. drop n path) (length_prefix base)
          ∙ ap (drop (length base)) (sym parts)
          ∙ drop_prefix base x,
    )

relative_inv :
    (base path q : Bytes)
    → relative_to_base base path ≡ some q
    → ((path ≡ base) × (q ≡ root)) ⊎ (((base ≡ root) × (q ≡ path)) ⊎ Below base path q)
unfolding relative_to_base
relative_inv base path q h = elim (Bool-cases (bytes_eq path base)) [
  | inl e ↦ inl ((bytes_eq_iff path base).0 e, ground arith)
  | inr e ↦ elim (Bool-cases (bytes_eq base root)) [
    | inl f ↦ inr (inl ((bytes_eq_iff base root).0 f, ground arith))
    | inr f ↦ inr (inr (Below-inv base path q f (ground arith) (ground arith)))
  ]
]

Below-names :
    (b p : List Bytes) (q : Bytes)
    → All IsSegment b
    → All IsSegment p
    → Below (path_of b) (path_of p) q
    → (r : List Bytes) × (p ≡ b ++ r) × (q ≡ path_of r)
unfolding path_of join_segments bytes_eq
Below-names [] p q hb hp (x, h, e, eq) = cc h
Below-names (d ∷ b) [] q hb hp (x, h, e, eq) =
    absurd (omega (arith, ap (length {A = ℕ}) e, length-append (join_segments (d ∷ b)) (slash ∷ x)))
Below-names (d ∷ b) (s ∷ p) q hb hp (x, h, e, eq) =
    let (r, e1, e2) = join_prefix (d ∷ b) (s ∷ p) x hb hp e in
    (r, e1, eq ∙ sym (path_of-join r x e2))

-- RelativeToBase answers exactly for the paths below the base, and with the further names.
pub relative_to_base_iff :
    (b p : List Bytes) (q : Bytes)
    → All IsSegment b
    → All IsSegment p
    → (relative_to_base (path_of b) (path_of p) ≡ some q)
      ↔ ((r : List Bytes) × (p ≡ b ++ r) × (q ≡ path_of r))
relative_to_base_iff b p q hb hp = (forward, backward)
  where
    forward :
        relative_to_base (path_of b) (path_of p) ≡ some q
        → (r : List Bytes) × (p ≡ b ++ r) × (q ≡ path_of r)
    forward h = elim (relative_inv (path_of b) (path_of p) q h) [
      | inl (e, eq) ↦
          ([], path_of-injective p b hp hb e ∙ sym (append-nil b), eq ∙ unfold path_of in refl)
      | inr (inl (e, eq)) ↦ (
        p,
        ap (λ l. l ++ p) (sym (path_of-injective b [] hb tt (e ∙ unfold path_of in refl))),
        eq,
      )
      | inr (inr below) ↦ Below-names b p q hb hp below
    ]

    backward :
        ((r : List Bytes) × (p ≡ b ++ r) × (q ≡ path_of r))
        → relative_to_base (path_of b) (path_of p) ≡ some q
    backward (r, e, eq) =
        ap (λ l. relative_to_base (path_of b) (path_of l)) e
        ∙ relative-append b r hb (All-right IsSegment b r (subst (All IsSegment) e hp))
        ∙ ap some (sym eq)
