-- ===== src/Mounts/Innermost.antt =====
-- Which filesystem Resolve of src/components/Filesystem/MountPoints.cpp takes a path to.
use haisos.Common.{
  ℕ, ◌≤◌, Bool, true, false, ◌&&◌, Option, none, some, List, [], ◌∷◌, ◌++◌, ◌≡◌, refl, sym, ap, ◌∙◌,
  ◌⊎◌, inl, inr, ◌==◌, Bytes, bytes_eq_iff, starts_with, get_or, length, All, arith, Option-cases,
}
use haisos.Path.{slash, root, relative_to_base, path_of, join_segments}
use haisos.Path.Segments.{IsSegment}
use haisos.Path.Relative.{relative_to_base_iff}
use haisos.Memory.Keys.{IsNormal}
use haisos.Mounts.{Entry, is_at_or_under, resolve}
use haisos.Mounts.Table.{LongestFirst, paths, IsTable}

starts_with-slash :
    (path base : Bytes)
    → starts_with path (base ++ slash ∷ [])
      ≡ starts_with path base && (get_or path (length base) 0 == slash)
unfolding starts_with
starts_with-slash [] [] = refl
starts_with-slash [] (b ∷ base) = refl
starts_with-slash (c ∷ path) [] = ground arith
starts_with-slash (c ∷ path) (b ∷ base) = ground (arith, starts_with-slash path base)

starts_with_whole :
    (path base : Bytes) → starts_with path base ≡ true → length path ≡ length base → path ≡ base
unfolding starts_with
starts_with_whole [] [] h e = refl
starts_with_whole [] (b ∷ base) h e = cc
starts_with_whole (c ∷ path) [] h e = absurd (omega arith)
starts_with_whole (c ∷ path) (b ∷ base) h e = ground (arith, starts_with_whole path base)

starts_with_self : (path : Bytes) → starts_with path path ≡ true
unfolding starts_with
starts_with_self [] = refl
starts_with_self (c ∷ path) = ground (arith, starts_with_self path)

abbrev answers : Option Bytes → Bool
answers none = false
answers (some relative) = true

-- IsAtOrUnder and RelativeToBase agree on which paths are below another.
is_at_or_under-answers :
    (path base : Bytes)
    → starts_with path root ≡ true
    → is_at_or_under path base ≡ answers (relative_to_base base path)
unfolding is_at_or_under relative_to_base
is_at_or_under-answers path base h = ground (
  arith,
  bytes_eq_iff base root,
  bytes_eq_iff path base,
  bytes_eq_iff path root,
  starts_with-slash path base,
  starts_with_self path,
  starts_with_whole path base,
)

path_of-starts : (r : List Bytes) → starts_with (path_of r) root ≡ true
unfolding path_of join_segments starts_with
path_of-starts [] = refl
path_of-starts (s ∷ r) = refl

All-shorter :
    (p : List Bytes) (n : ℕ) (qs : List Bytes)
    → All (λ q. length q ≤ n) qs
    → All (λ q. (relative_to_base q (path_of p) ≡ none) ⊎ (length q ≤ n)) qs
All-shorter p n [] h = tt
All-shorter p n (q ∷ qs) (a, h) = (inr a, All-shorter p n qs h)

module _ {F : Type 0} where
  -- What Resolve may answer for the path of some names.
  pub data Resolved (p : List Bytes) (mounts : List (Entry F)) : Option (F × Bytes) → Type 0 where
    nowhere :
        All (λ q. relative_to_base q (path_of p) ≡ none) (paths mounts) → Resolved p mounts none
    within :
        (m r : List Bytes) (entry : Entry F) (before after : List (Entry F))
        → mounts ≡ before ++ entry ∷ after
        → entry.path ≡ path_of m
        → p ≡ m ++ r
        → All
            (λ q. (relative_to_base q (path_of p) ≡ none) ⊎ (length q ≤ length entry.path))
            (paths mounts)
        → Resolved p mounts (some (entry.filesystem, path_of r))

  skip-Resolved :
      (p : List Bytes) (entry : Entry F) (mounts : List (Entry F)) (result : Option (F × Bytes))
      → relative_to_base entry.path (path_of p) ≡ none
      → Resolved p mounts result
      → Resolved p (entry ∷ mounts) result
  skip-Resolved p entry mounts none h (nowhere all) = nowhere (h, all)
  skip-Resolved p entry mounts (some _) h (within m r taken before after e n split all) =
      within m r taken (entry ∷ before) after (ap (◌∷◌ entry) e) n split (inl h, all)

  loop-Resolved :
      (p : List Bytes) (mounts : List (Entry F))
      → All IsSegment p
      → All IsNormal (paths mounts)
      → LongestFirst (paths mounts)
      → Resolved p mounts (resolve (path_of p) mounts)
  unfolding resolve
  loop-Resolved p [] names n s = nowhere tt
  loop-Resolved p (entry ∷ mounts) names ((m, ms, e), n) (a, s) =
      let under = is_at_or_under-answers (path_of p) entry.path (path_of-starts p) in
      elim (Option-cases (relative_to_base entry.path (path_of p))) [
        | inl apart ↦
            rw (under ∙ ap answers apart, resolve)
              (skip-Resolved p entry mounts (resolve (path_of p) mounts) apart
                (loop-Resolved p mounts names n s))
        | inr (q, below) ↦
            let (r, split, inner) =
              (relative_to_base_iff m p q ms names).0
                (sym (ap (λ b. relative_to_base b (path_of p)) e) ∙ below) in
            rw (under ∙ ap answers below, resolve)
              (rw (below, inner)
                (within m r entry [] mounts refl e split
                  (inr (omega arith), All-shorter p (length entry.path) (paths mounts) a)))
      ]

  -- Resolve finds no filesystem only where no mount point is above the path. Otherwise it takes
  -- the path to a mount point above it, with the names below that one, and no mount point above the
  -- path is longer.
  pub resolve-Resolved :
      (p : List Bytes) (mounts : List (Entry F))
      → All IsSegment p
      → IsTable mounts
      → Resolved p mounts (resolve (path_of p) mounts)
  resolve-Resolved p mounts names t = loop-Resolved p mounts names t.normal t.sorted
