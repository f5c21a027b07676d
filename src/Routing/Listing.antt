-- ===== src/Routing/Listing.antt =====
-- What ReadDirectory of src/components/Filesystem/MountableFileSystem.cpp lists.
use haisos.Common.{
  true, false, not, ◌&&◌, List, [], ◌∷◌, ◌++◌, ◌≡◌, ◌⊎◌, refl, ◌∙◌, inl, inr, Bytes, bytes_eq,
  bytes_eq_iff, is_empty, any, All, arith, Bool-cases, Option-cases,
}
use haisos.Common.Dict.{Dict}
use haisos.Interfaces.{DirectoryEntry, DirectoryEntryType, file, dir}
use haisos.Path.{parent_of, last_segment}
use haisos.Mounts.{Entry, resolve, child_segments}
use haisos.Routing.{FileSystem, absolute_path_for}
use haisos.Routing.Mountable
use haisos.Routing.Mountable.{Mountable, put_dot_entries_first, routed_entries}
use haisos.Routing.Own.{
  Builtin, listed, add_entry, add_segments, add_own_builtin_entries, is_dots, without_dots,
  with_dots, is_directory_status,
}
use haisos.Routing.Entries.{listed-snoc}
use haisos.Routing.Untouched.{resolve-All}

-- No two entries have a name in common.
abbrev pub Distinct : List DirectoryEntry → Type 0
Distinct [] = Unit
Distinct (entry ∷ entries) = (listed entry.name entries ≡ false) × Distinct entries

snoc-Distinct :
    (entries : List DirectoryEntry) (e : DirectoryEntry)
    → Distinct entries
    → listed e.name entries ≡ false
    → Distinct (entries ++ e ∷ [])
snoc-Distinct [] e d h = (refl, tt)
snoc-Distinct (x ∷ entries) e (n, d) h = (
  listed-snoc x.name entries e
      ∙ ground (arith, n, h, bytes_eq_iff x.name e.name, bytes_eq_iff e.name x.name),
  snoc-Distinct entries e d (ground (arith, h)),
)

add_entry-Distinct :
    (name : Bytes) (kind : DirectoryEntryType) (entries : List DirectoryEntry)
    → Distinct entries
    → Distinct (add_entry name kind entries)
add_entry-Distinct name kind entries d = elim (Bool-cases (listed name entries)) [
  | inl e ↦ rw e d
  | inr e ↦ rw e (snoc-Distinct entries _ d e)
]

add_segments-Distinct :
    (segments : List Bytes) (entries : List DirectoryEntry)
    → Distinct entries
    → Distinct (add_segments segments entries)
unfolding add_segments
add_segments-Distinct [] entries d = d
add_segments-Distinct (s ∷ segments) entries d =
    add_segments-Distinct segments (add_entry s dir entries) (add_entry-Distinct s dir entries d)

add_own-Distinct :
    (absolute : Bytes) (builtins : Dict Builtin) (entries : List DirectoryEntry)
    → Distinct entries
    → Distinct (add_own_builtin_entries absolute builtins entries)
unfolding add_own_builtin_entries
add_own-Distinct absolute [] entries d = d
add_own-Distinct absolute ((path, b) ∷ builtins) entries d =
    elim (Bool-cases (bytes_eq (parent_of path) absolute)) [
      | inl e ↦
          rw (add_own_builtin_entries, e)
            (add_own-Distinct absolute builtins (add_entry (last_segment path) file entries)
              (add_entry-Distinct (last_segment path) file entries d))
      | inr e ↦ rw (add_own_builtin_entries, e) (add_own-Distinct absolute builtins entries d)
    ]

without_dots-listed :
    (name : Bytes) (entries : List DirectoryEntry)
    → listed name entries ≡ false
    → listed name (without_dots entries) ≡ false
unfolding without_dots
without_dots-listed name [] h = refl
without_dots-listed name (x ∷ entries) h = ground (arith, h, without_dots-listed name entries)

without_dots-Distinct :
    (entries : List DirectoryEntry) → Distinct entries → Distinct (without_dots entries)
unfolding without_dots
without_dots-Distinct [] d = tt
without_dots-Distinct (x ∷ entries) (n, d) = elim (Bool-cases (is_dots x)) [
  | inl e ↦ rw e (without_dots-Distinct entries d)
  | inr e ↦ rw e (without_dots-listed x.name entries n, without_dots-Distinct entries d)
]

without_dots-any : (entries : List DirectoryEntry) → any is_dots (without_dots entries) ≡ false
unfolding without_dots
without_dots-any [] = refl
without_dots-any (x ∷ entries) = elim (Bool-cases (is_dots x)) [
  | inl e ↦ rw e (without_dots-any entries)
  | inr e ↦ rw e (ground (arith, e, without_dots-any entries))
]

empty-nil : (entries : List DirectoryEntry) → is_empty entries ≡ true → entries ≡ []
empty-nil [] h = refl
empty-nil (x ∷ entries) h = cc

-- A listing: nothing, or "." and ".." first, and behind them other names, each once.
abbrev pub Listing : List DirectoryEntry → Type 0
Listing r =
    (r ≡ [])
    ⊎ ((rest : List DirectoryEntry) × (r ≡ with_dots rest)
        × (any is_dots rest ≡ false)
        × Distinct rest)

module _ {W D : Type 0} where
  -- A filesystem whose listings do not repeat a name.
  abbrev pub ListsOnce : FileSystem W D → Type 0
  ListsOnce filesystem = (path : Bytes) (w : W) → Distinct ((filesystem.read_directory path w).0)

  module _ (local : FileSystem W D) (st : Mountable W D) where
    dots-Listing :
        (path : Bytes) (entries : List DirectoryEntry) (w : W)
        → Distinct entries
        → Listing ((put_dot_entries_first local st path entries w).0)
    unfolding put_dot_entries_first
    dots-Listing path entries w d =
        let rest : Listing (with_dots (without_dots entries)) =
          inr (
            without_dots entries,
            refl,
            without_dots-any entries,
            without_dots-Distinct entries d,
          ) in
        elim (Bool-cases (not (any is_dots entries) && is_empty (without_dots entries))) [
          | inr e ↦ rw e rest
          | inl e ↦
              rw e (elim (Bool-cases (is_directory_status ((Mountable.stat local st path w).0))) [
                | inl b ↦ rw b rest
                | inr b ↦ rw b (inl (empty-nil (without_dots entries) (ground (arith, e))))
              ])
        ]

    routed-Distinct :
        (path : Bytes) (w : W)
        → ListsOnce local
        → All (λ (entry : Entry (FileSystem W D)). ListsOnce entry.filesystem) st.mounts
        → Distinct ((routed_entries local st path w).0)
    routed-Distinct path w l all =
        elim (Option-cases (resolve (absolute_path_for path) st.mounts)) [
          | inr (found, f) ↦
              rw (routed_entries, f)
                (resolve-All ListsOnce (absolute_path_for path) st.mounts all found f found.1 w)
          | inl f ↦
              rw (routed_entries, f)
                (add_segments-Distinct (child_segments (absolute_path_for path) st.mounts)
                  ((local.read_directory path w).0) (l path w))
        ]

    -- Whatever is mounted and whatever builtin commands there are, a listing is empty, or has "." and ".." first
    -- and then names that are neither, each once, where the filesystems it is made of list no name twice.
    pub read_directory-Listing :
        (path : Bytes) (w : W)
        → ListsOnce local
        → All (λ (entry : Entry (FileSystem W D)). ListsOnce entry.filesystem) st.mounts
        → Listing ((Mountable.read_directory local st path w).0)
    unfolding Mountable.read_directory
    read_directory-Listing path w l all =
        dots-Listing path _ _
          (add_own-Distinct (absolute_path_for path) st.builtins _ (routed-Distinct path w l all))
