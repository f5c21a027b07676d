-- ===== src/Routing/Entries.antt =====
-- The entries that src/components/Filesystem/MountableFileSystem.cpp adds to a listing.
use haisos.Common.{
  true, false, ◌||◌, some, List, [], ◌∷◌, ◌++◌, ◌≡◌, refl, sym, ap, ◌∙◌, inl, inr, Bytes, bytes_eq,
  bytes_eq_iff, bytes_eq_self, arith, Bool-cases,
}
use haisos.Common.Dict.{Dict, lookup}
use haisos.Interfaces.{DirectoryEntry, DirectoryEntryType, file}
use haisos.Path.{dot, dot_dot, parent_of, last_segment}
use haisos.Routing.Own.{Builtin, listed, add_entry, add_own_builtin_entries, without_dots}

pub listed-snoc :
    (name : Bytes) (entries : List DirectoryEntry) (e : DirectoryEntry)
    → listed name (entries ++ e ∷ []) ≡ (listed name entries || bytes_eq e.name name)
listed-snoc name [] e = ground arith
listed-snoc name (x ∷ entries) e = ground (arith, listed-snoc name entries e)

listed-add_entry :
    (name other : Bytes) (kind : DirectoryEntryType) (entries : List DirectoryEntry)
    → listed name (add_entry other kind entries) ≡ (listed name entries || bytes_eq other name)
listed-add_entry name other kind entries = elim (Bool-cases (listed other entries)) [
  | inr e ↦ rw e (listed-snoc name entries _)
  | inl e ↦ rw e (elim (Bool-cases (bytes_eq other name)) [
    | inr f ↦ rw f (ground arith)
    | inl f ↦ rw (f, ap (λ n. listed n entries) (sym ((bytes_eq_iff other name).0 f)) ∙ e) refl
  ])
]

-- Names stay listed, and those of the builtin commands of the directory come to be.
listed-add_own :
    (name absolute : Bytes) (builtins : Dict Builtin) (entries : List DirectoryEntry)
    → listed name entries ≡ true
    → listed name (add_own_builtin_entries absolute builtins entries) ≡ true
unfolding add_own_builtin_entries
listed-add_own name absolute [] entries h = h
listed-add_own name absolute ((path, b) ∷ builtins) entries h =
    elim (Bool-cases (bytes_eq (parent_of path) absolute)) [
      | inr e ↦ rw (add_own_builtin_entries, e) (listed-add_own name absolute builtins entries h)
      | inl e ↦
          rw (add_own_builtin_entries, e)
            (listed-add_own name absolute builtins (add_entry (last_segment path) file entries)
              (listed-add_entry name (last_segment path) file entries ∙ ground (arith, h)))
    ]

pub lookup-skip :
    (j k : Bytes) (c : Builtin) (m : Dict Builtin)
    → bytes_eq j k ≡ false
    → lookup k ((j, c) ∷ m) ≡ lookup k m
unfolding lookup
lookup-skip j k c m e = rw e refl

pub own-listed :
    (path : Bytes) (b : Builtin) (builtins : Dict Builtin) (entries : List DirectoryEntry)
    → lookup path builtins ≡ some b
    → listed (last_segment path) (add_own_builtin_entries (parent_of path) builtins entries) ≡ true
unfolding add_own_builtin_entries lookup
own-listed path b [] entries h = cc
own-listed path b ((other, c) ∷ builtins) entries h = elim (Bool-cases (bytes_eq other path)) [
  | inl e ↦
      rw ((bytes_eq_iff other path).0 e, bytes_eq_self (parent_of path), add_own_builtin_entries)
        (listed-add_own (last_segment path) (parent_of path) builtins
          (add_entry (last_segment path) file entries)
          (listed-add_entry (last_segment path) (last_segment path) file entries
            ∙ ground (arith, bytes_eq_self (last_segment path))))
  | inr e ↦ elim (Bool-cases (bytes_eq (parent_of other) (parent_of path))) [
    | inl f ↦
        rw (add_own_builtin_entries, f)
          (own-listed path b builtins _ (sym (lookup-skip other path c builtins e) ∙ h))
    | inr f ↦
        rw (add_own_builtin_entries, f)
          (own-listed path b builtins entries (sym (lookup-skip other path c builtins e) ∙ h))
  ]
]

pub listed-without_dots :
    (name : Bytes) (entries : List DirectoryEntry)
    → bytes_eq name dot ≡ false
    → bytes_eq name dot_dot ≡ false
    → listed name entries ≡ true
    → listed name (without_dots entries) ≡ true
unfolding without_dots
listed-without_dots name [] h k l = l
listed-without_dots name (x ∷ entries) h k l =
    ground (arith, h, k, l, bytes_eq_iff x.name name, listed-without_dots name entries)
