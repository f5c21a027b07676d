-- ===== src/Mounts/Table.antt =====
-- The order that Mount and Unmount of src/components/Filesystem/MountPoints.cpp keep the table in.
use haisos.Common.{
  ℕ, ◌≤◌, Option, none, some, List, [], ◌∷◌, ◌++◌, ◌≡◌, refl, ap, inl, inr, ltb, Bytes, bytes_eq,
  length, All, All-append, arith, Bool-cases, Option-cases,
}
use haisos.Interfaces.{FileDateTime}
use haisos.Path.{root, normalize}
use haisos.Memory.Keys.{IsNormal, normalize-IsNormal}
use haisos.Mounts.{Entry, replace_at, insert_sorted, sort_mounts, mount, remove_at, unmount}

-- The longest first.
abbrev pub LongestFirst : List Bytes → Type 0
LongestFirst [] = Unit
LongestFirst (p ∷ ps) = All (λ q. length q ≤ length p) ps × LongestFirst ps

All-below :
    (n m : ℕ) (ps : List Bytes) → n ≤ m → All (λ q. length q ≤ n) ps → All (λ q. length q ≤ m) ps
All-below n m [] h a = tt
All-below n m (p ∷ ps) h (b, a) = (omega arith, All-below n m ps h a)

module _ {F : Type 0} where
  abbrev pub paths : List (Entry F) → List Bytes
  paths [] = []
  paths (entry ∷ mounts) = entry.path ∷ paths mounts

  paths-append : (ms ns : List (Entry F)) → paths (ms ++ ns) ≡ paths ms ++ paths ns
  paths-append [] ns = refl
  paths-append (m ∷ ms) ns = ap (◌∷◌ m.path) (paths-append ms ns)

  insert_sorted-All :
      (P : Bytes → Type 0) (entry : Entry F) (mounts : List (Entry F))
      → P entry.path
      → All P (paths mounts)
      → All P (paths (insert_sorted entry mounts))
  unfolding insert_sorted
  insert_sorted-All P entry [] p h = (p, tt)
  insert_sorted-All P entry (first ∷ mounts) p (q, h) =
      elim (Bool-cases (ltb (length first.path) (length entry.path))) [
        | inl e ↦ rw (e, insert_sorted) (p, (q, h))
        | inr e ↦ rw (e, insert_sorted) (q, insert_sorted-All P entry mounts p h)
      ]

  insert_sorted-LongestFirst :
      (entry : Entry F) (mounts : List (Entry F))
      → LongestFirst (paths mounts)
      → LongestFirst (paths (insert_sorted entry mounts))
  unfolding insert_sorted
  insert_sorted-LongestFirst entry [] h = (tt, tt)
  insert_sorted-LongestFirst entry (first ∷ mounts) (a, h) =
      elim (Bool-cases (ltb (length first.path) (length entry.path))) [
        | inl e ↦
            let short : length first.path ≤ length entry.path = ground arith in
            rw (e, insert_sorted)
              (
                (short, All-below (length first.path) (length entry.path) (paths mounts) short a),
                (a, h),
              )
        | inr e ↦
            rw (e, insert_sorted)
              (
                insert_sorted-All (λ q. length q ≤ length first.path) entry mounts (ground arith) a,
                insert_sorted-LongestFirst entry mounts h,
              )
      ]

  sort_mounts-LongestFirst : (mounts : List (Entry F)) → LongestFirst (paths (sort_mounts mounts))
  unfolding sort_mounts
  sort_mounts-LongestFirst [] = tt
  sort_mounts-LongestFirst (m ∷ ms) =
      insert_sorted-LongestFirst m (sort_mounts ms) (sort_mounts-LongestFirst ms)

  sort_mounts-All :
      (P : Bytes → Type 0) (mounts : List (Entry F))
      → All P (paths mounts)
      → All P (paths (sort_mounts mounts))
  unfolding sort_mounts
  sort_mounts-All P [] h = tt
  sort_mounts-All P (m ∷ ms) (p, h) =
      insert_sorted-All P m (sort_mounts ms) p (sort_mounts-All P ms h)

  abbrev KeepsPaths : List (Entry F) → Option (List (Entry F)) → Type 0
  KeepsPaths mounts none = Unit
  KeepsPaths mounts (some replaced) = paths replaced ≡ paths mounts

  replace_at-KeepsPaths :
      (path : Bytes) (filesystem : F) (now : FileDateTime) (mounts : List (Entry F))
      → KeepsPaths mounts (replace_at path filesystem now mounts)
  unfolding replace_at
  replace_at-KeepsPaths path filesystem now [] = tt
  replace_at-KeepsPaths path filesystem now (m ∷ ms) = elim (Bool-cases (bytes_eq m.path path)) [
    | inl e ↦ rw (e, replace_at) refl
    | inr e ↦
        let later = replace_at-KeepsPaths path filesystem now ms in
        elim (Option-cases (replace_at path filesystem now ms)) [
          | inl none_there ↦ rw (e, replace_at) (rw none_there tt)
          | inr (replaced, there) ↦
              rw (e, replace_at) (rw there (ap (◌∷◌ m.path) (rw there at later)))
        ]
  ]

  remove_at-All :
      (P : Bytes → Type 0) (path : Bytes) (mounts : List (Entry F))
      → All P (paths mounts)
      → All P (paths (remove_at path mounts))
  unfolding remove_at
  remove_at-All P path [] h = tt
  remove_at-All P path (m ∷ ms) (p, h) = elim (Bool-cases (bytes_eq m.path path)) [
    | inl e ↦ rw (e, remove_at) (remove_at-All P path ms h)
    | inr e ↦ rw (e, remove_at) (p, remove_at-All P path ms h)
  ]

  remove_at-LongestFirst :
      (path : Bytes) (mounts : List (Entry F))
      → LongestFirst (paths mounts)
      → LongestFirst (paths (remove_at path mounts))
  unfolding remove_at
  remove_at-LongestFirst path [] h = tt
  remove_at-LongestFirst path (m ∷ ms) (a, h) = elim (Bool-cases (bytes_eq m.path path)) [
    | inl e ↦ rw (e, remove_at) (remove_at-LongestFirst path ms h)
    | inr e ↦
        rw (e, remove_at)
          (
            remove_at-All (λ q. length q ≤ length m.path) path ms a,
            remove_at-LongestFirst path ms h,
          )
  ]

  -- What the table is between calls: normalized paths, the longest first.
  pub record IsTable (mounts : List (Entry F)) : Type 0 where
    pub normal : All IsNormal (paths mounts)
    pub sorted : LongestFirst (paths mounts)

  same-IsTable : (ms ns : List (Entry F)) → paths ns ≡ paths ms → IsTable ms → IsTable ns
  same-IsTable ms ns e t = record { normal = rw e t.normal; sorted = rw e t.sorted }

  mount-IsTable :
      (path : Bytes) (filesystem : Option F) (now : FileDateTime) (mounts : List (Entry F))
      → IsTable mounts
      → IsTable (mount path filesystem now mounts)
  unfolding mount
  mount-IsTable path none now mounts t = t
  mount-IsTable path (some filesystem) now mounts t =
      let place = normalize path root in
      let entry : Entry F = record { path = place; filesystem = filesystem; mounted_at = now } in
      let keeps = replace_at-KeepsPaths place filesystem now mounts in
      let all : All IsNormal (paths (mounts ++ entry ∷ [])) =
        rw (paths-append mounts (entry ∷ [])) (
          All-append IsNormal (paths mounts) (place ∷ []) t.normal (normalize-IsNormal path, tt)) in
      elim (Option-cases (replace_at place filesystem now mounts)) [
        | inl new ↦
            rw (new, mount)
              (record {
                normal = sort_mounts-All IsNormal (mounts ++ entry ∷ []) all;
                sorted = sort_mounts-LongestFirst (mounts ++ entry ∷ []);
              })
        | inr (replaced, there) ↦
            rw (there, mount) (same-IsTable mounts replaced (rw there at keeps) t)
      ]

  unmount-IsTable :
      (path : Bytes) (mounts : List (Entry F)) → IsTable mounts → IsTable (unmount path mounts)
  unfolding unmount
  unmount-IsTable path mounts t = record {
    normal = remove_at-All IsNormal (normalize path root) mounts t.normal;
    sorted = remove_at-LongestFirst (normalize path root) mounts t.sorted;
  }

-- The tables that mounts and unmounts make of an empty one.
pub data Reach (F : Type 0) : List (Entry F) → Type 0 where
  empty : Reach F []
  mounted :
      {mounts : List (Entry F)}
      → Reach F mounts
      → (path : Bytes) (filesystem : Option F) (now : FileDateTime)
      → Reach F (mount path filesystem now mounts)
  unmounted :
      {mounts : List (Entry F)} → Reach F mounts → (path : Bytes) → Reach F (unmount path mounts)

-- Whatever is mounted and unmounted, and in whatever order, the paths of the table are normalized
-- and stand with the longest first.
pub Reach-IsTable : {F : Type 0} {mounts : List (Entry F)} → Reach F mounts → IsTable mounts
Reach-IsTable empty = record { normal = tt; sorted = tt }
Reach-IsTable (mounted {mounts} r path filesystem now) =
    mount-IsTable path filesystem now mounts (Reach-IsTable r)
Reach-IsTable (unmounted {mounts} r path) = unmount-IsTable path mounts (Reach-IsTable r)
