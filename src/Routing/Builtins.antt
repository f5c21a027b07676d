-- ===== src/Routing/Builtins.antt =====
-- A builtin command placed in src/components/Filesystem/MountableFileSystem.cpp, as every call finds it.
use mathlib.Core.Path.{subst}
use haisos.Common.{
  ℕ, Bool, true, false, not, ◌&&◌, ◌||◌, Option, none, some, List, [], ◌∷◌, ◌++◌, ◌≡◌, refl, sym,
  ap, ◌∙◌, inl, inr, Bytes, bytes_eq, bytes_eq_iff, bytes_eq_self, is_empty, any, ap₂, All-append,
  arith, Bool-cases, Option-cases, false≢true,
}
use haisos.Common.Dict.{Dict, lookup, lookup-insert}
use haisos.Interfaces.{DirectoryEntry, FileDateTime}
use haisos.Path.{relative_to_base, root, normalize, path_of, parent_of, last_segment}
use haisos.Path.Segments.{IsSegment, normalize-names, normalize-path_of}
use haisos.Path.Parents.{parent_of-path_of, last_segment-path_of}
use haisos.Path.Relative.{relative_to_base_iff}
use haisos.Memory.{OpenFlags}
use haisos.Routing.{FileSystem, absolute_path_for, requests_write_access}
use haisos.Routing.Mountable
use haisos.Routing.Mountable.{Mountable, add_builtin_command, put_dot_entries_first, routed_entries}
use haisos.Routing.Own.{
  Builtin, of_builtin, builtin_command_file_content, own_builtin_at, listed,
  is_at_or_under_directory, has_own_builtin_at_or_under, is_dots, without_dots, with_dots,
  is_directory_status, builtin_status,
}
use haisos.Routing.Entries.{own-listed, listed-without_dots}
use haisos.Routing.Places.{Split, path-Split, under-names}

has-under :
    (path directory : Bytes) (b : Builtin) (builtins : Dict Builtin)
    → lookup path builtins ≡ some b
    → is_at_or_under_directory path directory ≡ true
    → has_own_builtin_at_or_under directory builtins ≡ true
unfolding has_own_builtin_at_or_under lookup
has-under path directory b [] e h = cc
has-under path directory b ((other, c) ∷ builtins) e h =
    ground (arith, e, h, bytes_eq_iff other path, has-under path directory b builtins)

module _ {W D : Type 0} where
  -- What a successful call has placed.
  added :
      (can_hold : Bool) (path name : Bytes) (now : FileDateTime) (st : Mountable W D)
      → (add_builtin_command can_hold path name now st).0 ≡ true
      → (lookup (absolute_path_for path) (add_builtin_command can_hold path name now st).1.builtins
          ≡ some (record { name = name; placed_time = now }))
        × (bytes_eq (absolute_path_for path) root ≡ false)
  unfolding add_builtin_command
  added can_hold path name now st h =
      elim (Bool-cases
        (bytes_eq (absolute_path_for path) root || (is_empty name || not can_hold))) [
          | inl e ↦
              let refused : (add_builtin_command can_hold path name now st).0 ≡ false = rw e refl in
              absurd (false≢true (sym refused ∙ h))
          | inr e ↦ elim (Option-cases (lookup (absolute_path_for path) st.builtins)) [
            | inr (c, f) ↦
                let refused : (add_builtin_command can_hold path name now st).0 ≡ false =
                  rw (e, f) refl in
                absurd (false≢true (sym refused ∙ h))
            | inl f ↦ (
              rw (e, f)
                  (lookup-insert (absolute_path_for path) (absolute_path_for path) _ st.builtins
                    ∙ rw (bytes_eq_self (absolute_path_for path)) refl),
              ground (arith, e),
            )
          ]
        ]

  module _ (local : FileSystem W D) (st : Mountable W D) where
    dots-listed :
        (path name : Bytes) (entries : List DirectoryEntry) (w : W)
        → IsSegment name
        → listed name entries ≡ true
        → listed name ((put_dot_entries_first local st path entries w).0) ≡ true
    unfolding put_dot_entries_first
    dots-listed path name entries w v h =
        let kept = listed-without_dots name entries v.not_dot v.not_dot_dot h in
        let behind : listed name (with_dots (without_dots entries)) ≡ true = ground (arith, kept) in
        elim (Bool-cases (not (any is_dots entries) && is_empty (without_dots entries))) [
          | inr e ↦ rw e behind
          | inl e ↦
              rw e (elim (Bool-cases (is_directory_status ((Mountable.stat local st path w).0))) [
                | inl b ↦ rw b behind
                | inr b ↦ rw b kept
              ])
        ]

    -- What the calls answer for the path of a builtin command, and for the directory it is in.
    pub record Visible (path : Bytes) (builtin : Builtin) : Type 0 where
      pub named : (w : W) → Mountable.is_builtin_command local st path w ≡ (some builtin.name, w)
      pub read :
          (flags : OpenFlags) (mode : Option ℕ) (w : W)
          → requests_write_access flags ≡ false
          → Mountable.open_file local st path flags mode w
            ≡ (some (of_builtin (builtin_command_file_content builtin.name) 0), w)
      pub unwritable :
          (flags : OpenFlags) (mode : Option ℕ) (w : W)
          → requests_write_access flags ≡ true
          → Mountable.open_file local st path flags mode w ≡ (none, w)
      pub kept : (w : W) → Mountable.remove_file local st path w ≡ (false, w)
      pub no_directory :
          (mode : ℕ) (w : W) → Mountable.create_directory local st path mode w ≡ (false, w)
      pub holding :
          (directory q : Bytes) (w : W)
          → relative_to_base (absolute_path_for directory) (absolute_path_for path) ≡ some q
          → Mountable.remove_directory local st directory w ≡ (false, w)
      pub asked : (w : W) → Mountable.stat local st path w ≡ (some (builtin_status builtin), w)
      pub found :
          (w : W)
          → listed
              (last_segment (absolute_path_for path))
              ((Mountable.read_directory local st (parent_of (absolute_path_for path)) w).0)
            ≡ true

    module _ (path : Bytes) (builtin : Builtin)
        (at : lookup (absolute_path_for path) st.builtins ≡ some builtin)
        (split : Split (absolute_path_for path)) where
      own : own_builtin_at (absolute_path_for path) st.builtins ≡ some builtin.name
      unfolding own_builtin_at
      own = rw (own_builtin_at, at) refl

      parent-is : parent_of (absolute_path_for path) ≡ path_of split.front
      parent-is =
          ap parent_of split.whole ∙ (parent_of-path_of split.front split.name split.segment).0

      last-is : last_segment (absolute_path_for path) ≡ split.name
      last-is =
          ap last_segment split.whole ∙ last_segment-path_of split.front split.name split.segment

      parent-absolute :
          absolute_path_for (parent_of (absolute_path_for path))
          ≡ parent_of (absolute_path_for path)
      unfolding absolute_path_for
      parent-absolute =
          ap (λ p. normalize p root) parent-is
          ∙ normalize-path_of split.front root split.names
          ∙ sym parent-is

      found-listed :
          (w : W)
          → listed
              (last_segment (absolute_path_for path))
              ((Mountable.read_directory local st (parent_of (absolute_path_for path)) w).0)
            ≡ true
      unfolding Mountable.read_directory
      found-listed w =
          dots-listed (parent_of (absolute_path_for path)) (last_segment (absolute_path_for path)) _
            _ (subst IsSegment (sym last-is) split.segment)
            (rw parent-absolute (own-listed (absolute_path_for path) builtin st.builtins _ at))

      under-directory :
          (directory q : Bytes)
          → relative_to_base (absolute_path_for directory) (absolute_path_for path) ≡ some q
          → is_at_or_under_directory (absolute_path_for path) (absolute_path_for directory) ≡ true
      unfolding absolute_path_for
      under-directory directory q e =
          let (b, hb, eb) = normalize-names directory root in
          let names =
            All-append IsSegment split.front (split.name ∷ []) split.names (split.segment, tt) in
          let (r, whole, at_q) =
            (relative_to_base_iff b (split.front ++ split.name ∷ []) q hb names).0
              (ap₂ relative_to_base (sym eb) (sym split.whole) ∙ e) in
          rw (eb, split.whole, whole) (under-names b r)

      placed-Visible : Visible path builtin
      unfolding Mountable.is_builtin_command Mountable.open_file Mountable.remove_file
          Mountable.create_directory Mountable.remove_directory Mountable.stat
      placed-Visible = record {
        named = λ w. rw (Mountable.is_builtin_command, own) refl;
        read = λ flags mode w r. rw (Mountable.open_file, own) (rw r refl);
        unwritable = λ flags mode w r. rw (Mountable.open_file, own) (rw r refl);
        kept = λ w. rw (Mountable.remove_file, own) refl;
        no_directory = λ mode w. rw (Mountable.create_directory, own) refl;
        holding = λ directory q w e.
            rw
              (
                Mountable.remove_directory,
                has-under (absolute_path_for path) (absolute_path_for directory) builtin st.builtins
                    at (under-directory directory q e),
              )
              refl;
        asked = λ w. rw (Mountable.stat, at) refl;
        found = found-listed;
      }

  -- A builtin command that a call places is there for every other: it is named and read, the file has its status,
  -- it is not written, replaced or removed, its directory lists it, and neither that directory nor one above it
  -- is removed.
  pub add_builtin_command-Visible :
      (local : FileSystem W D) (can_hold : Bool) (path name : Bytes) (now : FileDateTime)
      (st : Mountable W D)
      → (add_builtin_command can_hold path name now st).0 ≡ true
      → Visible local
          (add_builtin_command can_hold path name now st).1
          path
          (record { name = name; placed_time = now })
  add_builtin_command-Visible local can_hold path name now st h =
      let (at, other) = added can_hold path name now st h in
      placed-Visible local (add_builtin_command can_hold path name now st).1 path
        (record { name = name; placed_time = now }) at (path-Split path other)
