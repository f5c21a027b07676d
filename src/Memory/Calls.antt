-- ===== src/Memory/Calls.antt =====
-- The calls that change the nodes of src/components/Filesystem/InMemoryFileSystem.cpp, in whatever order
-- threads make them.
use haisos.Common.{
  ℕ, ◌-◌, Bool, true, false, not, [], ◌≡◌, ◌≢◌, refl, sym, ◌∙◌, ◌||◌, inl, inr, Bytes, bytes_eq,
  bytes_eq_iff, arith, ltb, length, Bool-cases, Option-cases, if◌then◌else◌, false≢true,
}
use haisos.Common.Dict.{Dict, lookup, insert}
use haisos.Interfaces.{FileDateTime}
use haisos.Path.{root, normalize, parent_of}
use haisos.Memory.{
  Node, Clock, OpenFlags, modified, create_fs, is_directory_at, open_file, read_at, write_at,
  create_directory, remove_directory, remove_file, has_below, put_at, size_max,
}
use haisos.Memory.Keys.{normalize-IsNormal}
use haisos.Memory.Tree.{
  IsTree, create_fs-IsTree, Updates-IsTree, insert-Updates, add_node-IsTree, is_directory_at-found,
}
use haisos.Memory.Removal.{drop_node-IsTree, file-IsLeaf, empty-IsLeaf}

-- A call, with its arguments. A read or a write is that of a descriptor: at a path and a position
-- that it holds.
pub data Call : Type 0 where
  opens : Bytes → OpenFlags → Call
  reads : Bytes → ℕ → ℕ → Call
  writes : Bytes → ℕ → Bool → Bytes → Call
  creates_directory removes_directory removes_file : Bytes → Call

-- The nodes that a call leaves.
abbrev pub after : Call → Clock → Dict Node → Dict Node
after (opens path flags) clock nodes = (open_file path flags clock nodes).1
after (reads path pos n) clock nodes = (read_at path pos n clock nodes).3
after (writes path pos append_mode buf) clock nodes =
    (write_at path pos append_mode buf clock nodes).2
after (creates_directory path) clock nodes = (create_directory path clock nodes).1
after (removes_directory path) clock nodes = (remove_directory path clock nodes).1
after (removes_file path) clock nodes = (remove_file path clock nodes).1

-- What the calls so far have left of a new filesystem.
pub data Reach (created : FileDateTime) : Dict Node → Type 0 where
  start : Reach created (create_fs created)
  call :
      {nodes : Dict Node}
      → Reach created nodes
      → (c : Call) (clock : Clock) → Reach created (after c clock nodes)

open_file-IsTree :
    (pathname : Bytes) (flags : OpenFlags) (clock : Clock) (nodes : Dict Node)
    → IsTree nodes
    → IsTree (open_file pathname flags clock nodes).1
unfolding open_file
open_file-IsTree pathname flags clock nodes t =
    let path = normalize pathname root in
    elim (Option-cases (lookup path nodes)) [
      | inl e ↦
          rw (e, open_file)
            (ground (
              arith,
              t,
              λ (d : is_directory_at (parent_of path) nodes ≡ true).
                  add_node-IsTree path false clock nodes e (normalize-IsNormal pathname) d t,
            ))
      | inr (node, e) ↦
          rw (e, open_file)
            (ground (
              arith,
              t,
              λ (d : node.is_directory ≡ false).
                  Updates-IsTree
                    (insert-Updates path (modified (clock 0) (record node { data_bytes = [] })) node
                      nodes e refl)
                    t,
            ))
    ]

read_at-IsTree :
    (path : Bytes) (pos n : ℕ) (clock : Clock) (nodes : Dict Node)
    → IsTree nodes
    → IsTree (read_at path pos n clock nodes).3
unfolding read_at
read_at-IsTree path pos n clock nodes t = elim (Option-cases (lookup path nodes)) [
  | inl e ↦ rw (e, read_at) t
  | inr (node, e) ↦
      rw (e, read_at)
        (ground (
          arith,
          t,
          Updates-IsTree
              (insert-Updates path (record node { access_time = clock 0 }) node nodes e refl) t,
        ))
]

write_at-IsTree :
    (path : Bytes) (pos : ℕ) (append_mode : Bool) (buf : Bytes) (clock : Clock) (nodes : Dict Node)
    → IsTree nodes
    → IsTree (write_at path pos append_mode buf clock nodes).2
unfolding write_at
write_at-IsTree path pos append_mode buf clock nodes t = elim (Option-cases (lookup path nodes)) [
  | inl e ↦ rw (e, write_at) t
  | inr (node, e) ↦
      let start = if append_mode then length node.data_bytes else pos in
      let written = record node { data_bytes = put_at node.data_bytes start buf } in
      let kept : IsTree (insert path (modified (clock 0) written) nodes) =
        Updates-IsTree (insert-Updates path (modified (clock 0) written) node nodes e refl) t in
      rw (e, write_at)
        (elim (Bool-cases (ltb (size_max - start) (length buf))) [
          | inl over ↦ rw over t
          | inr fits ↦ rw fits kept
        ])
]

create_directory-IsTree :
    (pathname : Bytes) (clock : Clock) (nodes : Dict Node)
    → IsTree nodes
    → IsTree (create_directory pathname clock nodes).1
unfolding create_directory
create_directory-IsTree pathname clock nodes t =
    let path = normalize pathname root in
    elim (Option-cases (lookup path nodes)) [
      | inl e ↦
          rw (e, create_directory)
            (ground (
              arith,
              t,
              λ (d : is_directory_at (parent_of path) nodes ≡ true).
                  add_node-IsTree path true clock nodes e (normalize-IsNormal pathname) d t,
            ))
      | inr (node, e) ↦ rw (e, create_directory) t
    ]

remove_directory-IsTree :
    (pathname : Bytes) (clock : Clock) (nodes : Dict Node)
    → IsTree nodes
    → IsTree (remove_directory pathname clock nodes).1
unfolding remove_directory
remove_directory-IsTree pathname clock nodes t =
    let path = normalize pathname root in
    let gone = λ (off : bytes_eq path root ≡ false) (empty : has_below path nodes ≡ false).
      let apart : path ≢ root = λ e. false≢true (sym off ∙ (bytes_eq_iff path root).1 e) in
      drop_node-IsTree path clock nodes apart (empty-IsLeaf path nodes apart empty t) t in
    elim (Bool-cases (not (is_directory_at path nodes) || bytes_eq path root)) [
      | inl bad ↦ rw bad t
      | inr good ↦ rw good (elim (Bool-cases (has_below path nodes)) [
        | inl full ↦ rw full t
        | inr empty ↦ rw empty (gone (ground arith) empty)
      ])
    ]

remove_file-IsTree :
    (pathname : Bytes) (clock : Clock) (nodes : Dict Node)
    → IsTree nodes
    → IsTree (remove_file pathname clock nodes).1
unfolding remove_file
remove_file-IsTree pathname clock nodes t =
    let path = normalize pathname root in
    elim (Option-cases (lookup path nodes)) [
      | inl e ↦ rw (e, remove_file) t
      | inr (node, e) ↦
          rw (e, remove_file)
            (elim (Bool-cases node.is_directory) [
              | inl d ↦ rw d t
              | inr f ↦ rw f (
                  let plain : is_directory_at path nodes ≡ false =
                    is_directory_at-found path node nodes e ∙ f in
                  drop_node-IsTree path clock nodes
                    (λ r. false≢true (sym (rw r at plain) ∙ t.root_directory))
                    (file-IsLeaf path nodes plain t) t)
            ])
    ]

after-IsTree :
    (c : Call) (clock : Clock) (nodes : Dict Node) → IsTree nodes → IsTree (after c clock nodes)
after-IsTree (opens path flags) clock nodes = open_file-IsTree path flags clock nodes
after-IsTree (reads path pos n) clock nodes = read_at-IsTree path pos n clock nodes
after-IsTree (writes path pos append_mode buf) clock nodes =
    write_at-IsTree path pos append_mode buf clock nodes
after-IsTree (creates_directory path) clock nodes = create_directory-IsTree path clock nodes
after-IsTree (removes_directory path) clock nodes = remove_directory-IsTree path clock nodes
after-IsTree (removes_file path) clock nodes = remove_file-IsTree path clock nodes

-- Whatever calls are made, in whatever order, and whether they succeed or fail: the root is a
-- directory, every path is normalized, and what holds it is a directory.
pub Reach-IsTree : (created : FileDateTime) {nodes : Dict Node} → Reach created nodes → IsTree nodes
Reach-IsTree created start = create_fs-IsTree created
Reach-IsTree created (call {nodes} r c clock) = after-IsTree c clock nodes (Reach-IsTree created r)
