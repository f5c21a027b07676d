-- ===== src/Memory/Removal.antt =====
-- Nodes taken out by src/components/Filesystem/InMemoryFileSystem.cpp leave a tree where nothing is below them.
use haisos.Common.{
  Bool, true, false, [], ◌∷◌, ◌++◌, ◌≡◌, ◌≢◌, ◌⊎◌, inl, inr, sym, ap, ◌∙◌, some, Bytes, bytes_eq,
  bytes_eq_iff, starts_with, any, arith, false≢true, Bool-cases,
}
use haisos.Common.Dict.{Dict, lookup, erase, lookup-erase}
use haisos.Path.{slash, root, parent_of}
use haisos.Memory.{Node, is_directory_at, drop_node, has_below, Clock}
use haisos.Memory.Tree.{IsTree, Updates-IsTree, touch_directory-Updates, is_directory_at-erase}
use haisos.Memory.Keys.{parent_of-starts_with}

-- Nothing is directly below a path.
abbrev pub IsLeaf : Bytes → Dict Node → Type 0
IsLeaf path nodes =
    (j : Bytes) (node : Node) → lookup j nodes ≡ some node → (j ≡ root) ⊎ (parent_of j ≢ path)

lookup-erased :
    (path j : Bytes) (node : Node) (nodes : Dict Node)
    → lookup j (erase path nodes) ≡ some node
    → lookup j nodes ≡ some node
lookup-erased path j node nodes h = ground (arith, lookup-erase path j nodes)

pub drop_node-IsTree :
    (path : Bytes) (clock : Clock) (nodes : Dict Node)
    → path ≢ root
    → IsLeaf path nodes
    → IsTree nodes
    → IsTree (drop_node path clock nodes)
drop_node-IsTree path clock nodes off leaf t =
    Updates-IsTree (touch_directory-Updates (parent_of path) (clock 0) (erase path nodes)) (record {
      root_directory =
          ground (
            arith,
            is_directory_at-erase path root nodes,
            t.root_directory,
            bytes_eq_iff path root,
          );
      normal = λ j node h. t.normal j node (lookup-erased path j node nodes h);
      parents = λ j node h.
          let e = lookup-erased path j node nodes h in
          elim (t.parents j node e) [
            | inl r ↦ inl r
            | inr d ↦ elim (leaf j node e) [
              | inl r ↦ inl r
              | inr apart ↦ inr (
                  ground (
                    arith,
                    is_directory_at-erase path (parent_of j) nodes,
                    bytes_eq_iff path (parent_of j),
                  ))
            ]
          ];
    })

-- A path that is no directory has nothing below.
pub file-IsLeaf :
    (path : Bytes) (nodes : Dict Node)
    → is_directory_at path nodes ≡ false
    → IsTree nodes
    → IsLeaf path nodes
file-IsLeaf path nodes h t j node e = elim (t.parents j node e) [
  | inl r ↦ inl r
  | inr d ↦ inr (λ same. false≢true (sym h ∙ rw same at d))
]

lookup-any :
    (p : Bytes → Bool) (j : Bytes) (node : Node) (nodes : Dict Node)
    → lookup j nodes ≡ some node
    → p j ≡ true
    → any (λ (entry : Bytes × Node). p entry.0) nodes ≡ true
unfolding lookup
lookup-any p j node [] h g = cc
lookup-any p j node ((key, other) ∷ nodes) h g =
    ground
      (arith, bytes_eq_iff key j, λ (e : lookup j nodes ≡ some node). lookup-any p j node nodes e g)

-- A directory that LocalRemoveDirectory finds nothing below.
pub empty-IsLeaf :
    (path : Bytes) (nodes : Dict Node)
    → path ≢ root
    → has_below path nodes ≡ false
    → IsTree nodes
    → IsLeaf path nodes
empty-IsLeaf path nodes off h t j node e = elim (Bool-cases (bytes_eq j root)) [
  | inl r ↦ inl ((bytes_eq_iff j root).0 r)
  | inr r ↦ inr (λ same.
      let below =
        parent_of-starts_with j (t.normal j node e)
          (λ s. false≢true (sym r ∙ (bytes_eq_iff j root).1 s)) (λ s. off (sym same ∙ s)) in
      false≢true (
        sym h
        ∙ lookup-any (λ k. starts_with k (path ++ slash ∷ [])) j node nodes e
            (ap (λ q. starts_with j (q ++ slash ∷ [])) (sym same) ∙ below)))
]
