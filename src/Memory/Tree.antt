-- ===== src/Memory/Tree.antt =====
-- The directory tree that the nodes of src/components/Filesystem/InMemoryFileSystem.cpp form, and
-- the ways a call may change the nodes.
use haisos.Common.{
  Bool, true, false, [], ◌≡◌, ◌⊎◌, inl, inr, refl, sym, ap, ◌∙◌, none, some, Bytes, bytes_eq,
  bytes_eq_iff, arith, if◌then◌else◌, Bool-cases, Option-cases,
}
use haisos.Common.Dict.{Dict, lookup, insert, erase, lookup-insert, lookup-erase}
use haisos.Interfaces.{FileDateTime}
use haisos.Path.{root, parent_of, path_of}
use haisos.Memory.{
  Node, make, modified, create_fs, touch_directory, is_directory_node, is_directory_at, add_node,
  Clock,
}
use haisos.Memory.Keys.{IsNormal}

some-injective : {a b : Node} → some a ≡ some b → a ≡ b
some-injective h = ground arith

-- The root is a directory, every path is normalized, and its parent is a directory.
pub record IsTree (nodes : Dict Node) : Type 0 where
  pub root_directory : is_directory_at root nodes ≡ true
  pub normal : (path : Bytes) (node : Node) → lookup path nodes ≡ some node → IsNormal path
  pub parents :
      (path : Bytes) (node : Node)
      → lookup path nodes ≡ some node
      → (path ≡ root) ⊎ (is_directory_at (parent_of path) nodes ≡ true)

-- What stands under a path once a node has been put in or taken out.
insert_cases :
    (path j : Bytes) (node found : Node) (nodes : Dict Node)
    → lookup j (insert path node nodes) ≡ some found
    → ((path ≡ j) × (node ≡ found)) ⊎ (lookup j nodes ≡ some found)
insert_cases path j node found nodes h = elim (Bool-cases (bytes_eq path j)) [
  | inl e ↦ inl ((bytes_eq_iff path j).0 e, some-injective (sym (place e) ∙ h))
  | inr e ↦ inr (sym (other e) ∙ h)
]
  where
    place : bytes_eq path j ≡ true → lookup j (insert path node nodes) ≡ some node
    place e = lookup-insert path j node nodes ∙ rw e refl

    other : bytes_eq path j ≡ false → lookup j (insert path node nodes) ≡ lookup j nodes
    other e = lookup-insert path j node nodes ∙ rw e refl

is_directory_at-insert :
    (path j : Bytes) (node : Node) (nodes : Dict Node)
    → is_directory_at j (insert path node nodes)
      ≡ (if bytes_eq path j then node.is_directory else is_directory_at j nodes)
unfolding is_directory_at
is_directory_at-insert path j node nodes =
    ap is_directory_node (lookup-insert path j node nodes) ∙ ground arith

pub is_directory_at-erase :
    (path j : Bytes) (nodes : Dict Node)
    → is_directory_at j (erase path nodes)
      ≡ (if bytes_eq path j then false else is_directory_at j nodes)
unfolding is_directory_at
is_directory_at-erase path j nodes = ap is_directory_node (lookup-erase path j nodes) ∙ ground arith

-- What is_directory_at says where the node is known.
pub is_directory_at-found :
    (path : Bytes) (node : Node) (nodes : Dict Node)
    → lookup path nodes ≡ some node
    → is_directory_at path nodes ≡ node.is_directory
unfolding is_directory_at
is_directory_at-found path node nodes h = ap is_directory_node h

pub is_directory_at-none :
    (path : Bytes) (nodes : Dict Node)
    → lookup path nodes ≡ none
    → is_directory_at path nodes ≡ false
unfolding is_directory_at
is_directory_at-none path nodes h = ap is_directory_node h

root-IsNormal : IsNormal root
unfolding path_of
root-IsNormal = ([], tt, refl)

-- The only path of a new filesystem.
create_fs_path :
    (now : FileDateTime) (path : Bytes) (node : Node)
    → lookup path (create_fs now) ≡ some node
    → path ≡ root
unfolding lookup
create_fs_path now path node h = elim (Bool-cases (bytes_eq root path)) [
  | inl e ↦ sym ((bytes_eq_iff root path).0 e)
  | inr e ↦ absurd (let no = rw e at h in cc)
]

pub create_fs-IsTree : (now : FileDateTime) → IsTree (create_fs now)
unfolding is_directory_at lookup bytes_eq
create_fs-IsTree now = record {
  root_directory = refl;
  normal = λ path node h. rw (create_fs_path now path node h) root-IsNormal;
  parents = λ path node h. inl (create_fs_path now path node h);
}

-- A directory stays one, and a path is an old one or a normal one below a directory.
pub record Grows (before after : Dict Node) : Type 0 where
  pub directories :
      (path : Bytes) → is_directory_at path before ≡ true → is_directory_at path after ≡ true
  pub paths :
      (path : Bytes) (node : Node)
      → lookup path after ≡ some node
      → ((old : Node) × (lookup path before ≡ some old))
        ⊎ (IsNormal path × (is_directory_at (parent_of path) before ≡ true))

pub Grows-IsTree : {before after : Dict Node} → Grows before after → IsTree before → IsTree after
Grows-IsTree g t = record {
  root_directory = g.directories root t.root_directory;
  normal = λ path node h. elim (g.paths path node h) [
    | inl (old, e) ↦ t.normal path old e
    | inr (n, d) ↦ n
  ];
  parents = λ path node h. elim (g.paths path node h) [
    | inl (old, e) ↦ elim (t.parents path old e) [
      | inl r ↦ inl r
      | inr d ↦ inr (g.directories (parent_of path) d)
    ]
    | inr (n, d) ↦ inr (g.directories (parent_of path) d)
  ];
}

-- Every path is an old one.
pub record Updates (before after : Dict Node) : Type 0 where
  pub directories :
      (path : Bytes) → is_directory_at path before ≡ true → is_directory_at path after ≡ true
  pub paths :
      (path : Bytes) (node : Node)
      → lookup path after ≡ some node
      → (old : Node) × (lookup path before ≡ some old)

Updates-refl : (nodes : Dict Node) → Updates nodes nodes
Updates-refl nodes = record { directories = λ j d. d; paths = λ j found g. (found, g) }

Grows-Updates :
    {first second third : Dict Node} → Grows first second → Updates second third → Grows first third
Grows-Updates g u = record {
  directories = λ path h. u.directories path (g.directories path h);
  paths = λ path node h. let (old, e) = u.paths path node h in g.paths path old e;
}

pub Updates-IsTree :
    {before after : Dict Node} → Updates before after → IsTree before → IsTree after
Updates-IsTree u =
    Grows-IsTree
      (record { directories = u.directories; paths = λ path node h. inl (u.paths path node h) })

-- A node changed in place.
pub insert-Updates :
    (path : Bytes) (node old : Node) (nodes : Dict Node)
    → lookup path nodes ≡ some old
    → node.is_directory ≡ old.is_directory
    → Updates nodes (insert path node nodes)
insert-Updates path node old nodes h same = record {
  directories = λ j d. ground (
    arith,
    is_directory_at-insert path j node nodes,
    is_directory_at-found path old nodes h,
    bytes_eq_iff path j,
  );
  paths = λ j found g. elim (insert_cases path j node found nodes g) [
    | inl (e, f) ↦ (old, rw (sym e) h)
    | inr e ↦ (found, e)
  ];
}

pub touch_directory-Updates :
    (path : Bytes) (now : FileDateTime) (nodes : Dict Node)
    → Updates nodes (touch_directory path now nodes)
unfolding touch_directory
touch_directory-Updates path now nodes = elim (Option-cases (lookup path nodes)) [
  | inl e ↦ rw (e, touch_directory) (Updates-refl nodes)
  | inr (old, e) ↦ rw (e, touch_directory) (insert-Updates path (modified now old) old nodes e refl)
]

-- A node put in where none is, below a directory.
insert-Grows :
    (path : Bytes) (node : Node) (nodes : Dict Node)
    → lookup path nodes ≡ none
    → IsNormal path
    → is_directory_at (parent_of path) nodes ≡ true
    → Grows nodes (insert path node nodes)
insert-Grows path node nodes h n d = record {
  directories = λ j e. ground (
    arith,
    is_directory_at-insert path j node nodes,
    is_directory_at-none path nodes h,
    bytes_eq_iff path j,
  );
  paths = λ j found g. elim (insert_cases path j node found nodes g) [
    | inl (s, f) ↦ inr (rw s at n, rw s at d)
    | inr o ↦ inl (found, o)
  ];
}

pub add_node-IsTree :
    (path : Bytes) (is_directory : Bool) (clock : Clock) (nodes : Dict Node)
    → lookup path nodes ≡ none
    → IsNormal path
    → is_directory_at (parent_of path) nodes ≡ true
    → IsTree nodes
    → IsTree (add_node path is_directory clock nodes)
add_node-IsTree path is_directory clock nodes h n d = Grows-IsTree (
    Grows-Updates (insert-Grows path (make is_directory (clock 0)) nodes h n d) (
      touch_directory-Updates (parent_of path) (clock 1)
        (insert path (make is_directory (clock 0)) nodes)))
