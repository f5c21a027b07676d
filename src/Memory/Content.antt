-- ===== src/Memory/Content.antt =====
-- What WriteAt of src/components/Filesystem/InMemoryFileSystem.cpp leaves in a file, as ReadAt finds it.
use haisos.Common.{
  ℕ, ◌+◌, ◌-◌, ◌≤◌, Bool, true, false, [], ◌∷◌, ◌++◌, ◌≡◌, refl, sym, ap, ap₂, ◌∙◌, some,
  append-nil, Bytes, bytes_eq_self, arith, ltb, leb, leb→le, min, length, take, drop, replicate,
  Bool-cases, if◌then◌else◌, inl, inr, length-append, length-take, length-drop, length-replicate,
  drop-append, take-append, drop_all, append_assoc,
}
use haisos.Common.Dict.{Dict, lookup, insert, lookup-insert}
use haisos.Interfaces.{count}
use haisos.Memory.{Node, Clock, modified, read_at, write_at, put_at, size_max}

resize : Bytes → ℕ → Bytes
resize bytes n = if ltb (length bytes) n then bytes ++ replicate (n - length bytes) 0 else bytes

length-resize : (bytes : Bytes) (n : ℕ) → n ≤ length (resize bytes n)
unfolding resize
length-resize bytes n = elim (Bool-cases (ltb (length bytes) n)) [
  | inl t ↦ rw t (
      omega (
        arith,
        length-append bytes (replicate (n - length bytes) 0),
        length-replicate {A = ℕ} (n - length bytes) 0,
      ))
  | inr t ↦ rw t (ground arith)
]

-- The bytes from the position on are those that were put there.
put_at-drop :
    (bytes : Bytes) (pos : ℕ) (buf : Bytes)
    → drop pos (put_at bytes pos buf)
      ≡ buf ++ drop (pos + length buf) (resize bytes (pos + length buf))
unfolding put_at resize
put_at-drop bytes pos buf =
    let n = pos + length buf in
    let front = take pos (resize bytes n) in
    let long : n ≤ length (resize bytes n) = length-resize bytes n in
    let there : length front ≡ pos = omega (arith, length-take pos (resize bytes n), long) in
    ap (λ k. drop k (put_at bytes pos buf)) (sym there)
    ∙ drop-append front (buf ++ drop n (resize bytes n))

-- Resizing upwards appends.
resize-append :
    (bytes : Bytes) (n : ℕ)
    → length bytes ≤ n
    → (pad : Bytes) × (resize bytes n ≡ bytes ++ pad) × (length (bytes ++ pad) ≤ n)
unfolding resize
resize-append bytes n h = elim (Bool-cases (ltb (length bytes) n)) [
  | inl t ↦
      let pad : Bytes = replicate (n - length bytes) 0 in
      (
        pad,
        rw t refl,
        omega (arith, h, length-append bytes pad, length-replicate {A = ℕ} (n - length bytes) 0),
      )
  | inr t ↦ ([], rw t (sym (append-nil bytes)), omega (arith, h, length-append bytes []))
]

-- At the end of the bytes, putting is appending.
put_at_end : (bytes buf : Bytes) → put_at bytes (length bytes) buf ≡ bytes ++ buf
unfolding put_at resize
put_at_end bytes buf =
    let n = length bytes + length buf in
    let (pad, e, short) = resize-append bytes n (omega arith) in
    ap (λ r. take (length bytes) r ++ (buf ++ drop n r)) e
    ∙ ap₂ (λ x y. x ++ (buf ++ y)) (take-append bytes pad) (drop_all n (bytes ++ pad) short)
    ∙ ap (λ y. bytes ++ y) (append-nil buf)

-- Where the node is, and WriteAt has room.
write_at-written :
    (path : Bytes) (pos : ℕ) (append_mode : Bool) (buf : Bytes) (clock : Clock) (nodes : Dict Node)
    (node : Node)
    → lookup path nodes ≡ some node
    → (let begin = if append_mode then length node.data_bytes else pos in
        begin + length buf ≤ size_max
        → write_at path pos append_mode buf clock nodes ≡ (
          count (length buf),
          begin + length buf,
          insert path
              (modified (clock 0) (record node { data_bytes = put_at node.data_bytes begin buf }))
              nodes,
        ))
unfolding write_at
write_at-written path pos append_mode buf clock nodes node e room =
    let begin = if append_mode then length node.data_bytes else pos in
    let fits : ltb (size_max - begin) (length buf) ≡ false = ground (arith, room) in
    rw (e, write_at) (rw fits refl)

lookup_same :
    (path : Bytes) (node : Node) (nodes : Dict Node)
    → lookup path (insert path node nodes) ≡ some node
lookup_same path node nodes = lookup-insert path path node nodes ∙ rw (bytes_eq_self path) refl

nothing : (bytes : Bytes) → length bytes ≡ 0 → bytes ≡ []
nothing [] h = refl
nothing (b ∷ bytes) h = absurd (omega arith)

-- A read of as many bytes as stand at the position.
read_at-found :
    (path : Bytes) (pos : ℕ) (buf rest : Bytes) (clock : Clock) (nodes : Dict Node) (node : Node)
    → lookup path nodes ≡ some node
    → drop pos node.data_bytes ≡ buf ++ rest
    → (let got = read_at path pos (length buf) clock nodes in
        (got.0 ≡ count (length buf)) × (got.1 ≡ buf) × (got.2 ≡ pos + length buf))
unfolding read_at
read_at-found path pos buf rest clock nodes node e d =
    let long : length (buf ++ rest) ≡ length node.data_bytes - pos =
      ap length (sym d) ∙ length-drop pos node.data_bytes in
    let parts : length buf + length rest ≡ length node.data_bytes - pos =
      sym (length-append buf rest) ∙ long in
    elim (Bool-cases (leb (length node.data_bytes) pos)) [
      | inl end ↦
          let past : length node.data_bytes ≤ pos = leb→le (length node.data_bytes) pos end in
          let none_left : buf ≡ [] = nothing buf (omega (arith, parts, past)) in
          rw (e, read_at) (rw end (rw none_left (refl, refl, omega arith)))
      | inr more ↦
          let whole : min (length buf) (length node.data_bytes - pos) ≡ length buf =
            omega (arith, parts) in
          rw (e, read_at)
            (rw more
              (ap count whole, ap₂ take whole d ∙ take-append buf rest, ap (λ k. pos + k) whole))
    ]

-- What a write puts into a file that is there, a read from the same position gives back: the same
-- count, the same bytes, and the same position after it.
pub read_at-write_at :
    (path : Bytes) (pos : ℕ) (append_mode : Bool) (buf : Bytes) (clock clock' : Clock)
    (nodes : Dict Node) (node : Node)
    → lookup path nodes ≡ some node
    → (if append_mode then length node.data_bytes else pos) + length buf ≤ size_max
    → (let written = write_at path pos append_mode buf clock nodes in
        let got = read_at path (written.1 - length buf) (length buf) clock' written.2 in
        (written.0 ≡ count (length buf))
        × (got.0 ≡ count (length buf))
        × (got.1 ≡ buf)
        × (got.2 ≡ written.1))
read_at-write_at path pos append_mode buf clock clock' nodes node e room =
    let begin = if append_mode then length node.data_bytes else pos in
    let n = begin + length buf in
    let stored = put_at node.data_bytes begin buf in
    let new = modified (clock 0) (record node { data_bytes = stored }) in
    let back : n - length buf ≡ begin = omega arith in
    let got =
      read_at-found path begin buf (drop n (resize node.data_bytes n)) clock'
        (insert path new nodes) new (lookup_same path new nodes)
        (put_at-drop node.data_bytes begin buf) in
    rw (write_at-written path pos append_mode buf clock nodes node e room)
      (rw back (refl, got.0, got.1, got.2))

-- Two appends to one file, from whatever positions, leave both buffers behind its bytes, the first
-- before the second.
pub write_at-appends :
    (path : Bytes) (pos pos' : ℕ) (a b : Bytes) (clock clock' : Clock) (nodes : Dict Node)
    (node : Node)
    → lookup path nodes ≡ some node
    → length node.data_bytes + (length a + length b) ≤ size_max
    → (let second = write_at path pos' true b clock' (write_at path pos true a clock nodes).2 in
        (last : Node) × (lookup path second.2 ≡ some last)
        × (last.data_bytes ≡ node.data_bytes ++ (a ++ b)))
write_at-appends path pos pos' a b clock clock' nodes node e room =
    let once = put_at node.data_bytes (length node.data_bytes) a in
    let middle = modified (clock 0) (record node { data_bytes = once }) in
    let between = insert path middle nodes in
    let there : lookup path between ≡ some middle = lookup_same path middle nodes in
    let joined : once ≡ node.data_bytes ++ a = put_at_end node.data_bytes a in
    let long : length once ≡ length node.data_bytes + length a =
      ap length joined ∙ length-append node.data_bytes a in
    let twice = put_at once (length once) b in
    let last = modified (clock' 0) (record middle { data_bytes = twice }) in
    let both : twice ≡ node.data_bytes ++ (a ++ b) =
      put_at_end once b ∙ ap (λ x. x ++ b) joined ∙ append_assoc node.data_bytes a b in
    rw (write_at-written path pos true a clock nodes node e (omega (arith, room))) (
      rw (write_at-written path pos' true b clock' between middle there (omega (arith, long, room)))
        (last, lookup_same path last between, both))
