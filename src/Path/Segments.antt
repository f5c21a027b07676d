-- ===== src/Path/Segments.antt =====
-- Splitting a path and joining its segments (src/components/Filesystem/VirtualPath.h).
pub mod Following
use haisos.Common.{
  ℕ, Bool, true, false, List, [], ◌∷◌, ◌++◌, ◌≡◌, refl, sym, ap, ◌∙◌, append-nil, append_assoc, inl,
  inr, Bytes, bytes_eq, is_empty, any, All, All-append, arith, Bool-cases, if◌then◌else◌,
}
use haisos.Path.{
  dot, dot_dot, is_separator, Split, pop_back, end_segment, next_char, split_loop, append_segments,
  join_segments, starts_at_root, path_of, normalize,
}

-- What a stored segment is: a name, with no separator in it.
pub record IsSegment (s : Bytes) : Type 0 where
  pub non_empty : is_empty s ≡ false
  pub no_separator : any is_separator s ≡ false
  pub not_dot : bytes_eq s dot ≡ false
  pub not_dot_dot : bytes_eq s dot_dot ≡ false

pub record IsOpen (st : Split) : Type 0 where
  pub no_separator : any is_separator st.segment ≡ false
  pub names : All IsSegment st.segments

All-pop_back : (xs : List Bytes) → All IsSegment xs → All IsSegment (pop_back xs)
All-pop_back [] h = tt
All-pop_back (x ∷ []) h = tt
All-pop_back (x ∷ y ∷ r) (p, h) = (p, All-pop_back (y ∷ r) h)

any-push :
    (s : Bytes) (c : ℕ)
    → any is_separator s ≡ false
    → is_separator c ≡ false
    → any is_separator (s ++ c ∷ []) ≡ false
any-push [] c h e = ground arith
any-push (x ∷ s) c h e = ground (arith, any-push s c)

-- Segments are valid before and after a segment ends.
end_segment-IsOpen : (st : Split) → IsOpen st → IsOpen (end_segment st)
unfolding end_segment
end_segment-IsOpen st o = ground (
  arith,
  All-pop_back st.segments o.names,
  λ (v : IsSegment st.segment). All-append IsSegment st.segments (st.segment ∷ []) o.names (v, tt),
)

split_loop-IsOpen :
    (path : Bytes) (st : Split) → IsOpen st → All IsSegment (split_loop path st).segments
unfolding split_loop next_char
split_loop-IsOpen [] st o = (end_segment-IsOpen st o).names
split_loop-IsOpen (c ∷ path) st o =
    split_loop-IsOpen path (next_char st c) (elim (Bool-cases (is_separator c)) [
      | inl e ↦ rw e (end_segment-IsOpen st o)
      | inr e ↦
          rw e (record { no_separator = any-push st.segment c o.no_separator e; names = o.names })
    ])

-- The segments of a path are names, whatever the path is, if those that it is appended to are.
pub append_segments-IsSegment :
    (path : Bytes) (segments : List Bytes)
    → All IsSegment segments
    → All IsSegment (append_segments path segments).0
unfolding append_segments
append_segments-IsSegment path segments h =
    split_loop-IsOpen path _ (record { no_separator = refl; names = h })

next_char-plain :
    (st : Split) (c : ℕ)
    → is_separator c ≡ false
    → next_char st c ≡ record st { segment = st.segment ++ c ∷ [] }
unfolding next_char
next_char-plain st c h = ground arith

-- Characters that separate nothing are added to the segment at hand.
split_loop-append :
    (s rest : Bytes) (st : Split)
    → any is_separator s ≡ false
    → split_loop (s ++ rest) st ≡ split_loop rest (record st { segment = st.segment ++ s })
unfolding split_loop
split_loop-append [] rest st h = rw append-nil
split_loop-append (c ∷ s) rest st h =
    ap (split_loop (s ++ rest)) (next_char-plain st c (ground arith))
    ∙ split_loop-append s rest (record st { segment = st.segment ++ c ∷ [] }) (ground arith)
    ∙ ap (λ t. split_loop rest (record st { segment = t })) (append_assoc st.segment (c ∷ []) s)

-- A name that ends is one more segment.
end_segment-name :
    (st : Split)
    → IsSegment st.segment
    → end_segment st ≡ record st { segment = []; segments = st.segments ++ st.segment ∷ [] }
unfolding end_segment
end_segment-name st v = ground arith

abbrev closed : List Bytes → Bool → Split
closed segments within = record { segment = []; segments = segments; within = within }

split_loop-join :
    (r : List Bytes) (s : Bytes) (segments : List Bytes) (within : Bool)
    → IsSegment s
    → All IsSegment r
    → split_loop (join_segments r) (record { segment = s; segments = segments; within = within })
      ≡ closed (segments ++ s ∷ r) within
unfolding split_loop next_char join_segments
split_loop-join [] s segments within v h =
    end_segment-name (record { segment = s; segments = segments; within = within }) v
split_loop-join (t ∷ r) s segments within v (w, h) =
    let st : Split = record { segment = s; segments = segments; within = within } in
    ap (split_loop (t ++ join_segments r)) (end_segment-name st v)
    ∙ split_loop-append t (join_segments r) (closed (segments ++ s ∷ []) within) w.no_separator
    ∙ split_loop-join r t (segments ++ s ∷ []) within w h
    ∙ ap (λ l. closed l within) (append_assoc segments (s ∷ []) (t ∷ r))

end_segment-empty :
    (segments : List Bytes) (within : Bool)
    → end_segment (closed segments within) ≡ closed segments within
unfolding end_segment bytes_eq
end_segment-empty segments within = refl

split_loop-join_from :
    (r segments : List Bytes) (within : Bool)
    → All IsSegment r
    → split_loop (join_segments r) (closed segments within) ≡ closed (segments ++ r) within
unfolding split_loop next_char join_segments
split_loop-join_from [] segments within h =
    end_segment-empty segments within ∙ ap (λ l. closed l within) (sym (append-nil segments))
split_loop-join_from (s ∷ r) segments within (v, h) =
    ap (split_loop (s ++ join_segments r)) (end_segment-empty segments within)
    ∙ split_loop-append s (join_segments r) (closed segments within) v.no_separator
    ∙ split_loop-join r s segments within v h

-- Appending the joined names of `r` appends the names of `r`, and stays within.
pub append_segments-join :
    (r segments : List Bytes)
    → All IsSegment r
    → append_segments (join_segments r) segments ≡ (segments ++ r, true)
unfolding append_segments
append_segments-join r segments h =
    ap (λ (st : Split). (st.segments, st.within)) (split_loop-join_from r segments true h)

-- The path of some names is split into them, from whatever directory.
pub append_segments-path_of :
    (r : List Bytes) → All IsSegment r → append_segments (path_of r) [] ≡ (r, true)
unfolding path_of append_segments bytes_eq
append_segments-path_of [] h = refl
append_segments-path_of (s ∷ r) h = append_segments-join (s ∷ r) [] h

start-names :
    (b : Bool) (base : Bytes) → All IsSegment (if b then [] else (append_segments base []).0)
start-names true base = tt
start-names false base = append_segments-IsSegment base [] tt

-- A normalized path starts at the root, and has names only.
pub normalize-names :
    (path base : Bytes) → (r : List Bytes) × All IsSegment r × (normalize path base ≡ path_of r)
unfolding normalize
normalize-names path base =
    (_, append_segments-IsSegment path _ (start-names (starts_at_root path) base), refl)

-- A path of names is normalized.
pub normalize-path_of :
    (r : List Bytes) (base : Bytes) → All IsSegment r → normalize (path_of r) base ≡ path_of r
unfolding normalize bytes_eq
normalize-path_of [] base h = refl
normalize-path_of (s ∷ r) base h =
    ap (λ (x : List Bytes × Bool). path_of x.0) (append_segments-join (s ∷ r) [] h)

-- Normalizing a normalized path changes nothing, whatever the two bases are.
pub normalize_idem :
    (path base base' : Bytes) → normalize (normalize path base) base' ≡ normalize path base
normalize_idem path base base' =
    let (r, h, e) = normalize-names path base in rw e (normalize-path_of r base' h)
