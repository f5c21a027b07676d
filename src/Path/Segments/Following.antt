-- ===== src/Path/Segments/Following.antt =====
-- Where the components of a path lead: AppendVirtualPathSegments of src/components/Filesystem/VirtualPath.h.
use haisos.Common.{
  Bool, true, false, not, ◌&&◌, List, [], ◌∷◌, ◌++◌, ◌≡◌, ◌≢◌, refl, sym, ap, ◌∙◌, append-nil,
  Bytes, bytes_eq, bytes_eq_iff, is_empty, any, All, arith, false≢true, inl, inr, Bool-cases,
  if_cases, if◌then◌else◌,
}
use haisos.Path.{
  dot, dot_dot, slash, is_separator, Split, pop_back, end_segment, split_loop, append_segments,
}
use haisos.Path.Segments.{split_loop-append}
use haisos.Path.Compose.{append_segments-slash}

-- One component, from some segments to others, and whether it stays within: "." and an empty one
-- stay, ".." leaves the last segment or, at the root, is refused, and any other is entered.
pub data Step (c : Bytes) : List Bytes → List Bytes → Bool → Type 0 where
  stays_at_empty : {s : List Bytes} → c ≡ [] → Step c s s true
  stays_at_dot : {s : List Bytes} → c ≡ dot → Step c s s true
  leaves : {s t : List Bytes} (last : Bytes) → c ≡ dot_dot → s ≡ t ++ last ∷ [] → Step c s t true
  refused_at_root : c ≡ dot_dot → Step c [] [] false
  enters : {s : List Bytes} → c ≢ [] → c ≢ dot → c ≢ dot_dot → Step c s (s ++ c ∷ []) true

-- Components one after the other, which stay within when each does.
pub data Follows : List Bytes → List Bytes → List Bytes → Bool → Type 0 where
  arrives : {c : Bytes} {s t : List Bytes} {w : Bool} → Step c s t w → Follows (c ∷ []) s t w
  goes_on :
      {c d : Bytes} {r s t u : List Bytes} {v w : Bool}
      → Step c s t v
      → Follows (d ∷ r) t u w
      → Follows (c ∷ d ∷ r) s u (v && w)

-- A path of components with a separator between any two.
abbrev pub spelled : Bytes → List Bytes → Bytes
spelled c [] = c
spelled c (d ∷ r) = c ++ slash ∷ spelled d r

abbrev pub HasNoSeparator : Bytes → Type 0
HasNoSeparator c = any is_separator c ≡ false

unlike : (s t : Bytes) → bytes_eq s t ≡ false → s ≢ t
unlike s t h k = false≢true (sym h ∙ (bytes_eq_iff s t).1 k)

empties : (s : Bytes) → is_empty s ≡ true → s ≡ []
empties [] h = refl
empties (c ∷ s) h = ground arith

abbrev last_of : Bytes → List Bytes → Bytes
last_of s [] = s
last_of s (t ∷ r) = last_of t r

pop_back-last : (s : Bytes) (r : List Bytes) → s ∷ r ≡ pop_back (s ∷ r) ++ last_of s r ∷ []
pop_back-last s [] = refl
pop_back-last s (t ∷ r) = ap (◌∷◌ s) (pop_back-last t r)

abbrev IsStep : Bytes → List Bytes → Split → Type 0
IsStep c s st = Step c s st.segments st.within

Step-up :
    (c : Bytes) (s : List Bytes)
    → c ≡ dot_dot
    → IsStep c s (
        if is_empty s
        then record { segment = []; segments = s; within = false }
        else record { segment = []; segments = pop_back s; within = true })
Step-up c [] h = refused_at_root h
Step-up c (x ∷ r) h = leaves (last_of x r) h (pop_back-last x r)

end_segment-IsStep :
    (c : Bytes) (s : List Bytes)
    → IsStep c s (end_segment (record { segment = c; segments = s; within = true }))
unfolding end_segment
end_segment-IsStep c s =
    if_cases (IsStep c s) (bytes_eq c dot_dot) _ _ (λ h. Step-up c s ((bytes_eq_iff c dot_dot).0 h))
      (λ up.
        if_cases (IsStep c s) (not (is_empty c) && not (bytes_eq c dot)) _ _
          (λ h. enters (λ k. ground (arith, k)) (unlike c dot (ground arith)) (unlike c dot_dot up))
          (λ h. elim (Bool-cases (is_empty c)) [
            | inl e ↦ stays_at_empty (empties c e)
            | inr e ↦ stays_at_dot ((bytes_eq_iff c dot).0 (ground arith))
          ]))

append_segments-Step :
    (c : Bytes) (s : List Bytes)
    → HasNoSeparator c
    → Step c s (append_segments c s).0 (append_segments c s).1
unfolding append_segments split_loop
append_segments-Step c s h =
    let start : Split = record { segment = []; segments = s; within = true } in
    let ends = ap (λ p. split_loop p start) (sym (append-nil c)) ∙ split_loop-append c [] start h in
    rw ends (end_segment-IsStep c s)

-- A path is followed component by component, from the segments it is appended to, and whether it
-- stays within is whether no ".." of it stands at the root.
pub append_segments-Follows :
    (c : Bytes) (r : List Bytes) (segments : List Bytes)
    → All HasNoSeparator (c ∷ r)
    → Follows
        (c ∷ r)
        segments
        (append_segments (spelled c r) segments).0
        (append_segments (spelled c r) segments).1
append_segments-Follows c [] segments (h, _) = arrives (append_segments-Step c segments h)
append_segments-Follows c (d ∷ r) segments (h, k) =
    rw (append_segments-slash c (spelled d r) segments) (
      goes_on (append_segments-Step c segments h)
        (append_segments-Follows d r (append_segments c segments).0 k))
