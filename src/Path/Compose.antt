-- ===== src/Path/Compose.antt =====
-- Appending one path behind another, and ".." (src/components/Filesystem/VirtualPath.h).
use haisos.Common.{
  ℕ, Bool, true, false, ◌&&◌, List, [], ◌∷◌, ◌++◌, ◌≡◌, refl, ap, ◌∙◌, Bytes, bytes_eq, is_empty,
  arith,
}
use haisos.Path.{
  slash, dot_dot, Split, pop_back, end_segment, next_char, split_loop, append_segments,
}

split_loop-slash :
    (p q : Bytes) (st : Split) → split_loop (p ++ slash ∷ q) st ≡ split_loop q (split_loop p st)
unfolding split_loop next_char
split_loop-slash [] q st = refl
split_loop-slash (c ∷ p) q st = split_loop-slash p q (next_char st c)

end_segment_closes : (st : Split) → (end_segment st).segment ≡ []
unfolding end_segment
end_segment_closes st = ground arith

split_loop_closes : (p : Bytes) (st : Split) → (split_loop p st).segment ≡ []
unfolding split_loop
split_loop_closes [] st = end_segment_closes st
split_loop_closes (c ∷ p) st = split_loop_closes p (next_char st c)

-- `within` only falls, and nothing else depends on it.
abbrev after : Bool → Split → Split
after w st = record st { within = w && st.within }

end_segment-after : (w : Bool) (st : Split) → end_segment (after w st) ≡ after w (end_segment st)
unfolding end_segment
end_segment-after w st = ground arith

next_char-after :
    (w : Bool) (st : Split) (c : ℕ) → next_char (after w st) c ≡ after w (next_char st c)
unfolding next_char
next_char-after w st c = ground (arith, end_segment-after w st)

split_loop-after :
    (w : Bool) (p : Bytes) (st : Split) → split_loop p (after w st) ≡ after w (split_loop p st)
unfolding split_loop
split_loop-after w [] st = end_segment-after w st
split_loop-after w (c ∷ p) st =
    ap (split_loop p) (next_char-after w st c) ∙ split_loop-after w p (next_char st c)

abbrev open_at : List Bytes → Split
open_at segments = record { segment = []; segments = segments; within = true }

closed_after : (st : Split) → st.segment ≡ [] → st ≡ after st.within (open_at st.segments)
closed_after st h = ground arith

-- A path that continues behind a '/' is appended part by part, and stays within where both do.
pub append_segments-slash :
    (p q : Bytes) (segments : List Bytes)
    → append_segments (p ++ slash ∷ q) segments ≡ (
        let first = append_segments p segments in
        let second = append_segments q first.0 in (second.0, first.1 && second.1))
unfolding append_segments
append_segments-slash p q segments =
    let st : Split = split_loop p (open_at segments) in
    ap (λ (x : Split). (x.segments, x.within))
      (split_loop-slash p q (open_at segments)
        ∙ ap (split_loop q) (closed_after st (split_loop_closes p (open_at segments)))
        ∙ split_loop-after st.within q (open_at st.segments))

pop_back-snoc : (r : List Bytes) (s : Bytes) → pop_back (r ++ s ∷ []) ≡ r
pop_back-snoc [] s = refl
pop_back-snoc (x ∷ []) s = refl
pop_back-snoc (x ∷ y ∷ r) s = ap (◌∷◌ x) (pop_back-snoc (y ∷ r) s)

is_empty-snoc : (r : List Bytes) (s : Bytes) → is_empty (r ++ s ∷ []) ≡ false
is_empty-snoc [] s = refl
is_empty-snoc (x ∷ r) s = refl

-- ".." takes the last segment away; at the root it is refused and left out.
pub append_segments-dot_dot :
    (segments : List Bytes) (s : Bytes)
    → (append_segments dot_dot (segments ++ s ∷ []) ≡ (segments, true))
      × (append_segments dot_dot [] ≡ ([], false))
unfolding append_segments bytes_eq
append_segments-dot_dot segments s =
    (rw (is_empty-snoc segments s, pop_back-snoc segments s) refl, refl)
