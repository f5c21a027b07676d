-- ===== src/Pipe/Sending.antt =====
-- PipeBuffer::Write of src/components/PipeService/Pipe.cpp sends on the bounded queue.
use native.Mathlib.Decide.{dec_le}
use haisos.Common.{
  ℕ, suc, ◌+◌, ◌-◌, ◌≤◌, ◌<◌, min, ◌≡◌, refl, sym, ap, ap₂, ◌∙◌, Bool, true, false, ◌==◌, leb,
  le→leb, ◌++◌, append-nil, Bytes, length, arith, is_empty, Bool-cases, if◌then◌else◌, take, drop,
  take_all, length-drop, length-take, inl, inr,
}
use haisos.Pipe.{
  count, io_interrupted, io_broken_pipe, PipeBuffer, put_bytes, WriteOutcome, returned, waiting,
  write, write_loop, written_or, is_atomic,
}
use haisos.Pipe.Valid.{IsValid}
use haisos.Pipe.Refine.{length-contents, contents-put_bytes}
use haisos.Pipe.Channel.{
  Channel, interrupted_or_waiting, contents, view, send, map_outcome, send_all, send_none,
  send_some, send_broken,
}

abbrev room : PipeBuffer → ℕ
room p = p.capacity - p.size

module _ (stop : Bool) (buf : Bytes) (written : ℕ) (p : PipeBuffer)
    (reader : p.read_end_open ≡ true) (fuel : ℕ) where
  abbrev left : Bytes
  left = drop written buf

  -- The round that copies all that is left.
  loop_all :
      (atomic : Bool)
      → written ≤ length buf
      → leb (if atomic then length buf else 1) (room p) ≡ true
      → length left ≤ room p
      → write_loop (suc fuel) atomic stop buf written p
        ≡ returned (count (length buf)) (put_bytes left p)
  unfolding write_loop
  loop_all atomic le need fits =
      let n : min (room p) (length buf - written) ≡ length buf - written =
        omega (arith, length-drop written buf) in
      let all : take (length buf - written) left ≡ left =
        take_all (length buf - written) left (omega (arith, length-drop written buf)) in
      let e : written + (length buf - written) ≡ length buf = omega arith in
      let t : (length buf == length buf) ≡ true = ground arith in
      rw (n, reader, need, all, e, t) refl

  -- The round that fills the pipe, and Goes on.
  loop_part :
      1 ≤ room p
      → room p < length left
      → write_loop (suc fuel) false stop buf written p
        ≡ write_loop fuel false stop buf (written + room p) (put_bytes (take (room p) left) p)
  unfolding write_loop
  loop_part some_room over =
      let n : min (room p) (length buf - written) ≡ room p =
        omega (arith, length-drop written buf) in
      let t : leb 1 (room p) ≡ true = ground arith in
      let u : (written + room p == length buf) ≡ false = ground (arith, length-drop written buf) in
      rw (n, reader, t, u) refl

  -- The round that finds too little room.
  loop_stuck :
      (atomic : Bool)
      → leb (if atomic then length buf else 1) (room p) ≡ false
      → write_loop (suc fuel) atomic stop buf written p
        ≡ (if stop then returned (written_or written io_interrupted) p else waiting written p)
  unfolding write_loop
  loop_stuck atomic need = rw (reader, need) refl

-- The round that finds no reader.
loop_broken :
    (stop : Bool) (buf : Bytes) (written : ℕ) (p : PipeBuffer) (fuel : ℕ) (atomic : Bool)
    → p.read_end_open ≡ false
    → write_loop (suc fuel) atomic stop buf written p
      ≡ returned (written_or written io_broken_pipe) p
unfolding write_loop
loop_broken stop buf written p fuel atomic closed = simp closed refl

-- A call that has begun: it has bytes left, and has written none if it is atomic.
pub record InProgress (buf : Bytes) (written : ℕ) (p : PipeBuffer) : Type 0 where
  pub below : is_empty buf ≡ false → written < length buf
  pub whole : is_atomic (length buf) p ≡ true → written ≡ 0

abbrev with_queue : PipeBuffer → Bytes → Channel
with_queue p queue = record (view p) { queue = queue }

view-put_bytes :
    (xs : Bytes) (p : PipeBuffer)
    → IsValid p
    → p.size + length xs ≤ p.capacity
    → view (put_bytes xs p) ≡ with_queue p (contents p ++ xs)
unfolding put_bytes
view-put_bytes xs p v h = ap (with_queue p) (contents-put_bytes xs p v h)

abbrev stuck : Bool → ℕ → PipeBuffer → WriteOutcome PipeBuffer
stuck stop written p =
    if stop then returned (written_or written io_interrupted) p else waiting written p

stuck-view :
    (stop : Bool) (written : ℕ) (p : PipeBuffer)
    → map_outcome view (stuck stop written p) ≡ interrupted_or_waiting stop written (view p)
stuck-view true written p = refl
stuck-view false written p = refl

put_bytes_fields :
    (xs : Bytes) (p : PipeBuffer)
    → ((put_bytes xs p).read_end_open ≡ p.read_end_open)
      × (room (put_bytes xs p) ≡ p.capacity - (p.size + length xs))
unfolding put_bytes
put_bytes_fields xs p = (refl, refl)

write-eq-loop :
    (stop : Bool) (buf : Bytes) (written : ℕ) (p : PipeBuffer)
    → is_empty buf ≡ false
    → write stop buf written p ≡ write_loop 2 (is_atomic (length buf) p) stop buf written p
unfolding write
write-eq-loop stop buf written p more = simp more refl

module _ (stop : Bool) (buf : Bytes) (written : ℕ) (p : PipeBuffer) (v : IsValid p)
    (more : is_empty buf ≡ false) (reader : p.read_end_open ≡ true)
    (busy : InProgress buf written p) where
  length-left : length (drop written buf) ≡ length buf - written
  length-left = length-drop written buf

  abbrev Goes : Type 0
  Goes = map_outcome view (write stop buf written p) ≡ send stop buf written (view p)

  free : (view p).bound - length (view p).queue ≡ room p
  free = ap (λ n. p.capacity - n) (length-contents p)

  send_fits : length (drop written buf) ≤ room p → Goes
  send_fits fits =
      let lt : written < length buf = busy.below more in
      let need : leb (if is_atomic (length buf) p then length buf else 1) (room p) ≡ true =
        ground (arith, busy.whole, length-left) in
      ap (map_outcome view) (
        write-eq-loop stop buf written p more
        ∙ loop_all stop buf written p reader 1 (is_atomic (length buf) p) (omega arith) need fits)
      ∙ ap (returned (count (length buf)))
          (view-put_bytes (drop written buf) p v (omega (arith, v.fits)))
      ∙ sym (send_all stop buf written (view p) more reader (le→leb _ _ (omega (arith, free))))

  send_atomic : room p < length (drop written buf) → is_atomic (length buf) p ≡ true → Goes
  send_atomic over atomic =
      let zero_written : written ≡ 0 = busy.whole atomic in
      let need : leb (length buf) (room p) ≡ false = ground (arith, length-left) in
      ap (map_outcome view) (
        write-eq-loop stop buf written p more
        ∙ ap (λ a. write_loop 2 a stop buf written p) atomic
        ∙ loop_stuck stop buf written p reader 1 true need)
      ∙ stuck-view stop written p
      ∙ sym (send_none stop buf written (view p) more reader (ground (arith, free)) atomic)

  -- The outcome that copies `r` bytes and finds the pipe full.
  abbrev partly : ℕ → WriteOutcome Channel
  partly r =
      interrupted_or_waiting stop (written + r)
        (with_queue p (contents p ++ take r (drop written buf)))

  partly_none : partly 0 ≡ interrupted_or_waiting stop written (view p)
  partly_none =
      ap₂ (λ w q. interrupted_or_waiting stop w (with_queue p q)) (omega arith)
        (append-nil (contents p))

  -- The second round of a write that filled the pipe.
  filled :
      1 ≤ room p
      → room p < length (drop written buf)
      → map_outcome view (write_loop 2 false stop buf written p) ≡ partly (room p)
  filled some_room over =
      let xs : Bytes = take (room p) (drop written buf) in
      let n : length xs ≡ room p = omega (arith, length-take (room p) (drop written buf)) in
      let fields = put_bytes_fields xs p in
      let full : leb 1 (room (put_bytes xs p)) ≡ false = ground (arith, fields.1, v.fits) in
      ap (map_outcome view) (
        loop_part stop buf written p reader 1 some_room over
        ∙ loop_stuck stop buf (written + room p) (put_bytes xs p) (fields.0 ∙ reader) 0 false full)
      ∙ stuck-view stop (written + room p) (put_bytes xs p)
      ∙ ap (interrupted_or_waiting stop (written + room p))
          (view-put_bytes xs p v (omega (arith, v.fits)))

  no_room : room p ≡ 0 → map_outcome view (write_loop 2 false stop buf written p) ≡ partly (room p)
  no_room none_left =
      ap (map_outcome view) (loop_stuck stop buf written p reader 1 false (ground arith))
      ∙ stuck-view stop written p
      ∙ sym partly_none
      ∙ ap partly (sym none_left)

  send_parts : room p < length (drop written buf) → is_atomic (length buf) p ≡ false → Goes
  send_parts over parts =
      ap (map_outcome view)
        (write-eq-loop stop buf written p more ∙ ap (λ a. write_loop 2 a stop buf written p) parts)
      ∙ (elim (dec_le 1 (room p)) [
        | yes some_room ↦ filled some_room over
        | no h ↦ no_room (omega arith)
      ])
      ∙ ap partly (sym free)
      ∙ sym (send_some stop buf written (view p) more reader (ground (arith, free)) parts)

  sends_open : Goes
  sends_open = elim (dec_le (length (drop written buf)) (room p)) [
    | yes fits ↦ send_fits fits
    | no over ↦ elim (Bool-cases (is_atomic (length buf) p)) [
      | inl atomic ↦ send_atomic (omega arith) atomic
      | inr parts ↦ send_parts (omega arith) parts
    ]
  ]

-- Writing is sending on the queue: the same result or wait, and the same queue left. The two
-- rounds of the loop are enough for every write.
pub write-view :
    (stop : Bool) (buf : Bytes) (written : ℕ) (p : PipeBuffer)
    → IsValid p
    → InProgress buf written p
    → map_outcome view (write stop buf written p) ≡ send stop buf written (view p)
write-view stop buf written p v busy = elim (Bool-cases (is_empty buf)) [
  | inl done ↦ unfold write send in simp done refl
  | inr more ↦ elim (Bool-cases p.read_end_open) [
    | inl reader ↦ sends_open stop buf written p v more reader busy
    | inr closed ↦
        ap (map_outcome view) (
          write-eq-loop stop buf written p more
          ∙ loop_broken stop buf written p 1 (is_atomic (length buf) p) closed)
        ∙ sym (send_broken stop buf written (view p) more closed)
  ]
]
