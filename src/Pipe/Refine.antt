-- ===== src/Pipe/Refine.antt =====
-- The buffer of src/components/PipeService/Pipe.cpp implements the bounded queue of Pipe/Channel.antt.
use native.Mathlib.Nat.{mod-mod}
use haisos.Common.{
  ltb, ◌==◌, ℕ, zero, suc, ◌+◌, ◌-◌, ◌%◌, ◌≤◌, ◌<◌, min, ◌≡◌, refl, sym, ap, ap₂, ◌∙◌, Bool, true,
  false, Option, some, ◌++◌, Bytes, length, arith, is_empty, if◌then◌else◌, take, drop, leb,
}
use mathlib.Core.Option
use haisos.Pipe.{IoResult, count, PipeBuffer, read, put_bytes, ring_read, ReadReturn}
use haisos.Pipe.Ring.{ring, ring_from, length-ring, take-ring, drop-ring}
use haisos.Pipe.Copies.{ring_read-eq-ring}
use haisos.Pipe.Writes.{ring-ring_write}
use haisos.Pipe.Valid.{IsValid, allocated, length-allocated, head-lt}
use haisos.Pipe.Channel.{Channel, contents, view, receive}

pub length-contents : (p : PipeBuffer) → length (contents p) ≡ p.size
unfolding contents
length-contents p = length-ring p.storage p.head p.size

ring_nothing : (a b : Bytes) (h n : ℕ) → n ≡ 0 → ring a h n ≡ ring b h n
unfolding ring
ring_nothing a b h zero e = refl
ring_nothing a b h (suc n) e = absurd (omega arith)

ring-allocated :
    (p : PipeBuffer) → IsValid p → ring (allocated p) p.head p.size ≡ ring p.storage p.head p.size
ring-allocated p v = ground (arith, ring_nothing (allocated p) p.storage p.head p.size)

-- A write puts its bytes behind the contents.
pub contents-put_bytes :
    (xs : Bytes) (p : PipeBuffer)
    → IsValid p
    → p.size + length xs ≤ p.capacity
    → contents (put_bytes xs p) ≡ contents p ++ xs
unfolding contents put_bytes
contents-put_bytes xs p v h =
    let len : length (allocated p) ≡ p.capacity = length-allocated p v in
    let lt : p.head < p.capacity = head-lt p v in
    ring-ring_write (allocated p) p.head p.size xs (omega arith) (omega arith)
    ∙ ap (λ l. l ++ xs) (ring-allocated p v)

abbrev pub read_view : ReadReturn → IoResult × Bytes × Channel
read_view (r, out, p) = (r, out, view p)

-- Read takes the first bytes of the contents.
read_some :
    (p : PipeBuffer) (m : ℕ)
    → IsValid p
    → 0 < p.size
    → m ≤ p.size
    → (ring_read p.storage p.head m ≡ take m (contents p))
      × (ring p.storage ((p.head + m) % length p.storage) (p.size - m) ≡ drop m (contents p))
unfolding contents
read_some p m v pos le =
    let len : length p.storage ≡ p.capacity = ground arith in
    let lt : p.head < p.capacity = head-lt p v in
    (
      ring_read-eq-ring p.storage p.head m (omega arith) (omega arith)
          ∙ sym (take-ring p.storage p.head m p.size le),
      ring_from p.storage ((p.head + m) % length p.storage) (p.head + m) (p.size - m)
            (mod-mod (p.head + m) (length p.storage))
          ∙ sym (drop-ring p.storage p.head m p.size le),
    )

is_empty-contents :
    (p : PipeBuffer) → is_empty (contents p) ≡ (if leb 1 p.size then false else true)
is_empty-contents p = ground (arith, length-contents p)

abbrev received : ℕ → PipeBuffer → Bytes → Bytes → Option (IoResult × Bytes × Channel)
received m p out queue = some (count m, out, record (view p) { queue = queue })

read_full :
    (n : ℕ) (stop : Bool) (p : PipeBuffer)
    → IsValid p
    → 0 < p.size
    → 0 < n
    → Option.map read_view (read n stop p) ≡ receive n stop (view p)
unfolding read receive contents
read_full n stop p v pos npos =
    let m : ℕ = min n p.size in
    let t : (n == 0) ≡ false = ground arith in
    let u : ltb 0 p.size ≡ true = ground arith in
    let w : is_empty (contents p) ≡ false = ground (arith, length-contents p) in
    let parts = read_some p m v pos (omega arith) in
    rw (t, u, w, length-contents p) (ap₂ (received m p) parts.0 parts.1)

-- Reading is receiving from the queue: the same result, the same bytes, the same queue left.
pub read-view :
    (n : ℕ) (stop : Bool) (p : PipeBuffer)
    → IsValid p
    → Option.map read_view (read n stop p) ≡ receive n stop (view p)
unfolding read receive
read-view n stop p v = ground (arith, read_full n stop p v, length-contents p)
