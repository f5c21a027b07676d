-- ===== src/Pipe/Valid.antt =====
-- What holds of every buffer of src/components/PipeService/Pipe.cpp.
use native.Mathlib.Nat.{mod-lt}
use haisos.Common.{
  min, ◌%◌, ℕ, ◌+◌, ◌≤◌, ◌<◌, ◌≡◌, ◌∙◌, ◌⊎◌, inr, Bool, [], Bytes, length, arith, some,
  length-replicate, is_empty, if◌then◌else◌, replicate,
}
use haisos.Pipe.{
  IoResult, PipeBuffer, read, put_bytes, close_read_end, close_write_end, create_pipe,
}
use haisos.Pipe.Writes.{length-ring_write}

-- The ring is not allocated yet, or it is as long as the capacity.
pub record IsValid (p : PipeBuffer) : Type 0 where
  pub positive : 0 < p.capacity
  pub fits : p.size ≤ p.capacity
  pub backed :
      ((p.storage ≡ []) × (p.size ≡ 0) × (p.head ≡ 0))
      ⊎ ((length p.storage ≡ p.capacity) × (p.head < p.capacity))

pub create-IsValid : (n open_pipes : ℕ) → IsValid (create_pipe n open_pipes).0
unfolding create_pipe
create-IsValid n open_pipes = ground arith

pub read-IsValid :
    (n : ℕ) (stop : Bool) (p : PipeBuffer) {r : IoResult} {out : Bytes} {p' : PipeBuffer}
    → IsValid p
    → read n stop p ≡ some (r, out, p')
    → IsValid p'
unfolding read
read-IsValid n stop p v e = ground (arith, mod-lt (p.head + min n p.size) {m = length p.storage})

-- The storage that a write copies into.
abbrev pub allocated : PipeBuffer → Bytes
allocated p = if is_empty p.storage then replicate p.capacity 0 else p.storage

pub length-allocated : (p : PipeBuffer) → IsValid p → length (allocated p) ≡ p.capacity
length-allocated p v = ground (arith, length-replicate {A = ℕ} p.capacity 0)

pub head-lt : (p : PipeBuffer) → IsValid p → p.head < p.capacity
head-lt p v = ground arith

pub put_bytes-IsValid :
    (xs : Bytes) (p : PipeBuffer)
    → IsValid p
    → p.size + length xs ≤ p.capacity
    → IsValid (put_bytes xs p)
unfolding put_bytes
put_bytes-IsValid xs p v h =
    let len : length (allocated p) ≡ p.capacity = length-allocated p v in
    record {
      positive = v.positive;
      fits = h;
      backed = inr (
        length-ring_write (allocated p) ((p.head + p.size) % length (allocated p)) xs
              (mod-lt (p.head + p.size) (omega arith)) (omega arith)
            ∙ len,
        head-lt p v,
      );
    }

pub close_read_end-IsValid : (p : PipeBuffer) → IsValid p → IsValid (close_read_end p)
unfolding close_read_end
close_read_end-IsValid p v = ground arith

pub close_write_end-IsValid : (p : PipeBuffer) → IsValid p → IsValid (close_write_end p)
unfolding close_write_end
close_write_end-IsValid p v = ground arith
