-- ===== src/Pipe.antt =====
-- src/components/PipeService/Pipe.cpp and PipeService.cpp: a bounded buffer as a ring of bytes, read and
-- written by calls that may wait. Each function below is what a call does under the mutex, from
-- taking it to returning or to waiting on a condition variable. `stop` is StopRequested() of the
-- calling thread's token (src/components/libheaders/StopToken.h), false for a thread that carries none.
pub mod Ring
pub mod Copies
pub mod Writes
pub mod Valid
pub mod Channel
pub mod Refine
pub mod Sending
pub mod Progress
pub mod Traffic
mod Examples
pub use haisos.Interfaces.{IoResult, count, io_error, io_interrupted, io_broken_pipe}
use haisos.Common.{
  ℕ, zero, suc, ◌+◌, ◌-◌, ◌%◌, min, Bool, true, false, not, Option, none, some, List, [], ◌∷◌, ◌++◌,
  ◌==◌, ltb, leb, if◌then◌else◌, Bytes, take, drop, length, replicate, is_empty,
}

-- kDefaultPipeCapacity.
abbrev pub default_capacity : ℕ
default_capacity = 65536

-- kPipeAtomicWriteSize.
abbrev pub atomic_write_size : ℕ
atomic_write_size = 4096

pub record PipeBuffer : Type 0 where
  pub storage : Bytes
  pub head : ℕ
  pub size : ℕ
  pub read_end_open : Bool
  pub write_end_open : Bool
  pub capacity : ℕ

-- The constructor.
abbrev pub create : ℕ → PipeBuffer
create n = record {
  storage = [];
  head = 0;
  size = 0;
  read_end_open = true;
  write_end_open = true;
  capacity = n;
}

-- memcpy out of |st| at |offset|, and into it.
abbrev pub slice : Bytes → ℕ → ℕ → Bytes
slice st offset n = take n (drop offset st)

abbrev pub blit : Bytes → ℕ → Bytes → Bytes
blit st offset bytes = take offset st ++ (bytes ++ drop (offset + length bytes) st)

-- The two memcpys of Read.
unfoldable pub ring_read : Bytes → ℕ → ℕ → Bytes
ring_read st head n =
    let first = min n (length st - head) in
    slice st head first ++ (if ltb first n then slice st 0 (n - first) else [])

-- The two memcpys of Write.
unfoldable pub ring_write : Bytes → ℕ → Bytes → Bytes
ring_write st offset bytes =
    let n = length bytes in
    let first = min n (length st - offset) in
    let once = blit st offset (take first bytes) in
    if ltb first n then blit once 0 (drop first bytes) else once

-- A call that returns: its result, the bytes it put into the caller's buffer, and the pipe.
abbrev pub ReadReturn : Type 0
ReadReturn = IoResult × Bytes × PipeBuffer

-- PipeBuffer::Read. `none` is m_canRead.wait: the call holds nothing and tries again when it is
-- notified.
unfoldable pub read : ℕ → Bool → PipeBuffer → Option ReadReturn
unfolding ring_read
read n stop p =
    if n == 0
    then some (count 0, [], p)
    else if ltb 0 p.size
    then (let m = min n p.size in
        some (
          count m,
          ring_read p.storage p.head m,
          record p { head = (p.head + m) % length p.storage; size = p.size - m },
        ))
    else if not p.write_end_open
    then some (count 0, [], p)
    else if stop
    then some (io_interrupted, [], p)
    else none

-- How a hold of the mutex by PipeBuffer::Write ends. `waiting` carries what was written so far;
-- `out_of_fuel` belongs to the model alone.
pub data WriteOutcome (S : Type 0) : Type 0 where
  returned : IoResult → S → WriteOutcome S
  waiting : ℕ → S → WriteOutcome S
  out_of_fuel : WriteOutcome S

abbrev pub written_or : ℕ → IoResult → IoResult
written_or written r = if ltb 0 written then count written else r

-- The branch of Write that copies |n| bytes in.
unfoldable pub put_bytes : Bytes → PipeBuffer → PipeBuffer
unfolding ring_write
put_bytes bytes p =
    let st = if is_empty p.storage then replicate p.capacity 0 else p.storage in
    record p {
      storage = ring_write st ((p.head + p.size) % length st) bytes;
      size = p.size + length bytes;
    }

-- The loop of PipeBuffer::Write over the whole of the caller's buffer.
unfoldable pub write_loop : ℕ → Bool → Bool → Bytes → ℕ → PipeBuffer → WriteOutcome PipeBuffer
unfolding put_bytes
write_loop zero atomic stop buf written p = out_of_fuel
write_loop (suc fuel) atomic stop buf written p =
    let room = p.capacity - p.size in
    let need = if atomic then length buf else 1 in
    let n = min room (length buf - written) in
    let p' = put_bytes (take n (drop written buf)) p in
    let rest = write_loop fuel atomic stop buf (written + n) p' in
    if not p.read_end_open
    then returned (written_or written io_broken_pipe) p
    else if leb need room
    then (if (written + n) == length buf then returned (count (written + n)) p' else rest)
    else if stop
    then returned (written_or written io_interrupted) p
    else waiting written p

-- Whether a write to |p| of |n| bytes goes in in one piece.
abbrev pub is_atomic : ℕ → PipeBuffer → Bool
is_atomic n p = leb n (min atomic_write_size p.capacity)

-- PipeBuffer::Write from where |written| bytes are in, as it starts and as it wakes. A hold copies
-- at most once, and what comes after a copy fills the pipe, so two rounds are enough.
unfoldable pub write : Bool → Bytes → ℕ → PipeBuffer → WriteOutcome PipeBuffer
write stop buf written p =
    if is_empty buf
    then returned (count 0) p
    else write_loop 2 (is_atomic (length buf) p) stop buf written p

-- PipeBuffer::CloseReadEnd and CloseWriteEnd, by the ends' destructors.
unfoldable pub close_read_end : PipeBuffer → PipeBuffer
close_read_end p = record p { read_end_open = false; storage = []; head = 0; size = 0 }

unfoldable pub close_write_end : PipeBuffer → PipeBuffer
close_write_end p = record p { write_end_open = false }

-- PipeService::CreatePipe: the buffer that the two ends share, and the service's count of pipes.
unfoldable pub create_pipe : ℕ → ℕ → PipeBuffer × ℕ
create_pipe n open_pipes = (create (if n == 0 then default_capacity else n), suc open_pipes)
