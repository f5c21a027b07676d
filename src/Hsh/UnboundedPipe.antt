-- ===== src/Hsh/UnboundedPipe.antt =====
-- src/components/BuiltinCommands/commands/hsh/HshUnboundedPipe.cpp: a pipe without a capacity.
-- Each function below is what a call does under the mutex. `stop` is StopRequested() of the calling
-- thread's token, false for a thread that carries none.
pub mod Queue
pub mod Refine
pub mod Substitution
mod Examples
pub use haisos.Interfaces.{IoResult, count, io_error, io_interrupted, io_broken_pipe}
use haisos.Common.{
  ℕ, zero, suc, ◌+◌, ◌/◌, ◌≤◌, min, Bool, true, false, not, ◌&&◌, Option, none, some, List, [], ◌∷◌,
  ◌++◌, ◌-◌, ◌==◌, ltb, leb, if◌then◌else◌, Bytes, take, drop, length, is_empty,
}

-- kCompactionThreshold.
abbrev pub compaction_threshold : ℕ
compaction_threshold = 65536

pub record UnboundedPipeBuffer : Type 0 where
  pub bytes : Bytes
  pub read_offset : ℕ
  pub read_end_open : Bool
  pub write_end_open : Bool

-- CreateUnboundedPipe: the buffer that the two ends share.
abbrev pub create_unbounded_pipe : UnboundedPipeBuffer
create_unbounded_pipe = record {
  bytes = [];
  read_offset = 0;
  read_end_open = true;
  write_end_open = true;
}

-- A call that returns: its result, and the bytes that it put into the caller's buffer.
abbrev pub Return : Type 0
Return = IoResult × Bytes

-- What Read does with the bytes that were read, whose end is |offset|.
unfoldable pub consume : ℕ → UnboundedPipeBuffer → UnboundedPipeBuffer
consume offset p =
    if offset == length p.bytes
    then record p { bytes = []; read_offset = 0 }
    else if leb compaction_threshold offset && ltb (length p.bytes / 2) offset
    then record p { bytes = drop offset p.bytes; read_offset = 0 }
    else record p { read_offset = offset }

-- UnboundedPipeBuffer::Read. `none` is m_canRead.wait: the call tries again when it is notified.
unfoldable pub read : ℕ → Bool → UnboundedPipeBuffer → Option Return × UnboundedPipeBuffer
unfolding consume
read n stop p =
    let m = min n (length p.bytes - p.read_offset) in
    if n == 0
    then (some (count 0, []), p)
    else if ltb p.read_offset (length p.bytes)
    then (some (count m, take m (drop p.read_offset p.bytes)), consume (p.read_offset + m) p)
    else if not p.write_end_open
    then (some (count 0, []), p)
    else if stop
    then (some (io_interrupted, []), p)
    else (none, p)

-- UnboundedPipeBuffer::Write.
unfoldable pub write : Bytes → UnboundedPipeBuffer → IoResult × UnboundedPipeBuffer
write buf p =
    if is_empty buf
    then (count 0, p)
    else if not p.read_end_open
    then (io_broken_pipe, p)
    else (count (length buf), record p { bytes = p.bytes ++ buf })

-- UnboundedPipeBuffer::CloseReadEnd and CloseWriteEnd, by the ends' destructors.
unfoldable pub close_read_end : UnboundedPipeBuffer → UnboundedPipeBuffer
close_read_end p = record p { read_end_open = false; bytes = []; read_offset = 0 }

unfoldable pub close_write_end : UnboundedPipeBuffer → UnboundedPipeBuffer
close_write_end p = record p { write_end_open = false }

-- The two ends, and the calls on an end that the processes make.
pub data End : Type 0 where
  read_end write_end : End

pub data Call : Type 0 where
  reading : End → ℕ → Bool → Call
  writing : End → Bytes → Call
  releasing : End → Call

-- A call through UnboundedReadEnd or UnboundedWriteEnd, with what it returns. The destructors return
-- nothing, for which `count 0` stands.
unfoldable pub call : Call → UnboundedPipeBuffer → Option Return × UnboundedPipeBuffer
call (reading read_end n stop) p = read n stop p
call (reading write_end n stop) p = (some (io_error, []), p)
call (writing read_end buf) p = (some (io_error, []), p)
call (writing write_end buf) p = let (r, q) = write buf p in (some (r, []), q)
call (releasing read_end) p = (some (count 0, []), close_read_end p)
call (releasing write_end) p = (some (count 0, []), close_write_end p)

-- How the loop of RunCommandSubstitution ends: with the output, with ShellStopped, or in a read that
-- waits. `out_of_fuel` belongs to the model alone.
pub data Substituted : Type 0 where
  output : Bytes → Substituted
  shell_stopped waiting out_of_fuel : Substituted

-- The buffer of that loop.
abbrev pub chunk : ℕ
chunk = 4096

-- What that loop does with a read that came back, and the rest of the loop.
abbrev pub after_read :
    Bytes
    → (Bytes → UnboundedPipeBuffer → Substituted)
    → Option Return × UnboundedPipeBuffer
    → Substituted
after_read so_far next (none, q) = waiting
after_read so_far next (some (count zero, bs), q) = output so_far
after_read so_far next (some (count (suc n), bs), q) = next (so_far ++ bs) q
after_read so_far next (some (io_error, bs), q) = output so_far
after_read so_far next (some (io_interrupted, bs), q) = shell_stopped
after_read so_far next (some (io_broken_pipe, bs), q) = output so_far

-- The loop of RunCommandSubstitution (HshShell.cpp) that reads a pipe to its end, with what was read
-- so far.
unfoldable pub read_to_end : ℕ → Bool → Bytes → UnboundedPipeBuffer → Substituted
read_to_end zero stop so_far p = out_of_fuel
read_to_end (suc f) stop so_far p = after_read so_far (read_to_end f stop) (read chunk stop p)
