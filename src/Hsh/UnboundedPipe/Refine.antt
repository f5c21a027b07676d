-- ===== src/Hsh/UnboundedPipe/Refine.antt =====
-- The buffer of src/components/BuiltinCommands/commands/hsh/HshUnboundedPipe.cpp is a queue: the offset
-- and the compaction do not show.
use haisos.Common.{
  ℕ, zero, suc, ◌+◌, ◌-◌, ◌*◌, ◌≤◌, ◌<◌, min, Bool, true, ◌≡◌, refl, Option, List, [], ◌∷◌, ◌++◌,
  arith, ◌⊎◌, Bytes, drop, length, drop-drop, drop_all, length-drop, is_empty, length-append,
  append-nil,
}
use haisos.Hsh.UnboundedPipe.{
  UnboundedPipeBuffer, create_unbounded_pipe, Return, consume, read, write, close_read_end,
  close_write_end, call, Call, reading, writing, releasing, read_end, write_end,
  compaction_threshold,
}
use haisos.Hsh.UnboundedPipe.Queue.{Queue, fresh, receive, serve, serve_all}

abbrev pub contents : UnboundedPipeBuffer → Bytes
contents p = drop p.read_offset p.bytes

abbrev pub view : UnboundedPipeBuffer → Queue
view p = record {
  pending = contents p;
  has_reader = p.read_end_open;
  has_writer = p.write_end_open;
}

-- The offset is inside the bytes, the consumed ones are freed when they are all, and past the
-- threshold they are never more than the half.
pub record IsValid (p : UnboundedPipeBuffer) : Type 0 where
  pub inside : p.read_offset ≤ length p.bytes
  pub drained : p.read_offset ≡ length p.bytes → p.bytes ≡ []
  pub compact : (p.read_offset < compaction_threshold) ⊎ (2 * p.read_offset ≤ length p.bytes)

drop-append_le : (n : ℕ) (xs ys : Bytes) → n ≤ length xs → drop n (xs ++ ys) ≡ drop n xs ++ ys
drop-append_le zero xs ys h = refl
drop-append_le (suc n) [] ys h = absurd (omega arith)
drop-append_le (suc n) (x ∷ xs) ys h = drop-append_le n xs ys (omega arith)

is_empty_iff : (xs : Bytes) → is_empty xs ≡ true → length xs ≡ 0
is_empty_iff [] h = refl
is_empty_iff (x ∷ xs) h = cc

contents-consume :
    (offset : ℕ) (p : UnboundedPipeBuffer)
    → offset ≤ length p.bytes
    → contents (consume offset p) ≡ drop offset p.bytes
unfolding consume
contents-consume offset p h = ground (arith, drop_all offset p.bytes)

view-consume :
    (offset : ℕ) (p : UnboundedPipeBuffer)
    → offset ≤ length p.bytes
    → view (consume offset p) ≡ record {
      pending = drop offset p.bytes;
      has_reader = p.read_end_open;
      has_writer = p.write_end_open;
    }
unfolding consume
view-consume offset p h = ground (arith, drop_all offset p.bytes)

consume-IsValid :
    (offset : ℕ) (p : UnboundedPipeBuffer) → offset ≤ length p.bytes → IsValid (consume offset p)
unfolding consume
consume-IsValid offset p h = ground (arith, length-drop offset p.bytes)

pub read-IsValid :
    (n : ℕ) (stop : Bool) (p : UnboundedPipeBuffer) → IsValid p → IsValid (read n stop p).1
unfolding read
read-IsValid n stop p v =
    ground (arith, v, consume-IsValid (p.read_offset + min n (length p.bytes - p.read_offset)) p)

pub read-view :
    (n : ℕ) (stop : Bool) (p : UnboundedPipeBuffer)
    → IsValid p
    → let (r, q) = read n stop p in (r, view q) ≡ receive n stop (view p)
unfolding read receive
read-view n stop p v = ground (
  arith,
  v,
  length-drop p.read_offset p.bytes,
  is_empty_iff (contents p),
  drop-drop (min n (length p.bytes - p.read_offset)) p.read_offset p.bytes,
  view-consume (p.read_offset + min n (length p.bytes - p.read_offset)) p,
)

-- A call through an end returns what the queue of the pipe returns, and leaves the queue that it
-- leaves.
call-view :
    (c : Call) (p : UnboundedPipeBuffer)
    → IsValid p
    → let (r, q) = call c p in (r, view q) ≡ serve c (view p)
unfolding call serve write close_read_end close_write_end
call-view (reading read_end n stop) p v = read-view n stop p v
call-view (reading write_end n stop) p v = refl
call-view (writing read_end buf) p v = refl
call-view (writing write_end buf) p v =
    ground (arith, drop-append_le p.read_offset p.bytes buf v.inside)
call-view (releasing read_end) p v = refl
call-view (releasing write_end) p v = refl

pub write-IsValid : (buf : Bytes) (p : UnboundedPipeBuffer) → IsValid p → IsValid (write buf p).1
unfolding write
write-IsValid buf p v = ground (arith, v, v.inside, v.drained, v.compact, length-append p.bytes buf)

pub close-IsValid : (p : UnboundedPipeBuffer) → IsValid p → IsValid (close_write_end p)
unfolding close_write_end
close-IsValid p v = ground (arith, v)

call-IsValid : (c : Call) (p : UnboundedPipeBuffer) → IsValid p → IsValid (call c p).1
unfolding call close_read_end close_write_end
call-IsValid (reading read_end n stop) p v = read-IsValid n stop p v
call-IsValid (reading write_end n stop) p v = v
call-IsValid (writing read_end buf) p v = v
call-IsValid (writing write_end buf) p v = write-IsValid buf p v
call-IsValid (releasing read_end) p v = ground arith
call-IsValid (releasing write_end) p v = close-IsValid p v

-- What the calls of a list return, each of them made on what the calls before left.
unfoldable pub call_all : List Call → UnboundedPipeBuffer → List (Option Return)
call_all [] p = []
call_all (c ∷ cs) p = let (r, q) = call c p in r ∷ call_all cs q

call_all-view :
    (cs : List Call) (p : UnboundedPipeBuffer) → IsValid p → call_all cs p ≡ serve_all cs (view p)
unfolding call_all serve_all
call_all-view [] p v = refl
call_all-view (c ∷ cs) p v =
    rw (call_all-view cs (call c p).1 (call-IsValid c p v), ← call-view c p v) refl

pub create-IsValid : IsValid create_unbounded_pipe
create-IsValid = ground arith

-- No list of calls through the two ends of a new unbounded pipe can be told from the queue of
-- the bytes that are written and not yet read: every call returns what the queue returns, whatever
-- was freed in between.
pub call_all-create : (cs : List Call) → call_all cs create_unbounded_pipe ≡ serve_all cs fresh
call_all-create cs = call_all-view cs create_unbounded_pipe create-IsValid

pub write-view :
    (buf : Bytes) (p : UnboundedPipeBuffer)
    → IsValid p
    → p.read_end_open ≡ true
    → view (write buf p).1
      ≡ record { pending = contents p ++ buf; has_reader = true; has_writer = p.write_end_open }
unfolding write
write-view [] p v h = rw (append-nil, h) refl
write-view (b ∷ buf) p v h = rw (h, drop-append_le p.read_offset p.bytes (b ∷ buf) v.inside) refl
