-- ===== src/Hsh/UnboundedPipe/Queue.antt =====
-- What a pipe without a capacity promises: the queue of the bytes that are written and not read,
-- with no buffer and no offset.
use haisos.Common.{
  ℕ, min, Bool, true, false, not, Option, none, some, List, [], ◌∷◌, ◌++◌, ◌==◌, if◌then◌else◌,
  Bytes, take, drop, length, is_empty,
}
use haisos.Hsh.UnboundedPipe.{
  Return, count, io_error, io_interrupted, io_broken_pipe, Call, reading, writing, releasing,
  read_end, write_end,
}

pub record Queue : Type 0 where
  pub pending : Bytes
  pub has_reader : Bool
  pub has_writer : Bool

abbrev pub fresh : Queue
fresh = record { pending = []; has_reader = true; has_writer = true }

-- A read takes what is there up to its count; of an empty queue it ends the file, is interrupted, or
-- waits.
unfoldable pub receive : ℕ → Bool → Queue → Option Return × Queue
receive n stop q =
    let m = min n (length q.pending) in
    if n == 0
    then (some (count 0, []), q)
    else if not (is_empty q.pending)
    then (some (count m, take m q.pending), record q { pending = drop m q.pending })
    else if not q.has_writer
    then (some (count 0, []), q)
    else if stop
    then (some (io_interrupted, []), q)
    else (none, q)

unfoldable pub serve : Call → Queue → Option Return × Queue
unfolding receive
serve (reading read_end n stop) q = receive n stop q
serve (reading write_end n stop) q = (some (io_error, []), q)
serve (writing read_end buf) q = (some (io_error, []), q)
serve (writing write_end buf) q =
    if is_empty buf
    then (some (count 0, []), q)
    else if q.has_reader
    then (some (count (length buf), []), record q { pending = q.pending ++ buf })
    else (some (io_broken_pipe, []), q)
serve (releasing read_end) q = (some (count 0, []), record q { has_reader = false; pending = [] })
serve (releasing write_end) q = (some (count 0, []), record q { has_writer = false })

-- What the calls of a list return, each of them made on what the calls before left.
unfoldable pub serve_all : List Call → Queue → List (Option Return)
serve_all [] q = []
serve_all (c ∷ cs) q = let (r, q') = serve c q in r ∷ serve_all cs q'
