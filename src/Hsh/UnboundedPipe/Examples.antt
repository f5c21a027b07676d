-- ===== src/Hsh/UnboundedPipe/Examples.antt =====
-- Runs of src/components/BuiltinCommands/commands/hsh/HshUnboundedPipe.cpp, and the theorems about it at
-- concrete calls.
use haisos.Common.{true, false, ◌≡◌, refl, some, none, length, ◌∷◌, [], codes, suc, List, Bytes}
use haisos.Hsh.UnboundedPipe.{
  create_unbounded_pipe, Call, reading, writing, releasing, read_end, write_end, count, io_error,
  io_broken_pipe, call, close_write_end, read_to_end, output, read, write, close_read_end,
}
use haisos.Hsh.UnboundedPipe.Queue.{fresh, serve_all}
use haisos.Hsh.UnboundedPipe.Refine.{call_all, call_all-create}
use haisos.Hsh.UnboundedPipe.Substitution.{read_to_end-written, concat, write_all}

abbrev calls : List Call
calls =
    reading read_end 4 false
    ∷ writing write_end (codes "abcdef")
    ∷ reading read_end 4 false
    ∷ writing read_end (codes "x")
    ∷ releasing read_end
    ∷ writing write_end (codes "y")
    ∷ []

-- A read of an empty pipe waits; then four of the six bytes; an end is not open for the other
-- direction; and nobody is left to read.
calls_return :
    call_all calls create_unbounded_pipe
    ≡ none
      ∷ some (count 6, [])
      ∷ some (count 4, codes "abcd")
      ∷ some (io_error, [])
      ∷ some (count 0, [])
      ∷ some (io_broken_pipe, [])
      ∷ []
unfolding call_all call read write close_read_end
calls_return = refl

call_all-create_example : call_all calls create_unbounded_pipe ≡ serve_all calls fresh
call_all-create_example = call_all-create calls

abbrev outputs : List Bytes
outputs = codes "one\n" ∷ codes "two\n" ∷ []

read_to_end-written_example :
    read_to_end
      (suc (length (concat outputs)))
      true
      []
      (close_write_end (write_all outputs create_unbounded_pipe))
    ≡ output (concat outputs)
read_to_end-written_example = read_to_end-written true outputs
