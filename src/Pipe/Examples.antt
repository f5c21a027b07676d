-- ===== src/Pipe/Examples.antt =====
-- Runs of src/components/PipeService/Pipe.cpp, and the theorems about it at concrete buffers.
use mathlib.Core.Option
use haisos.Common.{true, false, ◌≡◌, refl, some, ◌++◌, [], codes, arith, ◌∷◌}
use haisos.Pipe.{
  PipeBuffer, create, read, write, write_loop, count, io_broken_pipe, returned, waiting,
  close_read_end, create_pipe,
}
use haisos.Pipe.Valid.{IsValid}
use haisos.Pipe.Ring.{ring}
use haisos.Pipe.Channel.{contents, view, receive, send, map_outcome}
use haisos.Pipe.Refine.{read-view, read_view}
use haisos.Pipe.Sending.{write-view}
use haisos.Pipe.Traffic.{
  Traffic, fresh, Reach, InOrder, Reach-InOrder, here, next, reads, write_returns,
}

-- A ring of five bytes whose three stand round its end.
abbrev wrapped : PipeBuffer
wrapped = record {
  storage = codes "cxxab";
  head = 3;
  size = 3;
  read_end_open = true;
  write_end_open = true;
  capacity = 5;
}

contents-wrapped : contents wrapped ≡ codes "abc"
unfolding contents ring
contents-wrapped = refl

wrapped-IsValid : IsValid wrapped
wrapped-IsValid = ground arith

-- A write that fits goes in behind, round the end.
write_wraps :
    write false (codes "de") 0 wrapped
    ≡ returned (count 2) (record wrapped { storage = codes "cdeab"; size = 5 })
unfolding write write_loop
write_wraps = refl

-- An atomic write that does not fit waits, and puts nothing in.
write_atomic : write false (codes "defg") 0 wrapped ≡ waiting 0 wrapped
unfolding write write_loop
write_atomic = refl

write_broken :
    write false (codes "d") 0 (close_read_end wrapped)
    ≡ returned io_broken_pipe (close_read_end wrapped)
unfolding write write_loop close_read_end
write_broken = refl

read-view_example : Option.map read_view (read 2 false wrapped) ≡ receive 2 false (view wrapped)
read-view_example = read-view 2 false wrapped wrapped-IsValid

-- Six bytes do not fit a capacity of five, so this write goes in parts.
write-view_example :
    map_outcome view (write false (codes "defghi") 0 wrapped)
    ≡ send false (codes "defghi") 0 (view wrapped)
write-view_example =
    write-view false (codes "defghi") 0 wrapped wrapped-IsValid
      (record { below = λ e. omega arith; whole = λ e. refl })

-- Three bytes written into a fresh pipe of five, and two read out of it.
abbrev holding_three : PipeBuffer
holding_three = record (create 5) { storage = codes "abc" ++ 0 ∷ 0 ∷ []; size = 3 }

abbrev holding_one : PipeBuffer
holding_one = record holding_three { head = 2; size = 1 }

write_first : write false (codes "abc") 0 (fresh 5 0).pipe ≡ returned (count 3) holding_three
unfolding write write_loop create_pipe
write_first = refl

read_next : read 2 false holding_three ≡ some (count 2, codes "ab", holding_one)
unfolding read
read_next = refl

abbrev one_left : Traffic
one_left = record { pipe = holding_one; sent = codes "abc"; received = codes "ab" }

one_left_reached : Reach (fresh 5 0) one_left
one_left_reached =
    next
      (next here (
        write_returns (fresh 5 0) false (codes "abc") 0 (count 3) holding_three
          (record { below = λ e. omega arith; whole = λ e. refl }) write_first))
      (reads (record { pipe = holding_three; sent = codes "abc"; received = [] }) 2 false (count 2)
        (codes "ab") holding_one read_next)

Reach-InOrder_example : InOrder one_left
Reach-InOrder_example = Reach-InOrder 5 0 one_left_reached
