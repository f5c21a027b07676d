-- ===== src/Pipe/Channel.antt =====
-- What src/components/PipeService/Pipe.cpp promises, with no ring in it: a bounded queue of bytes, as
-- interfaces/IPipeService.h states its rules.
use haisos.Common.{
  ◌≡◌, refl, true, false, ℕ, ◌+◌, ◌-◌, min, Bool, not, Option, none, some, [], ◌++◌, ◌==◌, leb,
  if◌then◌else◌, Bytes, take, drop, length, is_empty,
}
use haisos.Pipe.{
  IoResult, count, io_interrupted, io_broken_pipe, PipeBuffer, WriteOutcome, returned, waiting,
  out_of_fuel, written_or, atomic_write_size,
}
use haisos.Pipe.Ring.{ring}

pub record Channel : Type 0 where
  pub queue : Bytes
  pub reader : Bool
  pub writer : Bool
  pub bound : ℕ

unfoldable pub contents : PipeBuffer → Bytes
contents p = ring p.storage p.head p.size

abbrev pub view : PipeBuffer → Channel
view p = record {
  queue = contents p;
  reader = p.read_end_open;
  writer = p.write_end_open;
  bound = p.capacity;
}

-- A read takes what there is, up to `n` bytes, and waits only at an open and empty channel.
unfoldable pub receive : ℕ → Bool → Channel → Option (IoResult × Bytes × Channel)
receive n stop c =
    if n == 0
    then some (count 0, [], c)
    else if not (is_empty c.queue)
    then (let m = min n (length c.queue) in
        some (count m, take m c.queue, record c { queue = drop m c.queue }))
    else if not c.writer
    then some (count 0, [], c)
    else if stop
    then some (io_interrupted, [], c)
    else none

abbrev pub interrupted_or_waiting : Bool → ℕ → Channel → WriteOutcome Channel
interrupted_or_waiting stop written c =
    if stop then returned (written_or written io_interrupted) c else waiting written c

-- A write of the bytes from `written` on: all of them where they fit; else, an atomic one puts
-- nothing in, and any other what fits.
unfoldable pub send : Bool → Bytes → ℕ → Channel → WriteOutcome Channel
send stop buf written c =
    let room = c.bound - length c.queue in
    let left = drop written buf in
    if is_empty buf
    then returned (count 0) c
    else if not c.reader
    then returned (written_or written io_broken_pipe) c
    else if leb (length left) room
    then returned (count (length buf)) (record c { queue = c.queue ++ left })
    else if leb (length buf) (min atomic_write_size c.bound)
    then interrupted_or_waiting stop written c
    else interrupted_or_waiting stop (written + room)
        (record c { queue = c.queue ++ take room left })

abbrev pub map_outcome : (PipeBuffer → Channel) → WriteOutcome PipeBuffer → WriteOutcome Channel
map_outcome f (returned r p) = returned r (f p)
map_outcome f (waiting n p) = waiting n (f p)
map_outcome f out_of_fuel = out_of_fuel

-- The branches of `send` on a channel that is read.
module _ (stop : Bool) (buf : Bytes) (written : ℕ) (c : Channel) (more : is_empty buf ≡ false)
    (open_end : c.reader ≡ true) where
  pub send_all :
      leb (length (drop written buf)) (c.bound - length c.queue) ≡ true
      → send stop buf written c
        ≡ returned (count (length buf)) (record c { queue = c.queue ++ drop written buf })
  unfolding send
  send_all fits = simp (more, open_end, fits) refl

  pub send_none :
      leb (length (drop written buf)) (c.bound - length c.queue) ≡ false
      → leb (length buf) (min atomic_write_size c.bound) ≡ true
      → send stop buf written c ≡ interrupted_or_waiting stop written c
  unfolding send
  send_none over atomic = simp (more, open_end, over, atomic) refl

  pub send_some :
      leb (length (drop written buf)) (c.bound - length c.queue) ≡ false
      → leb (length buf) (min atomic_write_size c.bound) ≡ false
      → send stop buf written c
        ≡ interrupted_or_waiting stop
            (written + (c.bound - length c.queue))
            (record c { queue = c.queue ++ take (c.bound - length c.queue) (drop written buf) })
  unfolding send
  send_some over parts = simp (more, open_end, over, parts) refl

-- Without a reader nothing is put in.
pub send_broken :
    (stop : Bool) (buf : Bytes) (written : ℕ) (c : Channel)
    → is_empty buf ≡ false
    → c.reader ≡ false
    → send stop buf written c ≡ returned (written_or written io_broken_pipe) c
unfolding send
send_broken stop buf written c more closed = simp (more, closed) refl
