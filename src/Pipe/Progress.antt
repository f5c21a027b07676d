-- ===== src/Pipe/Progress.antt =====
-- How far a call on src/components/PipeService/Pipe.cpp comes in one hold of the mutex.
use haisos.Common.{
  ℕ, zero, suc, ◌+◌, ◌-◌, ◌≤◌, ◌<◌, min, ◌≡◌, refl, sym, ap, ◌∙◌, Bool, true, false, some, ◌++◌, [],
  append-nil, Bytes, length, arith, is_empty, take, drop, take_all, length-drop, length-take,
  take-append-drop,
}
use haisos.Pipe.{
  IoResult, count, PipeBuffer, put_bytes, WriteOutcome, returned, waiting, out_of_fuel, write,
  write_loop, is_atomic, slice,
}
use haisos.Pipe.Valid.{IsValid, put_bytes-IsValid}
use haisos.Pipe.Channel.{Channel, receive, send}

-- What an outcome hands on is valid.
abbrev pub Hands : {S : Type 0} → (S → Type 0) → WriteOutcome S → Type 0
Hands P (returned r s) = P s
Hands P (waiting n s) = P s
Hands P out_of_fuel = Unit {0}

write_loop-IsValid :
    (fuel : ℕ) (atomic stop : Bool) (buf : Bytes) (written : ℕ) (p : PipeBuffer)
    → IsValid p
    → Hands IsValid (write_loop fuel atomic stop buf written p)
unfolding write_loop
write_loop-IsValid zero atomic stop buf written p v = tt
write_loop-IsValid (suc fuel) atomic stop buf written p v =
    let n : ℕ = min (p.capacity - p.size) (length buf - written) in
    let v' : IsValid (put_bytes (take n (drop written buf)) p) =
      put_bytes-IsValid (take n (drop written buf)) p v
        (omega (arith, v.fits, length-take n (drop written buf))) in
    ground (
      arith,
      v',
      write_loop-IsValid fuel atomic stop buf (written + n)
          (put_bytes (take n (drop written buf)) p) v',
    )

pub write-IsValid :
    (stop : Bool) (buf : Bytes) (written : ℕ) (p : PipeBuffer)
    → IsValid p
    → Hands IsValid (write stop buf written p)
unfolding write
write-IsValid stop buf written p v =
    ground (arith, write_loop-IsValid 2 (is_atomic (length buf) p) stop buf written p v)

-- How far a call has come when it returns.
abbrev pub progress : IoResult → ℕ → ℕ
progress (count n) written = n
progress _ written = written

-- The bytes of `buf` from `written` up to `n`.
abbrev pub between : Bytes → ℕ → ℕ → Bytes
between buf written n = slice buf written (n - written)

pub receive_splits :
    (n : ℕ) (stop : Bool) (c : Channel) (r : IoResult) (out : Bytes) (c' : Channel)
    → receive n stop c ≡ some (r, out, c')
    → (c.queue ≡ out ++ c'.queue) × (c'.reader ≡ c.reader)
unfolding receive
receive_splits n stop c r out c' h =
    ground (arith, take-append-drop (min n (length c.queue)) c.queue)

-- What a channel looks like when a call on it has put `xs` in.
pub record Appended (c c' : Channel) (xs : Bytes) : Type 0 where
  pub queue : c'.queue ≡ c.queue ++ xs
  pub reader : c'.reader ≡ c.reader
  pub only_read : c.reader ≡ false → xs ≡ []

between_none : (buf : Bytes) (written n : ℕ) → n ≤ written → between buf written n ≡ []
between_none buf written n h =
    ap (λ k. take k (drop written buf)) (let e : n - written ≡ 0 = omega arith in e)

nothing-Appended :
    (c : Channel) (buf : Bytes) (written n : ℕ) → n ≤ written → Appended c c (between buf written n)
nothing-Appended c buf written n h = record {
  queue = sym (append-nil c.queue) ∙ ap (λ l. c.queue ++ l) (sym (between_none buf written n h));
  reader = refl;
  only_read = λ _. between_none buf written n h;
}

all-Appended :
    (c : Channel) (buf : Bytes) (written : ℕ)
    → c.reader ≡ true
    → Appended c
        (record c { queue = c.queue ++ drop written buf })
        (between buf written (length buf))
all-Appended c buf written h = record {
  queue =
      ap (λ l. c.queue ++ l)
        (sym (
          take_all (length buf - written) (drop written buf)
            (omega (arith, length-drop written buf))));
  reader = refl;
  only_read = λ e. cc (h, e);
}

part-Appended :
    (c : Channel) (buf : Bytes) (written r : ℕ)
    → c.reader ≡ true
    → Appended c
        (record c { queue = c.queue ++ take r (drop written buf) })
        (between buf written (written + r))
part-Appended c buf written r h = record {
  queue = ap (λ k. c.queue ++ take k (drop written buf)) (omega arith);
  reader = refl;
  only_read = λ e. cc (h, e);
}

-- A call that returns or waits has put in the bytes up to where it has come.
abbrev pub Progresses : Bytes → ℕ → Channel → WriteOutcome Channel → Type 0
Progresses buf written c (returned r c') = Appended c c' (between buf written (progress r written))
Progresses buf written c (waiting n c') = Appended c c' (between buf written n)
Progresses buf written c out_of_fuel = Unit {0}

pub send-Progresses :
    (stop : Bool) (buf : Bytes) (written : ℕ) (c : Channel)
    → (is_empty buf ≡ false → written < length buf)
    → Progresses buf written c (send stop buf written c)
unfolding send
send-Progresses stop buf written c below = ground (
  arith,
  nothing-Appended c buf written 0,
  nothing-Appended c buf written written,
  all-Appended c buf written,
  part-Appended c buf written (c.bound - length c.queue),
)
