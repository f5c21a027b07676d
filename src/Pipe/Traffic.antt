-- ===== src/Pipe/Traffic.antt =====
-- Calls on one buffer of src/components/PipeService/Pipe.cpp by any threads, one hold of the mutex at a
-- time: what was read and what is in the buffer is what was written, in order.
use mathlib.Core.Option
use mathlib.Core.Path.{subst}
use haisos.Common.{
  ℕ, ◌≡◌, refl, sym, ap, ◌∙◌, Bool, true, some, ◌++◌, [], append-nil, append_assoc, Bytes,
  Bool-cases, inl, inr,
}
use haisos.Pipe.{
  IoResult, PipeBuffer, create_pipe, read, returned, waiting, write, close_read_end,
  close_write_end,
}
use haisos.Pipe.Valid.{
  IsValid, read-IsValid, close_read_end-IsValid, close_write_end-IsValid, create-IsValid,
}
use haisos.Pipe.Refine.{read-view, read_view}
use haisos.Pipe.Sending.{InProgress, write-view}
use haisos.Pipe.Ring.{ring}
use haisos.Pipe.Channel.{contents, view, map_outcome}
use haisos.Pipe.Progress.{
  progress, between, Hands, write-IsValid, Appended, Progresses, send-Progresses, receive_splits,
}

-- The buffer, and all that was ever written into it and read out of it.
pub record Traffic : Type 0 where
  pub pipe : PipeBuffer
  pub sent : Bytes
  pub received : Bytes

-- A hold of the mutex by some thread. Threads write what they like, where they like.
pub data Step : Traffic → Traffic → Type 0 where
  reads :
      (t : Traffic) (n : ℕ) (stop : Bool) (r : IoResult) (out : Bytes) (p : PipeBuffer)
      → read n stop t.pipe ≡ some (r, out, p)
      → Step t (record t { pipe = p; received = t.received ++ out })
  write_returns :
      (t : Traffic) (stop : Bool) (buf : Bytes) (written : ℕ) (r : IoResult) (p : PipeBuffer)
      → InProgress buf written t.pipe
      → write stop buf written t.pipe ≡ returned r p
      → Step t (record t { pipe = p; sent = t.sent ++ between buf written (progress r written) })
  write_waits :
      (t : Traffic) (stop : Bool) (buf : Bytes) (written n : ℕ) (p : PipeBuffer)
      → InProgress buf written t.pipe
      → write stop buf written t.pipe ≡ waiting n p
      → Step t (record t { pipe = p; sent = t.sent ++ between buf written n })
  reader_closes : (t : Traffic) → Step t (record t { pipe = close_read_end t.pipe })
  writer_closes : (t : Traffic) → Step t (record t { pipe = close_write_end t.pipe })

pub data Reach (s : Traffic) : Traffic → Type 0 where
  here : Reach s s
  next : {t u : Traffic} → Reach s t → Step t u → Reach s u

-- Nothing was ever written or read.
abbrev pub fresh : ℕ → ℕ → Traffic
fresh n open_pipes = record { pipe = (create_pipe n open_pipes).0; sent = []; received = [] }

-- What was sent was received, is in the buffer, or was dropped when the read end closed.
pub record InOrder (t : Traffic) : Type 0 where
  pub valid : IsValid t.pipe
  pub lost : Bytes
  pub order : t.sent ≡ t.received ++ (contents t.pipe ++ lost)
  pub none_lost : t.pipe.read_end_open ≡ true → lost ≡ []

read_order :
    (n : ℕ) (stop : Bool) (p : PipeBuffer) (r : IoResult) (out : Bytes) (p' : PipeBuffer)
    → IsValid p
    → read n stop p ≡ some (r, out, p')
    → (contents p ≡ out ++ contents p') × (p'.read_end_open ≡ p.read_end_open)
read_order n stop p r out p' v h =
    receive_splits n stop (view p) r out (view p')
      (sym (read-view n stop p v) ∙ ap (Option.map read_view) h)

write_order :
    (stop : Bool) (buf : Bytes) (written : ℕ) (p : PipeBuffer)
    → IsValid p
    → InProgress buf written p
    → Progresses buf written (view p) (map_outcome view (write stop buf written p))
write_order stop buf written p v busy =
    subst (Progresses buf written (view p)) (sym (write-view stop buf written p v busy))
      (send-Progresses stop buf written (view p) busy.below)

order_open :
    (sent received c c' xs lost : Bytes)
    → sent ≡ received ++ (c ++ lost)
    → lost ≡ []
    → c' ≡ c ++ xs
    → sent ++ xs ≡ received ++ (c' ++ lost)
order_open sent received c c' xs lost e l q = simp (e, l, q, append-nil, append_assoc)

order_closed :
    (sent received c c' xs lost : Bytes)
    → sent ≡ received ++ (c ++ lost)
    → xs ≡ []
    → c' ≡ c ++ xs
    → sent ++ xs ≡ received ++ (c' ++ lost)
order_closed sent received c c' xs lost e l q = simp (e, l, q, append-nil)

Appended-order :
    (t : Traffic) (p : PipeBuffer) (xs : Bytes)
    → InOrder t
    → IsValid p
    → Appended (view t.pipe) (view p) xs
    → InOrder (record t { pipe = p; sent = t.sent ++ xs })
Appended-order t p xs i v a = record {
  valid = v;
  lost = i.lost;
  order = elim (Bool-cases t.pipe.read_end_open) [
    | inl e ↦ order_open _ t.received _ _ xs i.lost i.order (i.none_lost e) a.queue
    | inr e ↦ order_closed _ t.received _ _ xs i.lost i.order (a.only_read e) a.queue
  ];
  none_lost = λ e. i.none_lost (sym a.reader ∙ e);
}

reader_closes-InOrder :
    (t : Traffic) → InOrder t → InOrder (record t { pipe = close_read_end t.pipe })
unfolding close_read_end contents ring
reader_closes-InOrder t i = record {
  valid = close_read_end-IsValid t.pipe i.valid;
  lost = contents t.pipe ++ i.lost;
  order = i.order;
  none_lost = λ e. cc e;
}

writer_closes-InOrder :
    (t : Traffic) → InOrder t → InOrder (record t { pipe = close_write_end t.pipe })
unfolding close_write_end contents
writer_closes-InOrder t i = record {
  valid = close_write_end-IsValid t.pipe i.valid;
  lost = i.lost;
  order = i.order;
  none_lost = i.none_lost;
}

fresh-InOrder : (n open_pipes : ℕ) → InOrder (fresh n open_pipes)
unfolding create_pipe contents ring
fresh-InOrder n open_pipes = record {
  valid = create-IsValid n open_pipes;
  lost = [];
  order = refl;
  none_lost = λ _. refl;
}

-- Every hold keeps the order.
Step-InOrder : {t u : Traffic} → Step t u → InOrder t → InOrder u
Step-InOrder (reads t n stop r out p h) i =
    let (queue, reader) = read_order n stop t.pipe r out p i.valid h in
    record {
      valid = read-IsValid n stop t.pipe i.valid h;
      lost = i.lost;
      order = i.order ∙ ap (λ c. t.received ++ (c ++ i.lost)) queue ∙ simp append_assoc;
      none_lost = λ e. i.none_lost (sym reader ∙ e);
    }
Step-InOrder (write_returns t stop buf written r p busy h) i =
    Appended-order t p _ i (subst (Hands IsValid) h (write-IsValid stop buf written t.pipe i.valid))
      (subst (λ o. Progresses buf written (view t.pipe) (map_outcome view o)) h
        (write_order stop buf written t.pipe i.valid busy))
Step-InOrder (write_waits t stop buf written n p busy h) i =
    Appended-order t p _ i (subst (Hands IsValid) h (write-IsValid stop buf written t.pipe i.valid))
      (subst (λ o. Progresses buf written (view t.pipe) (map_outcome view o)) h
        (write_order stop buf written t.pipe i.valid busy))
Step-InOrder (reader_closes t) i = reader_closes-InOrder t i
Step-InOrder (writer_closes t) i = writer_closes-InOrder t i

-- Whatever threads read, write and close, in whatever order, what was written is what was read,
-- then what is in the buffer, then what was dropped, and nothing is dropped while the read end
-- is open.
pub Reach-InOrder : (n open_pipes : ℕ) {t : Traffic} → Reach (fresh n open_pipes) t → InOrder t
Reach-InOrder n open_pipes here = fresh-InOrder n open_pipes
Reach-InOrder n open_pipes (next r st) = Step-InOrder st (Reach-InOrder n open_pipes r)
