-- ===== src/Hsh/UnboundedPipe/Substitution.antt =====
-- The loop of src/components/BuiltinCommands/commands/hsh/HshShell.cpp that reads the output of a
-- command substitution, over the pipe that the commands wrote.
use haisos.Common.{
  ℕ, zero, suc, ◌<◌, min, Bool, true, false, ◌≡◌, refl, ap, ◌∙◌, Option, some, List, [], ◌∷◌, ◌++◌,
  arith, Bytes, take, drop, length, length-drop, take-append-drop, append-nil, append_assoc,
}
use haisos.Hsh.UnboundedPipe.{
  UnboundedPipeBuffer, create_unbounded_pipe, Return, count, read, write, after_read,
  close_write_end, Substituted, output, read_to_end, chunk,
}
use haisos.Hsh.UnboundedPipe.Queue.{Queue, receive}
use haisos.Hsh.UnboundedPipe.Refine.{
  contents, view, IsValid, read-view, read-IsValid, write-IsValid, create-IsValid, write-view,
  close-IsValid,
}

-- The texts of the writes, one behind another.
abbrev pub concat : List Bytes → Bytes
concat [] = []
concat (b ∷ bs) = b ++ concat bs

-- The pipe after the writes of a list.
abbrev pub write_all : List Bytes → UnboundedPipeBuffer → UnboundedPipeBuffer
write_all [] p = p
write_all (b ∷ bs) p = write_all bs (write b p).1

-- A queue that nobody can write to any more.
abbrev pub closed : Bytes → Bool → Queue
closed pending has_reader = record {
  pending = pending;
  has_reader = has_reader;
  has_writer = false;
}

-- What a read of it returns, whatever the token says.
receive-closed :
    (n : ℕ) (stop : Bool) (c : Bytes) (r : Bool)
    → let m = min (suc n) (length c) in
      receive (suc n) stop (closed c r) ≡ (some (count m, take m c), closed (drop m c) r)
unfolding receive
receive-closed n stop [] r = ground arith
receive-closed n stop (x ∷ c) r = ground arith

read-closed :
    (n : ℕ) (stop : Bool) (p : UnboundedPipeBuffer) (c : Bytes) (r : Bool) (m : ℕ)
    → IsValid p
    → view p ≡ closed c r
    → min (suc n) (length c) ≡ m
    → let (a, q) = read (suc n) stop p in
      (a ≡ some (count m, take m c)) × (view q ≡ closed (drop m c) r)
read-closed n stop p c r m v e k =
    let both =
      read-view (suc n) stop p v ∙ (ap (receive (suc n) stop) e ∙ receive-closed n stop c r) in
    (ap (λ x. x.0) both ∙ rw k refl, ap (λ x. x.1) both ∙ rw k refl)

after_read_cong :
    (so_far : Bytes) (next : Bytes → UnboundedPipeBuffer → Substituted) (a : Option Return)
    (x : Option Return × UnboundedPipeBuffer)
    → x.0 ≡ a
    → after_read so_far next x ≡ after_read so_far next (a, x.1)
after_read_cong so_far next a (b, q) e = rw e refl

-- The loop takes a byte or more in every round, until none is left.
read_to_end-closed :
    (f : ℕ) (stop : Bool) (so_far : Bytes) (p : UnboundedPipeBuffer) (c : Bytes) (r : Bool)
    → IsValid p
    → view p ≡ closed c r
    → length c < f
    → read_to_end f stop so_far p ≡ output (so_far ++ c)
unfolding read_to_end
read_to_end-closed zero stop so_far p c r v e h = absurd (omega arith)
read_to_end-closed (suc f) stop so_far p [] r v e h =
    let step = read-closed 4095 stop p [] r 0 v e (omega arith) in
    after_read_cong so_far (read_to_end f stop) _ (read chunk stop p) step.0 ∙ rw append-nil refl
read_to_end-closed (suc f) stop so_far p (x ∷ c) r v e h =
    let m = min 4095 (length c) in
    let got = x ∷ take m c in
    let step = read-closed 4095 stop p (x ∷ c) r (suc m) v e (omega arith) in
    after_read_cong so_far (read_to_end f stop) _ (read chunk stop p) step.0
    ∙ (read_to_end-closed f stop (so_far ++ got) (read chunk stop p).1 (drop m c) r
          (read-IsValid chunk stop p v) step.1 (omega (arith, length-drop m c))
        ∙ rw (append_assoc so_far got (drop m c), take-append-drop m c) refl)

write_all-view :
    (outputs : List Bytes) (p : UnboundedPipeBuffer)
    → IsValid p
    → p.read_end_open ≡ true
    → IsValid (write_all outputs p)
      × (view (write_all outputs p) ≡ record {
        pending = contents p ++ concat outputs;
        has_reader = true;
        has_writer = p.write_end_open;
      })
write_all-view [] p v h = (v, rw (append-nil, h) refl)
write_all-view (b ∷ bs) p v h =
    let once = write-view b p v h in
    let (w, e) = write_all-view bs (write b p).1 (write-IsValid b p v) (ap Queue.has_reader once) in
    (
      w,
      e
          ∙ rw
              (
                ap Queue.pending once,
                ap Queue.has_writer once,
                append_assoc (contents p) b (concat bs),
              )
              refl,
    )

abbrev end_writing : Queue → Queue
end_writing q = record q { has_writer = false }

-- However much the commands of a substitution write before they end, and in however many writes,
-- the loop that reads the pipe afterwards comes to its end with exactly the bytes that were written,
-- one behind another, also when a stop has been requested.
pub read_to_end-written :
    (stop : Bool) (outputs : List Bytes)
    → read_to_end
        (suc (length (concat outputs)))
        stop
        []
        (close_write_end (write_all outputs create_unbounded_pipe))
      ≡ output (concat outputs)
unfolding close_write_end
read_to_end-written stop outputs =
    let (w, e) = write_all-view outputs create_unbounded_pipe create-IsValid refl in
    read_to_end-closed (suc (length (concat outputs))) stop [] _ (concat outputs) true
      (close-IsValid _ w) (ap end_writing e) (omega arith)
