-- ===== src/Process/Reach.antt =====
-- The table of src/components/HaisosOS/ProcessFileIO.cpp after any calls.
use haisos.Common.{
  ℕ, ◌+◌, ◌-◌, ◌≤◌, ◌<◌, false, Option, none, some, [], ◌∷◌, ◌≡◌, inl, inr, ap, ◌∙◌, ◌==◌, ltb,
  length, length-append, length-replicate, replicate, arith, Bool-cases, Option-cases,
}
use haisos.Hsh.Number.{ℤ, pos, negsuc}
use haisos.Hsh.Test.Primaries.{max_descriptors}
use haisos.Process.{
  Table, slot, get_descriptor, next_free_slot, add_locked, add_descriptor, dup, dup_to, dup2,
  resize, close_descriptor, all_free, install_standard_streams, create_pipe_slots,
  release_all_descriptors,
}
use haisos.Process.Slots.{length-set_slot, next_hole-answers}
use haisos.Process.Descriptors.{next_free-hole, next_free-end, eq_self}

module _ {D : Type 0} where
  -- The tables that calls lead to from an empty one.
  pub data Reach : Table D → Type 0 where
    start : Reach []
    adds : {t : Table D} → Reach t → (d : Option D) → Reach (add_descriptor d t).1
    dups : {t : Table D} → Reach t → (fd : ℤ) → Reach (dup fd t).1
    copies : {t : Table D} → Reach t → (old new : ℤ) → Reach (dup2 old new t).1
    closes : {t : Table D} → Reach t → (fd : ℤ) → Reach (close_descriptor fd t).1
    installs :
        {t : Table D}
        → Reach t
        → (input output error : D) → Reach (install_standard_streams input output error t).1
    pipes : {t : Table D} → Reach t → (ends : Option (D × D)) → Reach (create_pipe_slots ends t).1
    releases : {t : Table D} → Reach t → Reach (release_all_descriptors t)

  abbrev pub Bounded : Table D → Type 0
  Bounded t = length t ≤ max_descriptors

  add_locked-Bounded : (d : D) (t : Table D) → Bounded t → Bounded (add_locked d t).1
  unfolding add_locked
  add_locked-Bounded d t h = elim (next_hole-answers 0 t) [
    | inr (k, e, (l, free, below)) ↦
        let other : (k == length t) ≡ false = ground (arith, l) in
        rw (add_locked, next_free-hole k t (e ∙ ap some (let z : 0 + k ≡ k = omega arith in z)))
          (rw other (omega (arith, length-set_slot k (some d) t, h)))
    | inl (e, all) ↦ elim (Bool-cases (ltb (length t) max_descriptors)) [
      | inl b ↦
          rw (add_locked, next_free-end t e, b)
            (rw (eq_self (length t)) (
              omega (
                arith,
                length-append t (some d ∷ []),
                let l : length t < max_descriptors = ground (arith, b) in l,
              )))
      | inr b ↦ rw (add_locked, next_free-end t e, b) h
    ]
  ]

  add_descriptor-Bounded : (d : Option D) (t : Table D) → Bounded t → Bounded (add_descriptor d t).1
  unfolding add_descriptor
  add_descriptor-Bounded none t h = h
  add_descriptor-Bounded (some d) t h = add_locked-Bounded d t h

  dup-Bounded : (fd : ℤ) (t : Table D) → Bounded t → Bounded (dup fd t).1
  unfolding dup
  dup-Bounded fd t h = elim (Option-cases (get_descriptor fd t)) [
    | inl e ↦ rw (dup, e) h
    | inr (d, e) ↦ rw (dup, e) (add_locked-Bounded d t h)
  ]

  dup_to-Bounded :
      (old : ℤ) (d : D) (new : ℕ) (t : Table D) → Bounded t → Bounded (dup_to old d new t).1
  dup_to-Bounded old d new t h = elim (Bool-cases (ltb new max_descriptors)) [
    | inr s ↦ rw (dup_to, s) h
    | inl s ↦ elim (Bool-cases (elim old [ pos n ↦ n == new | negsuc n ↦ false ])) [
      | inl b ↦ rw (dup_to, s, b) h
      | inr b ↦ elim (Bool-cases (ltb new (length t))) [
        | inl c ↦ rw (dup_to, s, b, c) (omega (arith, length-set_slot new (some d) t, h))
        | inr c ↦
            rw (dup_to, s, b, c)
              (omega (
                arith,
                length-set_slot new (some d) (resize (new + 1) t),
                length-append t (replicate {A = Option D} (new + 1 - length t) none),
                length-replicate {A = Option D} (new + 1 - length t) none,
                h,
                let l : new < max_descriptors = ground (arith, s) in l,
              ))
      ]
    ]
  ]

  dup2-Bounded : (old new : ℤ) (t : Table D) → Bounded t → Bounded (dup2 old new t).1
  unfolding dup2
  dup2-Bounded old (negsuc n) t h = elim (Option-cases (get_descriptor old t)) [
    | inl e ↦ rw (dup2, e) h
    | inr (d, e) ↦ rw (dup2, e) h
  ]
  dup2-Bounded old (pos n) t h = elim (Option-cases (get_descriptor old t)) [
    | inl e ↦ rw (dup2, e) h
    | inr (d, e) ↦ rw (dup2, e) (dup_to-Bounded old d n t h)
  ]

  close-Bounded : (fd : ℤ) (t : Table D) → Bounded t → Bounded (close_descriptor fd t).1
  unfolding close_descriptor
  close-Bounded (negsuc n) t h = h
  close-Bounded (pos fd) t h = elim (Option-cases (slot fd t)) [
    | inl e ↦ rw (close_descriptor, e) h
    | inr (d, e) ↦ rw (close_descriptor, e) (omega (arith, length-set_slot fd none t, h))
  ]

  install-Bounded :
      (i o e : D) (t : Table D) → Bounded t → Bounded (install_standard_streams i o e t).1
  unfolding install_standard_streams
  install-Bounded i o e t h = elim (Bool-cases (all_free t)) [
    | inl b ↦ rw b (omega arith)
    | inr b ↦ rw b h
  ]

  pipe-Bounded :
      (ends : Option (D × D)) (t : Table D) → Bounded t → Bounded (create_pipe_slots ends t).1
  unfolding create_pipe_slots
  pipe-Bounded none t h = h
  pipe-Bounded (some (r, w)) t h = elim (Option-cases (next_free_slot 0 t)) [
    | inl e ↦ rw (create_pipe_slots, e) h
    | inr (n, e) ↦ elim (Option-cases (next_free_slot (n + 1) t)) [
      | inl f ↦ rw (create_pipe_slots, e, f) h
      | inr (k, f) ↦
          rw (create_pipe_slots, e, f)
            (add_locked-Bounded w (add_locked r t).1 (add_locked-Bounded r t h))
    ]
  ]

  -- Whatever a process calls, its table has no more slots than it may have.
  pub Reach-Bounded : (t : Table D) → Reach t → Bounded t
  unfolding release_all_descriptors
  Reach-Bounded _ start = omega arith
  Reach-Bounded _ (adds {t} r d) = add_descriptor-Bounded d t (Reach-Bounded t r)
  Reach-Bounded _ (dups {t} r fd) = dup-Bounded fd t (Reach-Bounded t r)
  Reach-Bounded _ (copies {t} r old new) = dup2-Bounded old new t (Reach-Bounded t r)
  Reach-Bounded _ (closes {t} r fd) = close-Bounded fd t (Reach-Bounded t r)
  Reach-Bounded _ (installs {t} r i o e) = install-Bounded i o e t (Reach-Bounded t r)
  Reach-Bounded _ (pipes {t} r ends) = pipe-Bounded ends t (Reach-Bounded t r)
  Reach-Bounded _ (releases r) = omega arith
