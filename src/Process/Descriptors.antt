-- ===== src/Process/Descriptors.antt =====
-- What AddDescriptor and Dup2 of src/components/HaisosOS/ProcessFileIO.cpp do to the slots.
use haisos.Common.{
  ℕ, ◌+◌, ◌-◌, ◌≤◌, ◌<◌, true, false, Option, none, some, [], ◌∷◌, ◌++◌, ◌≡◌, ◌≢◌, ◌⊎◌, inl, inr,
  refl, ap, ◌∙◌, ◌==◌, ltb, if◌then◌else◌, length, length-append, length-replicate, replicate,
  arith, Bool-cases,
}
use haisos.Hsh.Number.{pos}
use haisos.Hsh.Test.Primaries.{max_descriptors}
use haisos.Process.{
  Table, slot, set_slot, get_descriptor, next_hole, next_free_slot, add_locked, add_descriptor,
  dup_to, dup2, resize,
}
use haisos.Process.Slots.{
  slot-set_slot, slot-other, slot-snoc, slot-before, slot-beyond, slot-grown, Taken,
  next_hole-answers,
}

grown_from_zero : (n : ℕ) → (if ltb 0 n then n else 0) ≡ n
grown_from_zero n = ground arith

pub eq_self : (n : ℕ) → (n == n) ≡ true
eq_self n = ground arith

module _ {D : Type 0} where
  -- A descriptor put in the lowest free slot, or no change where all the slots there may be are taken.
  pub data Placed (d : D) (t : Table D) : Option ℕ × Table D → Type 0 where
    placed :
        (n : ℕ) (t' : Table D)
        → slot n t ≡ none
        → ((m : ℕ) → m < n → slot m t ≢ none)
        → slot n t' ≡ some d
        → ((m : ℕ) → m ≢ n → slot m t' ≡ slot m t)
        → n < length t ⊎ n < max_descriptors
        → Placed d t (some n, t')
    full : Taken t → max_descriptors ≤ length t → Placed d t (none, t)

  pub next_free-hole : (k : ℕ) (t : Table D) → next_hole 0 t ≡ some k → next_free_slot 0 t ≡ some k
  unfolding next_free_slot
  next_free-hole k t e = rw (next_free_slot, e) refl

  pub next_free-end :
      (t : Table D)
      → next_hole 0 t ≡ none
      → next_free_slot 0 t ≡ (if ltb (length t) max_descriptors then some (length t) else none)
  unfolding next_free_slot
  next_free-end t e = rw (next_free_slot, e) (rw (grown_from_zero (length t)) refl)

  pub add_locked-Placed : (d : D) (t : Table D) → Placed d t (add_locked d t)
  unfolding add_locked
  add_locked-Placed d t = elim (next_hole-answers 0 t) [
    | inr (k, e, (l, free, below)) ↦
        let other : (k == length t) ≡ false = ground (arith, l) in
        rw (add_locked, next_free-hole k t (e ∙ ap some (let z : 0 + k ≡ k = omega arith in z)))
          (rw other (
            placed k (set_slot k (some d) t) free below (slot-set_slot k (some d) t l)
              (λ m h. slot-other k m (some d) t h) (inl l)))
    | inl (e, all) ↦ elim (Bool-cases (ltb (length t) max_descriptors)) [
      | inl b ↦
          rw (add_locked, next_free-end t e, b)
            (rw (eq_self (length t)) (
              placed (length t) (t ++ some d ∷ []) (slot-beyond (length t) t (omega arith)) all
                (slot-snoc (some d) t) (λ m h. slot-before m (some d) t h)
                (inr (ground (arith, b)))))
      | inr b ↦ rw (add_locked, next_free-end t e, b) (full all (ground (arith, b)))
    ]
  ]

  -- AddDescriptor puts a descriptor in the lowest free slot and leaves every other slot as it is, and refuses it
  -- only where all the slots that the table may have are taken.
  pub add_descriptor-Placed : (d : D) (t : Table D) → Placed d t (add_descriptor (some d) t)
  unfolding add_descriptor
  add_descriptor-Placed d t = add_locked-Placed d t

  -- What is left of a slot after Dup2.
  abbrev Copied : ℕ → ℕ → Option D → Table D → Option ℕ × Table D → Type 0
  Copied old new value t r =
      (r.0 ≡ some new) × (slot new r.1 ≡ value) × ((m : ℕ) → m ≢ new → slot m r.1 ≡ slot m t)

  dup_to-Copied :
      (old new : ℕ) (d : D) (t : Table D)
      → slot old t ≡ some d
      → new < max_descriptors
      → Copied old new (some d) t (dup_to (pos old) d new t)
  dup_to-Copied old new d t e l =
      let small : ltb new max_descriptors ≡ true = ground (arith, l) in
      elim (Bool-cases (old == new)) [
        | inl b ↦
            rw (dup_to, small, b)
              (
                refl,
                ap (λ n. slot n t) (let o : new ≡ old = ground (arith, b) in o) ∙ e,
                λ m k. refl,
              )
        | inr b ↦ elim (Bool-cases (ltb new (length t))) [
          | inl c ↦
              rw (dup_to, small, b, c)
                (
                  refl,
                  slot-set_slot new (some d) t (ground (arith, c)),
                  λ m k. slot-other new m (some d) t k,
                )
          | inr c ↦
              rw (dup_to, small, b, c)
                (
                  refl,
                  slot-set_slot new (some d) (resize (new + 1) t) (
                      omega (
                        arith,
                        length-append t (replicate {A = Option D} (new + 1 - length t) none),
                        length-replicate {A = Option D} (new + 1 - length t) none,
                      )),
                  λ m k.
                      slot-other new m (some d) (resize (new + 1) t) k
                      ∙ slot-grown m (new + 1 - length t) t,
                )
        ]
      ]

  dup2-dup_to :
      (old new : ℕ) (d : D) (t : Table D)
      → slot old t ≡ some d
      → dup2 (pos old) (pos new) t ≡ dup_to (pos old) d new t
  unfolding dup2 get_descriptor
  dup2-dup_to old new d t e = rw (dup2, e) refl

  -- Dup2 from a descriptor that is open, to a slot that the table may have, leaves it in both slots and every
  -- other slot as it is.
  pub dup2-Copies :
      (old new : ℕ) (d : D) (t : Table D)
      → slot old t ≡ some d
      → new < max_descriptors
      → ((dup2 (pos old) (pos new) t).0 ≡ some new)
        × (slot new (dup2 (pos old) (pos new) t).1 ≡ some d)
        × ((m : ℕ) → m ≢ new → slot m (dup2 (pos old) (pos new) t).1 ≡ slot m t)
  dup2-Copies old new d t e l = rw (dup2-dup_to old new d t e) (dup_to-Copied old new d t e l)
