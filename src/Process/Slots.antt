-- ===== src/Process/Slots.antt =====
-- The slots of a table of src/components/HaisosOS/ProcessFileIO.cpp before and after a call.
use haisos.Common.{
  ℕ, zero, suc, ◌+◌, ◌≤◌, ◌<◌, Option, none, some, [], ◌∷◌, ◌++◌, ◌≡◌, ◌≢◌, ◌⊎◌, inl, inr, refl, ap,
  ◌∙◌, length, replicate, arith,
}
use haisos.Process.{Table, slot, set_slot, next_hole}

module _ {D : Type 0} where
  pub slot-set_slot :
      (n : ℕ) (v : Option D) (t : Table D) → n < length t → slot n (set_slot n v t) ≡ v
  slot-set_slot n v [] h = absurd (omega (arith, h))
  slot-set_slot zero v (e ∷ t) h = refl
  slot-set_slot (suc n) v (e ∷ t) h = slot-set_slot n v t (omega (arith, h))

  pub slot-other :
      (n m : ℕ) (v : Option D) (t : Table D) → m ≢ n → slot m (set_slot n v t) ≡ slot m t
  slot-other n m v [] h = refl
  slot-other zero zero v (e ∷ t) h = absurd (h refl)
  slot-other zero (suc m) v (e ∷ t) h = refl
  slot-other (suc n) zero v (e ∷ t) h = refl
  slot-other (suc n) (suc m) v (e ∷ t) h = slot-other n m v t (λ k. h (ap suc k))

  pub length-set_slot : (n : ℕ) (v : Option D) (t : Table D) → length (set_slot n v t) ≡ length t
  length-set_slot n v [] = refl
  length-set_slot zero v (e ∷ t) = refl
  length-set_slot (suc n) v (e ∷ t) = ap suc (length-set_slot n v t)

  pub slot-snoc : (v : Option D) (t : Table D) → slot (length t) (t ++ v ∷ []) ≡ v
  slot-snoc v [] = refl
  slot-snoc v (e ∷ t) = slot-snoc v t

  pub slot-before :
      (m : ℕ) (v : Option D) (t : Table D) → m ≢ length t → slot m (t ++ v ∷ []) ≡ slot m t
  slot-before zero v [] h = absurd (h refl)
  slot-before (suc m) v [] h = refl
  slot-before zero v (e ∷ t) h = refl
  slot-before (suc m) v (e ∷ t) h = slot-before m v t (λ k. h (ap suc k))

  pub slot-beyond : (m : ℕ) (t : Table D) → length t ≤ m → slot m t ≡ none
  slot-beyond m [] h = refl
  slot-beyond zero (e ∷ t) h = absurd (omega (arith, h))
  slot-beyond (suc m) (e ∷ t) h = slot-beyond m t (omega (arith, h))

  slot-replicate : (m k : ℕ) → slot m (replicate {A = Option D} k none) ≡ none
  slot-replicate m zero = refl
  slot-replicate zero (suc k) = refl
  slot-replicate (suc m) (suc k) = slot-replicate m k

  pub slot-grown : (m k : ℕ) (t : Table D) → slot m (t ++ replicate k none) ≡ slot m t
  slot-grown m k [] = slot-replicate m k
  slot-grown zero k (e ∷ t) = refl
  slot-grown (suc m) k (e ∷ t) = slot-grown m k t

  some-none : (d : D) → Option.some d ≢ none
  some-none d e = cc

  -- A table without a hole.
  abbrev pub Taken : Table D → Type 0
  Taken t = (m : ℕ) → m < length t → slot m t ≢ none

  -- Its first hole.
  abbrev pub FirstHole : ℕ → Table D → Type 0
  FirstHole k t = (k < length t) × (slot k t ≡ none) × ((m : ℕ) → m < k → slot m t ≢ none)

  cons-Taken : (d : D) (t : Table D) → Taken t → Taken (some d ∷ t)
  cons-Taken d t all zero h = λ e. some-none d e
  cons-Taken d t all (suc m) h = all m (omega (arith, h))

  below-cons :
      (d : D) (t : Table D) (k : ℕ)
      → ((m : ℕ) → m < k → slot m t ≢ none)
      → (m : ℕ) → m < suc k
      → slot m (some d ∷ t) ≢ none
  below-cons d t k below zero h = λ e. some-none d e
  below-cons d t k below (suc m) h = below m (omega (arith, h))

  pub next_hole-answers :
      (i : ℕ) (t : Table D)
      → ((next_hole i t ≡ none) × Taken t)
        ⊎ ((k : ℕ) × (next_hole i t ≡ some (i + k)) × FirstHole k t)
  unfolding next_hole
  next_hole-answers i [] = inl (refl, λ m h. absurd (omega (arith, h)))
  next_hole-answers i (none ∷ t) =
      inr (0, ap some (omega arith), (omega arith, refl, λ m h. absurd (omega (arith, h))))
  next_hole-answers i (some d ∷ t) = elim (next_hole-answers (suc i) t) [
    | inl (e, all) ↦ inl (e, cons-Taken d t all)
    | inr (k, e, (l, free, below)) ↦
        inr (suc k, e ∙ ap some (omega arith), (omega (arith, l), free, below-cons d t k below))
  ]
