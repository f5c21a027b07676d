-- ===== src/Common/Outcome.antt =====
-- What code that may throw comes back with.

-- `out_of_fuel` belongs to a model alone.
pub data Result {ℓ} (E : Type 0) (A : Type ℓ) : Type ℓ where
  ok : A → Result E A
  err : E → Result E A
  out_of_fuel : Result E A

abbrev pub bind {ℓ κ} :
    {E : Type 0} {A : Type ℓ} {B : Type κ} → Result E A → (A → Result E B) → Result E B
bind (ok a) f = f a
bind (err e) f = err e
bind out_of_fuel f = out_of_fuel
