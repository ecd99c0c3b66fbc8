-- ===== src/Outcome.antt =====
-- What a Python call gives back: a value, or the exception that it raises.
pub data Error : Type 0 where
  -- `KeyError`, `TransitionError`, `LeaseLostError`, `StaleRevisionError`, `ValueError`
  key_error transition_error lease_lost stale_revision value_error : Error
  -- `RuntimeError("... vanished after write")`
  vanished : Error
  -- SQLAlchemy's `MultipleResultsFound` and `IntegrityError`
  multiple_rows integrity_error : Error

pub data Outcome {ℓ} (A : Type ℓ) : Type ℓ where
  ok : A → Outcome A
  err : Error → Outcome A

infixl 5 ◌>>=◌ ◌>>◌
abbrev pub ◌>>=◌ {ℓ κ} : {A : Type ℓ} {B : Type κ} → Outcome A → (A → Outcome B) → Outcome B
ok a >>= f = f a
err e >>= f = err e

abbrev pub ◌>>◌ {ℓ κ} : {A : Type ℓ} {B : Type κ} → Outcome A → Outcome B → Outcome B
m >> k = m >>= λ _. k
