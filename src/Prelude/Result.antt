-- ===== src/Prelude/Result.antt =====
-- A Python call that returns a value or raises an exception.
pub data Result {ℓ κ} (E : Type ℓ) (A : Type κ) : Type (ℓ ⊔ κ) where
  ok : A → Result E A
  err : E → Result E A
