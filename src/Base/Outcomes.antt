-- ===== src/Base/Outcomes.antt =====
-- `anyhow::Result`: an error is the place that raises it.

pub data Result {ℓ} (E : Type 0) (A : Type ℓ) : Type ℓ where
  ok : A → Result E A
  err : E → Result E A
