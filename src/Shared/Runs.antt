-- ===== src/Shared/Runs.antt =====
-- Finite runs of a step relation, one step after the other.
module _ {S : Type 0} where
  pub data Run (step : S → S → Type 0) (a : S) : S → Type 0 where
    start : Run step a a
    next : (b c : S) → Run step a b → step b c → Run step a c

  -- What every step keeps, every run keeps.
  pub run_keeps :
      (step : S → S → Type 0) (P : S → Type 0)
      → ((a b : S) → P a → step a b → P b)
      → (a b : S) → P a
      → Run step a b
      → P b
  run_keeps step P keep a _ h start = h
  run_keeps step P keep a c h (next b _ r z) = keep b c (run_keeps step P keep a b h r) z
