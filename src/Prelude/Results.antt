-- ===== src/Prelude/Results.antt =====
-- `Result` of Rust's core library, and a split on an option that keeps the equation.
pub data Result {ℓ κ} (A : Type ℓ) (E : Type κ) : Type (ℓ ⊔ κ) where
  ok : A → Result A E
  err : E → Result A E
