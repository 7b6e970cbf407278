-- ===== src/Sizes/Bounds.antt =====
-- Where the sizing functions of src/lib.rs are exact, and how they grow.
use Prim.Native.Nat.{max}
use cobs_io_async_rs.Prelude.{ℕ, ◌+◌, ◌/◌, ◌^◌, ◌≤◌, ◌<◌, ◌≡◌, arith}
use cobs_io_async_rs.Sizes.{max_encoding_overhead, max_encoding_length}

pub max_encoding_overhead_bounds :
    (n : ℕ) → (1 ≤ max_encoding_overhead n) × (max_encoding_overhead n ≤ n / 254 + 1)
unfolding max_encoding_overhead
max_encoding_overhead_bounds n = ground arith

-- One code byte for each started block of 254, and one for no bytes.
pub max_encoding_overhead_formula : (n : ℕ) → max_encoding_overhead n ≡ max 1 ((n + 253) / 254)
unfolding max_encoding_overhead
max_encoding_overhead_formula n = ground arith

pub max_encoding_length_exact :
    (n : ℕ) → n < 2 ^ 63 → max_encoding_length n ≡ n + max_encoding_overhead n
unfolding max_encoding_length
max_encoding_length_exact n h = omega (arith, max_encoding_overhead_bounds n)

-- One more byte costs one or two bytes of encoding.
pub max_encoding_overhead-suc :
    (n : ℕ)
    → (max_encoding_overhead n ≤ max_encoding_overhead (n + 1))
      × (max_encoding_overhead (n + 1) ≤ max_encoding_overhead n + 1)
unfolding max_encoding_overhead
max_encoding_overhead-suc n = ground arith
