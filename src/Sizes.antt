-- ===== src/Sizes.antt =====
-- The sizing functions of src/lib.rs, on a 64-bit `usize`.
pub mod Bounds
use cobs_io_async_rs.Prelude.{ℕ, ◌+◌, ◌/◌, ◌%◌, ◌^◌, ◌==◌, if◌then◌else◌}

abbrev pub usize_mod : ℕ
usize_mod = 2 ^ 64

-- `n.div_ceil(d)`, for `d` other than 0.
abbrev pub div_ceil : ℕ → ℕ → ℕ
div_ceil n d = if n % d == 0 then n / d else n / d + 1

unfoldable pub max_encoding_overhead : ℕ → ℕ
max_encoding_overhead source_len = if source_len == 0 then 1 else div_ceil source_len 254

-- The sum wraps where overflow checks are off; `Bounds` has the range in which it does not.
unfoldable pub max_encoding_length : ℕ → ℕ
unfolding max_encoding_overhead
max_encoding_length source_len = (source_len + max_encoding_overhead source_len) % usize_mod
