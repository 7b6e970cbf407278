-- ===== src/Protocol/Payload.antt =====
-- The packet sizes of src/protocol.rs, and `max_payload`.
pub mod Largest
use cobs_io_async_rs.Prelude.{
  ℕ, zero, suc, ◌+◌, ◌-◌, ◌*◌, ◌/◌, ◌^◌, ◌≤◌, ◌<◌, ◌≡◌, ◌≢◌, refl, ◌⊎◌, inl, inr, Bool, true, false,
  ◌&&◌, ltb, leb, if◌then◌else◌, arith,
}
use cobs_io_async_rs.Sizes.{max_encoding_length}

abbrev pub header_len : ℕ
header_len = 1 + 8 + 4

abbrev pub crc_len : ℕ
crc_len = 4

abbrev pub overhead : ℕ
overhead = header_len + crc_len

-- `while len > OVERHEAD && max_encoding_length(len) > body { len -= 1; }`
shrink : ℕ → ℕ → ℕ
shrink body zero = zero
shrink body (suc len) = elim (ltb overhead (suc len) && ltb body (max_encoding_length (suc len))) [
  | true ↦ shrink body len
  | false ↦ suc len
]

-- `checked_sub(2)` fails below 2; the last subtraction saturates at 0, as it does on ℕ.
unfoldable pub max_payload : ℕ → ℕ
unfolding shrink
max_payload capacity = if ltb capacity 2 then 0 else shrink (capacity - 2) (capacity - 2) - overhead
