-- ===== src/Protocol/Crc.antt =====
-- CRC-32/ISO-HDLC: `CRC_TABLE` and `crc32` of src/protocol.rs. A `u32` is a number below 2 ^ 32.
pub mod Division
pub mod Detection
use cobs_io_async_rs.Prelude.{
  ℕ, zero, suc, ◌+◌, ◌-◌, ◌/◌, ◌%◌, ◌^◌, ◌<◌, List, [], ◌∷◌, Bytes, get_or, bit_xor, ◌==◌,
  if◌then◌else◌, arith,
}
use mathlib.Core.List.{foldl}

-- One turn of the inner loop: `crc & 1` is `crc % 2`, and `crc >> 1` is `crc / 2`.
unfoldable pub crc_bit : ℕ → ℕ
crc_bit crc = if crc % 2 == 0 then crc / 2 else bit_xor (crc / 2) 0xEDB88320

-- `while bit < 8`, by the turns left.
pub crc_bits : ℕ → ℕ → ℕ
unfolding crc_bit
crc_bits zero crc = crc
crc_bits (suc turns) crc = crc_bits turns (crc_bit crc)

unfoldable pub crc_entry : ℕ → ℕ
unfolding crc_bits
crc_entry i = crc_bits 8 i

-- `while i < 256`, by the entries left.
crc_entries : ℕ → ℕ → List ℕ
unfolding crc_entry
crc_entries zero i = []
crc_entries (suc left) i = crc_entry i ∷ crc_entries left (i + 1)

unfoldable pub crc_table : List ℕ
unfolding crc_entries
crc_table = crc_entries 256 0

-- `CRC_TABLE[usize::from((crc as u8) ^ byte)] ^ (crc >> 8)`
unfoldable pub crc_byte : ℕ → ℕ → ℕ
unfolding crc_table
crc_byte crc byte = bit_xor (get_or crc_table (bit_xor (crc % 256) byte) 0) (crc / 256)

-- `!x` of a `u32`.
abbrev pub complement : ℕ → ℕ
complement x = 2 ^ 32 - 1 - x

unfoldable pub crc32 : Bytes → ℕ
unfolding crc_byte
crc32 bytes = complement (foldl crc_byte (complement 0) bytes)

pub crc32-lt : (bytes : Bytes) → crc32 bytes < 2 ^ 32
unfolding crc32
crc32-lt bytes = omega arith
