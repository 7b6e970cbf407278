-- ===== src/Protocol/Packet/Wire.antt =====
-- The bytes of a packet, as the crate's documentation lays them out.
use cobs_io_async_rs.Prelude.{
  ℕ, ◌+◌, ◌≡◌, [], ◌∷◌, ◌++◌, Bytes, length, length-append, to_be_bytes, length-to_be_bytes, arith,
}
use cobs_io_async_rs.Protocol.Crc.{crc32}
use cobs_io_async_rs.Protocol.Packet.{Packet, data_packet, ack_packet, kind_data, kind_ack}

-- kind | session | sequence | payload
abbrev pub body : ℕ → ℕ → ℕ → Bytes → Bytes
body kind session seq payload = kind ∷ (to_be_bytes 8 session ++ (to_be_bytes 4 seq ++ payload))

-- The body and its checksum.
abbrev pub sealed : Bytes → Bytes
sealed b = b ++ to_be_bytes 4 (crc32 b)

abbrev pub packet_bytes : Packet → Bytes
packet_bytes (data_packet session seq payload) = sealed (body kind_data session seq payload)
packet_bytes (ack_packet session seq) = sealed (body kind_ack session seq [])

pub length-body :
    (kind session seq : ℕ) (payload : Bytes)
    → length (body kind session seq payload) ≡ 13 + length payload
length-body kind session seq payload = omega (
  arith,
  length-append (to_be_bytes 8 session) (to_be_bytes 4 seq ++ payload),
  length-append (to_be_bytes 4 seq) payload,
  length-to_be_bytes 8 session,
  length-to_be_bytes 4 seq,
)

pub length-sealed :
    (kind session seq : ℕ) (payload : Bytes)
    → length (sealed (body kind session seq payload)) ≡ 17 + length payload
length-sealed kind session seq payload =
    let b : Bytes = body kind session seq payload in
    omega (
      arith,
      length-append b (to_be_bytes 4 (crc32 b)),
      length-body kind session seq payload,
      length-to_be_bytes 4 (crc32 b),
    )
