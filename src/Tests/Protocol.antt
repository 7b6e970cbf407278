-- ===== src/Tests/Protocol.antt =====
-- Runs of the packet layer, and its theorems at concrete inputs.
use cobs_io_async_rs.Prelude.Exec.{ret}
use cobs_io_async_rs.Prelude.{
  ◌+◌, ◌-◌, ◌^◌, ◌≤◌, ◌≡◌, ◌↔◌, refl, [], ◌∷◌, ◌++◌, Bytes, some, length, drop, replicate,
  to_be_bytes, from_be_bytes, none, take, arith,
}
use cobs_io_async_rs.Protocol.Crc.Division.{divide, crc32-divide}
use cobs_io_async_rs.Protocol.Crc.{complement, crc32}
use cobs_io_async_rs.Protocol.Packet.Changed.{parse_changed}
use cobs_io_async_rs.Protocol.Packet.Encoded.{framed, encode_data_lem, encode_ack_lem}
use cobs_io_async_rs.Protocol.Packet.Parsed.{IsPacket, parse-packet_bytes, parse_sound}
use cobs_io_async_rs.Protocol.Packet.Wire.{packet_bytes}
use cobs_io_async_rs.Protocol.Packet.{
  data_packet, ack_packet, ack_frame_len, encode_data, encode_ack, parse,
}
use cobs_io_async_rs.Protocol.Payload.Largest.{max_payload_largest}
use cobs_io_async_rs.Protocol.Payload.{overhead, max_payload}
use cobs_io_async_rs.Sizes.{max_encoding_length}
use cobs_io_async_rs.Sync.Stuffing.{stuff}

crc32_check : crc32 (b'1' ∷ b'2' ∷ b'3' ∷ b'4' ∷ b'5' ∷ b'6' ∷ b'7' ∷ b'8' ∷ b'9' ∷ []) ≡ 0xCBF43926
unfolding crc32
crc32_check = refl

-- The check value of CRC-32/ISO-HDLC.
check_value :
    complement
      (divide (2 ^ 32 - 1) (b'1' ∷ b'2' ∷ b'3' ∷ b'4' ∷ b'5' ∷ b'6' ∷ b'7' ∷ b'8' ∷ b'9' ∷ []))
    ≡ 0xCBF43926
check_value = refl

crc32-divide_example :
    crc32 (b'1' ∷ b'2' ∷ b'3' ∷ []) ≡ complement (divide (2 ^ 32 - 1) (b'1' ∷ b'2' ∷ b'3' ∷ []))
crc32-divide_example =
    crc32-divide (b'1' ∷ b'2' ∷ b'3' ∷ []) (omega arith, (omega arith, (omega arith, tt)))

payload_limits :
    (max_payload 20 ≡ 0) × (max_payload 21 ≡ 1) × (max_payload 256 ≡ 236) × (ack_frame_len ≡ 20)
unfolding max_payload max_encoding_length ack_frame_len
payload_limits = (refl, refl, refl, refl)

abbrev buffer : Bytes
buffer = replicate 32 0

max_payload_largest_example : (5 ≤ max_payload 32) ↔ (max_encoding_length (5 + overhead) + 2 ≤ 32)
max_payload_largest_example = max_payload_largest 32 5 (omega arith) (omega arith) (omega arith)

encode_data_lem_example :
    let packet = packet_bytes (data_packet 7 3 (5 ∷ 0 ∷ [])) in
    (encode_data 7 3 (5 ∷ 0 ∷ []) buffer buffer
      ≡ ret (packet ++ drop 19 buffer, framed packet buffer, length (stuff packet) + 2))
    × (length (stuff packet) + 2 ≤ 32)
unfolding max_payload max_encoding_length
encode_data_lem_example =
    encode_data_lem 7 3 (5 ∷ 0 ∷ []) buffer buffer (omega arith) refl (omega arith) (omega arith)

encode_ack_lem_example :
    let packet = packet_bytes (ack_packet 7 3) in
    (encode_ack 7 3 (replicate 20 0)
      ≡ ret (framed packet (replicate 20 0), length (stuff packet) + 2))
    × (length (stuff packet) + 2 ≤ 20)
unfolding ack_frame_len
encode_ack_lem_example = encode_ack_lem 7 3 (replicate 20 0) refl

parse-packet_bytes_example :
    parse (packet_bytes (data_packet 7 3 (5 ∷ 0 ∷ []))) ≡ some (data_packet 7 3 (5 ∷ 0 ∷ []))
parse-packet_bytes_example =
    parse-packet_bytes (data_packet 7 3 (5 ∷ 0 ∷ [])) (omega arith, omega arith, omega arith)

abbrev ack_bytes : Bytes
ack_bytes =
    2
    ∷ 0
    ∷ 0
    ∷ 0
    ∷ 0
    ∷ 0
    ∷ 0
    ∷ 0
    ∷ 7
    ∷ 0
    ∷ 0
    ∷ 0
    ∷ 3
    ∷ to_be_bytes 4 (crc32 (2 ∷ 0 ∷ 0 ∷ 0 ∷ 0 ∷ 0 ∷ 0 ∷ 0 ∷ 7 ∷ 0 ∷ 0 ∷ 0 ∷ 3 ∷ []))

parse_sound_example : (ack_bytes ≡ packet_bytes (ack_packet 7 3)) × IsPacket (ack_packet 7 3)
unfolding parse crc32 to_be_bytes from_be_bytes
parse_sound_example = parse_sound ack_bytes (omega arith) refl

abbrev whole_ack : Bytes
whole_ack = 2 ∷ 0 ∷ 0 ∷ 0 ∷ 0 ∷ 0 ∷ 0 ∷ 0 ∷ 7 ∷ 0 ∷ 0 ∷ 0 ∷ 3 ∷ 68 ∷ 1 ∷ 126 ∷ 99 ∷ []

parse-whole_ack : parse whole_ack ≡ some (ack_packet 7 3)
unfolding parse crc32 to_be_bytes from_be_bytes
parse-whole_ack = refl

parse_changed_example : parse (2 ∷ 0 ∷ 0 ∷ 0 ∷ 0 ∷ 0 ∷ 0 ∷ 0 ∷ 9 ∷ drop 9 whole_ack) ≡ none
parse_changed_example =
    parse_changed (take 8 whole_ack) (drop 9 whole_ack) 7 9 (omega arith) (omega arith)
      (omega arith) (omega arith) parse-whole_ack (λ e. absurd (omega arith))
