-- ===== src/Connection/History/Distinct.antt =====
-- Frames of different packets differ.
use cobs_io_async_rs.Codec.Decode.RoundTrip.{decode_to_slice-stuff}
use cobs_io_async_rs.Codec.Decode.{Decoded, decode_to_slice}
use cobs_io_async_rs.Connection.History.{frame_of}
use cobs_io_async_rs.Prelude.{
  ℕ, ◌+◌, ◌%◌, ◌^◌, ◌≡◌, ◌≢◌, refl, sym, ap, ◌∙◌, [], Bytes, ok, err, length, length-replicate,
  replicate, take, drop, take-append, arith, to_be_bytes_wrap,
}
use cobs_io_async_rs.Protocol.Packet.Parsed.{IsPacket, parse-packet_bytes}
use cobs_io_async_rs.Protocol.Packet.Wire.{packet_bytes}
use cobs_io_async_rs.Protocol.Packet.{data_packet, ack_packet, parse}

abbrev decoded_len : Bytes × Decoded → ℕ
decoded_len (dest, ok f) = f.len
decoded_len (dest, err e) = 0

-- A frame tells what is in it.
pub frame_of_inj : (x y : Bytes) → frame_of x ≡ frame_of y → x ≡ y
frame_of_inj x y e =
    let dest : Bytes = replicate (length x + length y) 0 in
    let room : length dest ≡ length x + length y =
      length-replicate {A = ℕ} (length x + length y) 0 in
    let both =
      sym (decode_to_slice-stuff 0 x [] dest (omega arith))
      ∙ ap (λ r. decode_to_slice r dest) (ap (drop 1) e)
      ∙ decode_to_slice-stuff 0 y [] dest (omega arith) in
    sym (take-append x (drop (length x) dest) refl)
    ∙ ap (λ r. take (length x) r.0) both
    ∙ take-append y (drop (length y) dest) (ap decoded_len both)

pub wrapped :
    (session seq : ℕ)
    → packet_bytes (ack_packet session seq) ≡ packet_bytes (ack_packet session (seq % 2 ^ 32))
wrapped session seq = rw (to_be_bytes_wrap seq) refl

-- Two frames of DATA that are the same have the same number.
pub data_seq :
    (session m n : ℕ) (payload other : Bytes)
    → IsPacket (data_packet session m payload)
    → IsPacket (data_packet session n other)
    → frame_of (packet_bytes (data_packet session m payload))
      ≡ frame_of (packet_bytes (data_packet session n other))
    → m ≡ n
data_seq session m n payload other v w e =
    let found =
      sym (parse-packet_bytes (data_packet session m payload) v)
      ∙ ap parse (frame_of_inj _ _ e)
      ∙ parse-packet_bytes (data_packet session n other) w in
    cc found

pub data_not_ack :
    (session m seq : ℕ) (payload : Bytes)
    → IsPacket (data_packet session m payload)
    → frame_of (packet_bytes (data_packet session m payload))
      ≢ frame_of (packet_bytes (ack_packet session seq))
data_not_ack session m seq payload v e =
    let found =
      sym (parse-packet_bytes (data_packet session m payload) v)
      ∙ ap parse (frame_of_inj _ _ e ∙ wrapped session seq)
      ∙ parse-packet_bytes (ack_packet session (seq % 2 ^ 32)) (v.0, omega arith) in
    cc found
