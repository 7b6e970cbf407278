-- ===== src/Connection/Valid/Packets.antt =====
-- `encode_data` into the buffers of a connection.
use cobs_io_async_rs.Connection.Api.{data_out_busy}
use cobs_io_async_rs.Connection.State.{ack, data_frame, Out, out_idle, writing, flushing}
use cobs_io_async_rs.Connection.Valid.{InFrame}
use cobs_io_async_rs.Prelude.Exec.Holds.{Holds}
use cobs_io_async_rs.Prelude.{
  ℕ, ◌+◌, ◌^◌, ◌≤◌, ◌<◌, ◌≡◌, sym, subst, Bytes, false, length, length-append, length-drop, drop,
  arith,
}
use cobs_io_async_rs.Protocol.Packet.Encoded.{length-framed, encode_data_lem}
use cobs_io_async_rs.Protocol.Packet.Wire.{packet_bytes, length-sealed}
use cobs_io_async_rs.Protocol.Packet.{data_packet, encode_data, kind_data}
use cobs_io_async_rs.Protocol.Payload.Largest.{max_payload-le}
use cobs_io_async_rs.Protocol.Payload.{max_payload, overhead}

-- A frame of data is replaced only while none is being written.
pub free-InFrame :
    (out : Out) (ack_len tx_len new_len : ℕ)
    → data_out_busy out ≡ false
    → InFrame out ack_len tx_len
    → InFrame out ack_len new_len
free-InFrame out_idle ack_len tx_len new_len e h = tt
free-InFrame (writing ack offset) ack_len tx_len new_len e h = h
free-InFrame (writing data_frame offset) ack_len tx_len new_len e h = absurd (cc e)
free-InFrame (flushing frame) ack_len tx_len new_len e h = tt

abbrev pub Encoded : ℕ → Bytes × Bytes × ℕ → Type 0
Encoded capacity (scratch, frame, n) =
    (length scratch ≡ capacity) × (length frame ≡ capacity) × (n ≤ capacity) × (0 < n)

pub encode_data-Encoded :
    (capacity session seq : ℕ) (payload scratch frame : Bytes)
    → capacity < 2 ^ 62
    → length scratch ≡ capacity
    → length frame ≡ capacity
    → 0 < length payload
    → length payload ≤ max_payload capacity
    → Holds (Encoded capacity) (encode_data session seq payload scratch frame)
encode_data-Encoded capacity session seq payload scratch frame small hs hf pos fits =
    let packet : Bytes = packet_bytes (data_packet session seq payload) in
    let bound : length payload ≤ max_payload (length frame) =
      subst (λ k. length payload ≤ max_payload k) (sym hf) fits in
    let (same, room) =
      encode_data_lem session seq payload scratch frame (omega arith) (omega arith) pos bound in
    subst (Holds (Encoded capacity)) (sym same) (
      omega (
        arith,
        length-append packet (drop (overhead + length payload) scratch),
        length-drop (overhead + length payload) scratch,
        length-sealed kind_data session seq payload,
        max_payload-le capacity,
      ),
      omega (arith, length-framed packet frame room),
      omega arith,
      omega arith,
    )
