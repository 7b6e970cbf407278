-- ===== src/Connection/Delivery/Frames.antt =====
-- What a frame tells that the peer began to send.
use cobs_io_async_rs.Connection.Delivery.{Channel}
use cobs_io_async_rs.Connection.History.Distinct.{frame_of_inj, wrapped}
use cobs_io_async_rs.Connection.History.{frame_of, Genuine, of_data, of_ack, Received}
use cobs_io_async_rs.Prelude.{
  ℕ, ◌%◌, ◌^◌, ◌<◌, ◌≡◌, ap, ◌∙◌, List, Bytes, All, some, All-Has, get_elem?, arith,
}
use cobs_io_async_rs.Protocol.Packet.Parsed.{parse-packet_bytes}
use cobs_io_async_rs.Protocol.Packet.{data_packet, ack_packet, parse}

-- DATA in a frame of a side was written there.
pub Genuine-data :
    (session : ℕ) (wrote : List Bytes) (n : ℕ) (bytes : Bytes) (s seq : ℕ) (payload : Bytes)
    → session < 2 ^ 64
    → Genuine session wrote n (frame_of bytes)
    → parse bytes ≡ some (data_packet s seq payload)
    → get_elem? wrote seq ≡ some payload
Genuine-data session wrote n bytes s seq payload small (of_data seq' payload' at valid e) h =
    let same : data_packet session seq' payload' ≡ data_packet s seq payload = cc (
      h,
      ap parse (frame_of_inj bytes _ e),
      parse-packet_bytes (data_packet session seq' payload') valid,
    ) in
    cc (same, at)
Genuine-data session wrote n bytes s seq payload small (of_ack seq' lt e) h =
    let found =
      ap parse (frame_of_inj bytes _ e ∙ wrapped session seq')
      ∙ parse-packet_bytes (ack_packet session (seq' % 2 ^ 32)) (small, omega arith) in
    absurd (cc (h, found))

-- An ACK in a frame of a side is of a payload that it took.
pub Genuine-ack :
    (session : ℕ) (wrote : List Bytes) (n : ℕ) (bytes : Bytes) (s seq : ℕ)
    → session < 2 ^ 64
    → Genuine session wrote n (frame_of bytes)
    → parse bytes ≡ some (ack_packet s seq)
    → seq < n
Genuine-ack session wrote n bytes s seq small (of_data seq' payload' at valid e) h = absurd (
    cc (
      h,
      ap parse (frame_of_inj bytes _ e),
      parse-packet_bytes (data_packet session seq' payload') valid,
    ))
Genuine-ack session wrote n bytes s seq small (of_ack seq' lt e) h =
    let found =
      ap parse (frame_of_inj bytes _ e ∙ wrapped session seq')
      ∙ parse-packet_bytes (ack_packet session (seq' % 2 ^ 32)) (small, omega arith) in
    let same : seq' % 2 ^ 32 ≡ seq = cc (h, found) in omega arith

-- A side that takes the frames of a peer takes its payloads, each at its place.
pub agrees :
    (session : ℕ) (wrote : List Bytes) (n : ℕ) (begun seen taken : List Bytes) (s : ℕ)
    → session < 2 ^ 64
    → All (Genuine session wrote n) begun
    → Channel begun seen
    → ((seq : ℕ) (payload : Bytes)
        → get_elem? taken seq ≡ some payload
        → Received seen (data_packet s seq payload))
    → (seq : ℕ) (payload : Bytes) → get_elem? taken seq ≡ some payload
    → get_elem? wrote seq ≡ some payload
agrees session wrote n begun seen taken s small g ch got seq payload at =
    let (bytes, h, e) = got seq payload at in
    Genuine-data session wrote n bytes s seq payload small
      (All-Has (Genuine session wrote n) (frame_of bytes) begun g (ch bytes _ h e)) e

pub acknowledged :
    (session : ℕ) (wrote : List Bytes) (n : ℕ) (begun seen : List Bytes) (s seq : ℕ)
    → session < 2 ^ 64
    → All (Genuine session wrote n) begun
    → Channel begun seen
    → Received seen (ack_packet s seq)
    → seq < n
acknowledged session wrote n begun seen s seq small g ch (bytes, h, e) =
    Genuine-ack session wrote n bytes s seq small
      (All-Has (Genuine session wrote n) (frame_of bytes) begun g (ch bytes _ h e)) e
