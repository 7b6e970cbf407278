-- ===== src/Connection/History.antt =====
-- A connection against its past: the payloads that its user wrote, the bytes that its user read, the
-- frames that it began to send and those that it received.
pub mod Distinct
mod Spare
mod Frames
mod Output
mod Writing
mod Written
mod Reading
pub mod Life
pub mod Steps
use cobs_io_async_rs.Connection.State.{Tx, idle, queued, sending, waiting, Reliable}
use cobs_io_async_rs.Prelude.{
  ℕ, ◌+◌, ◌-◌, ◌^◌, ◌≤◌, ◌<◌, ◌≡◌, [], ◌∷◌, ◌++◌, List, Bytes, Option, none, some, All, Has, times,
  length, get_elem?, concat, take, drop,
}
use cobs_io_async_rs.Protocol.Packet.Parsed.{IsPacket}
use cobs_io_async_rs.Protocol.Packet.Wire.{packet_bytes}
use cobs_io_async_rs.Protocol.Packet.{Packet, data_packet, ack_packet, ack_frame_len, parse}
use cobs_io_async_rs.Sync.Stuffing.{stuff}

-- The delimited frame of the bytes of a packet.
abbrev pub frame_of : Bytes → Bytes
frame_of bytes = 0 ∷ (stuff bytes ++ 0 ∷ [])

-- A frame of this side: DATA with a payload that was written, under its number, or the ACK of one of
-- the `taken` payloads that were taken from the peer.
pub data Genuine (session : ℕ) (wrote : List Bytes) (taken : ℕ) (frame : Bytes) : Type 0 where
  of_data :
      (seq : ℕ) (payload : Bytes)
      → get_elem? wrote seq ≡ some payload
      → IsPacket (data_packet session seq payload)
      → frame ≡ frame_of (packet_bytes (data_packet session seq payload))
      → Genuine session wrote taken frame
  of_ack :
      (seq : ℕ)
      → seq < taken
      → frame ≡ frame_of (packet_bytes (ack_packet session seq))
      → Genuine session wrote taken frame

-- The latest payload stands in `tx_frame` as the DATA packet that is not acknowledged yet.
abbrev pub InBuffer : ℕ → List Bytes → ℕ → Bytes → ℕ → Type 0
InBuffer session wrote tx_next tx_frame tx_len =
    (payload : Bytes) × (0 < tx_next)
    × (get_elem? wrote (tx_next - 1) ≡ some payload)
    × IsPacket (data_packet session (tx_next - 1) payload)
    × (take tx_len tx_frame ≡ frame_of (packet_bytes (data_packet session (tx_next - 1) payload)))

abbrev pub Outstanding : ℕ → List Bytes → Tx → ℕ → Bytes → ℕ → Type 0
Outstanding session wrote idle tx_next tx_frame tx_len = Unit
Outstanding session wrote queued tx_next tx_frame tx_len =
    InBuffer session wrote tx_next tx_frame tx_len
Outstanding session wrote sending tx_next tx_frame tx_len =
    InBuffer session wrote tx_next tx_frame tx_len
Outstanding session wrote waiting tx_next tx_frame tx_len =
    InBuffer session wrote tx_next tx_frame tx_len

-- A received frame holds the packet.
abbrev pub Received : List Bytes → Packet → Type 0
Received seen p = (bytes : Bytes) × Has bytes seen × (parse bytes ≡ some p)

-- A side that waits for nothing has received the ACK of its latest packet.
abbrev pub Acked : ℕ → Tx → ℕ → List Bytes → Type 0
Acked session idle tx_next seen = 0 < tx_next → Received seen (ack_packet session (tx_next - 1))
Acked session queued tx_next seen = Unit
Acked session sending tx_next seen = Unit
Acked session waiting tx_next seen = Unit

-- The ACK that is to be sent is of the latest payload that was taken.
abbrev pub Owes : Option ℕ → ℕ → Type 0
Owes none rx_next = Unit
Owes (some seq) rx_next = seq + 1 ≡ rx_next

-- The frame of the latest packet was begun `k` times: while the packet is not acknowledged, at most
-- once for the packet itself and once for each time that it was to be sent again, less the one that
-- is still to be begun.
abbrev pub Fair : Tx → ℕ → ℕ → Type 0
Fair idle tx_retries k = Unit
Fair queued tx_retries k = k ≤ tx_retries
Fair sending tx_retries k = k ≤ tx_retries + 1
Fair waiting tx_retries k = k ≤ tx_retries + 1

-- The frame of the packet `seq` was begun `k` times.
abbrev pub Times : ℕ → Tx → ℕ → ℕ → ℕ → ℕ → Type 0
Times seq tx tx_next tx_retries max_retries k =
    (k ≤ max_retries + 1) × (tx_next ≤ seq → k ≡ 0) × (seq + 1 ≡ tx_next → Fair tx tx_retries k)

-- No DATA frame was begun more often than the configuration allows.
abbrev pub Spare : ℕ → Tx → ℕ → ℕ → ℕ → List Bytes → Type 0
Spare session tx tx_next tx_retries max_retries begun =
    (tx_retries ≤ max_retries)
    × ((seq : ℕ) (payload : Bytes)
        → IsPacket (data_packet session seq payload)
        → Times seq tx tx_next tx_retries max_retries
            (times (frame_of (packet_bytes (data_packet session seq payload))) begun))

pub record Sending (session : ℕ) (wrote : List Bytes) (config_session : ℕ) (tx : Tx) (tx_next : ℕ)
    (tx_frame : Bytes) (tx_len tx_retries max_retries : ℕ) (ack_frame : Bytes)
    (ack_pending : Option ℕ) (rx_next : ℕ) (seen begun : List Bytes) : Type 0 where
  pub same_session : config_session ≡ session
  pub session_lt : session < 2 ^ 64
  pub count : length wrote ≡ tx_next
  pub outstanding : Outstanding session wrote tx tx_next tx_frame tx_len
  pub acked : Acked session tx tx_next seen
  pub owes : Owes ack_pending rx_next
  pub genuine : All (Genuine session wrote rx_next) begun
  pub spare : Spare session tx tx_next tx_retries max_retries begun
  pub ack_room : length ack_frame ≡ ack_frame_len

-- The payloads `taken`, each from a frame that was received, are what the user has read and what is
-- left for it to read.
pub record Taking (session : ℕ) (got : Bytes) (taken : List Bytes) (rx_next : ℕ)
    (rx_payload : Bytes) (rx_start rx_end : ℕ) (seen : List Bytes) : Type 0 where
  pub count : length taken ≡ rx_next
  pub received :
      (seq : ℕ) (payload : Bytes)
      → get_elem? taken seq ≡ some payload
      → Received seen (data_packet session seq payload)
  pub bytes : got ++ drop rx_start (take rx_end rx_payload) ≡ concat taken
  pub start_le : rx_start ≤ rx_end

abbrev pub Sends : {T C E : Type 0} → ℕ → List Bytes → Reliable T C E → Type 0
Sends session wrote c =
    Sending session wrote c.config.session c.tx c.tx_next c.tx_frame c.tx_len c.tx_retries
      c.config.max_retries c.ack_frame c.ack_pending c.rx_next c.seen c.begun

abbrev pub Takes : {T C E : Type 0} → ℕ → Bytes → List Bytes → Reliable T C E → Type 0
Takes session got taken c =
    Taking session got taken c.rx_next c.rx_payload c.rx_start c.rx_end c.seen

-- The connection `c` of a session, whose user wrote these payloads and got these bytes.
abbrev pub Linked : {T C E : Type 0} → ℕ → List Bytes → Bytes → Reliable T C E → Type 0
Linked session wrote got c =
    (taken : List Bytes) × Sends session wrote c × Takes session got taken c
