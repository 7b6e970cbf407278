-- ===== src/Connection/Valid.antt =====
-- The invariant of a connection with buffers of `capacity` bytes.
mod Frames
pub mod Input
mod Output
mod Written
mod Driving
pub mod Driver
pub mod Api
mod Packets
pub mod Reading
pub mod Writing
pub mod Waits
use cobs_io_async_rs.Connection.State.{
  Tx, idle, queued, sending, waiting, Frame, ack, data_frame, Out, out_idle, writing, flushing,
  Reliable,
}
use cobs_io_async_rs.Prelude.{ℕ, ◌≤◌, ◌<◌, ◌^◌, ◌≡◌, Bytes, length}
use cobs_io_async_rs.Protocol.Packet.{ack_frame_len}
use cobs_io_async_rs.Protocol.Payload.{max_payload}

-- The offset of a partial write is within its frame.
abbrev pub InFrame : Out → ℕ → ℕ → Type 0
InFrame out_idle ack_len tx_len = Unit
InFrame (writing ack offset) ack_len tx_len = offset < ack_len
InFrame (writing data_frame offset) ack_len tx_len = offset < tx_len
InFrame (flushing frame) ack_len tx_len = Unit

-- A packet that is not acknowledged has a frame.
abbrev pub HasFrame : Tx → ℕ → Type 0
HasFrame idle tx_len = Unit
HasFrame queued tx_len = 0 < tx_len
HasFrame sending tx_len = 0 < tx_len
HasFrame waiting tx_len = 0 < tx_len

-- The fields of the side that sends.
pub record Sender (capacity : ℕ) (tx_frame : Bytes) (tx_len : ℕ) (ack_frame : Bytes) (ack_len : ℕ)
    (out : Out) (tx : Tx) : Type 0 where
  pub tx_frame_length : length tx_frame ≡ capacity
  pub tx_len_le : tx_len ≤ capacity
  pub ack_frame_length : length ack_frame ≡ ack_frame_len
  pub ack_len_le : ack_len ≤ ack_frame_len
  pub in_frame : InFrame out ack_len tx_len
  pub has_frame : HasFrame tx tx_len

-- The fields of the side that receives.
pub record Receiver (capacity : ℕ) (rx_buf : Bytes) (rx_len : ℕ) (rx_payload : Bytes)
    (rx_start rx_end : ℕ) : Type 0 where
  pub payload_fits : 0 < max_payload capacity
  pub rx_buf_length : length rx_buf ≡ capacity
  pub rx_len_le : rx_len ≤ capacity
  pub rx_payload_length : length rx_payload ≡ capacity
  pub rx_start_le : rx_start ≤ rx_end
  pub rx_end_le : rx_end ≤ capacity

abbrev pub IsSender : {T C E : Type 0} → ℕ → Reliable T C E → Type 0
IsSender capacity c = Sender capacity c.tx_frame c.tx_len c.ack_frame c.ack_len c.out c.tx

abbrev pub IsReceiver : {T C E : Type 0} → ℕ → Reliable T C E → Type 0
IsReceiver capacity c = Receiver capacity c.rx_buf c.rx_len c.rx_payload c.rx_start c.rx_end

-- Both sides and the scratch buffer.
abbrev pub IsFilled : {T C E : Type 0} → ℕ → Reliable T C E → Type 0
IsFilled capacity c = IsSender capacity c × IsReceiver capacity c × (length c.scratch ≡ capacity)

-- There is room in the input buffer too, as there is between two calls.
abbrev pub IsValid : {T C E : Type 0} → ℕ → Reliable T C E → Type 0
IsValid capacity c = IsFilled capacity c × (c.rx_len < capacity)
