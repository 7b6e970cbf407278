-- ===== src/Connection/Kept/Packets.antt =====
-- `on_packet` keeps what its changes keep.
use cobs_io_async_rs.Connection.Input.{on_ack, on_data, on_packet}
use cobs_io_async_rs.Connection.State.{idle, Reliable, is_idle, is_none}
use cobs_io_async_rs.Prelude.Exec.Ensures.{Ensures, bind-Ensures, Ensures-any}
use cobs_io_async_rs.Prelude.Exec.Holds.{if-Holds}
use cobs_io_async_rs.Prelude.Exec.{copy_at}
use cobs_io_async_rs.Prelude.{
  ℕ, ◌+◌, ◌-◌, not, ◌&&◌, ◌||◌, ltb, ◌==◌, Bytes, Option, none, some, length,
}
use cobs_io_async_rs.Protocol.Packet.{Packet, data_packet, ack_packet}
use cobs_io_async_rs.Protocol.Payload.{max_payload}

-- An ACK completes the packet, a payload is taken, and an ACK is owed.
pub record IsPacketKept {T C E : Type 0} (P : Reliable T C E → Type 0) : Type 0 where
  pub completed :
      (c : Reliable T C E) → P c → P (record c { tx = idle; tx_retries = 0; final_input = none })
  pub taken :
      (c : Reliable T C E) (rx_payload : Bytes) (rx_end seq : ℕ)
      → P c
      → P (record c {
        rx_payload = rx_payload;
        rx_start = 0;
        rx_end = rx_end;
        rx_next = c.rx_next + 1;
        ack_pending = some seq;
      })
  pub owed : (c : Reliable T C E) (seq : ℕ) → P c → P (record c { ack_pending = some seq })

module _ {T C E : Type 0} (capacity : ℕ) (P : Reliable T C E → Type 0) (k : IsPacketKept P) where
  pub on_packet_kept :
      (p : Option Packet) (c : Reliable T C E) → P c → Ensures P (on_packet capacity p c)
  unfolding on_packet on_ack on_data
  on_packet_kept none c v = v
  on_packet_kept (some (ack_packet session seq)) c v =
      if-Holds P (session == c.config.session && (not (is_idle c.tx) && seq + 1 == c.tx_next))
        (λ e. k.completed c v) (λ e. v)
  on_packet_kept (some (data_packet session seq payload)) c v =
      if-Holds (Ensures P)
        (not (session == c.config.session) || ltb (max_payload capacity) (length payload)) (λ e. v)
        (λ e.
          if-Holds (Ensures P) (seq == c.rx_next)
            (λ e.
              if-Holds (Ensures P) (c.rx_start == c.rx_end)
                (λ e.
                  bind-Ensures (λ x. Unit {0}) P (copy_at c.rx_payload 0 payload) _
                    (Ensures-any (copy_at c.rx_payload 0 payload))
                    (λ x i. k.taken c x (length payload) seq v))
                (λ e. v))
            (λ e.
              if-Holds (Ensures P)
                (ltb 0 c.rx_next && (seq == c.rx_next - 1 && is_none c.ack_pending))
                (λ e. k.owed c seq v) (λ e. v)))
