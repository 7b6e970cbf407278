-- ===== src/Tests/Connection.antt =====
-- The connection over a link in memory, and its theorems at concrete inputs.
use cobs_io_async_rs.Connection.Api.Cancel.{cancel_pending_lem}
use cobs_io_async_rs.Connection.Api.{cancel_pending}
use cobs_io_async_rs.Connection.Input.Frames.{process_frame_packet}
use cobs_io_async_rs.Connection.Input.{on_packet, process_frame}
use cobs_io_async_rs.Connection.State.{
  new_config, Reliable, waiting, out_idle, health_ok, pending_write,
}
use cobs_io_async_rs.Connection.Waiters.{no_waiters}
use cobs_io_async_rs.Prelude.{
  ℕ, ◌≡◌, refl, false, [], ◌∷◌, ◌++◌, none, some, length, drop, replicate, arith,
}
use cobs_io_async_rs.Protocol.Packet.Wire.{packet_bytes, length-sealed}
use cobs_io_async_rs.Protocol.Packet.{Packet, data_packet, kind_data}
use cobs_io_async_rs.Sync.Stuffing.{stuff}
use cobs_io_async_rs.Tests.Wire.{Wire}

abbrev pub Conn : Type 0
Conn = Reliable Wire ℕ ⊥

-- A connection with buffers of 32 bytes, which waits for the ACK of its first packet.
abbrev pub conn : Conn
conn = record {
  transport = record { incoming = []; outgoing = [] };
  timer = 0;
  config = new_config 7;
  health = health_ok;
  tx = waiting;
  tx_frame = replicate 32 0;
  tx_len = 22;
  tx_next = 1;
  tx_deadline = 1000;
  tx_retries = 0;
  final_input = none;
  out = out_idle;
  ack_pending = none;
  ack_frame = replicate 20 0;
  ack_len = 0;
  rx_buf = replicate 32 0;
  rx_len = 0;
  rx_discarding = false;
  rx_payload = replicate 32 0;
  rx_start = 0;
  rx_end = 0;
  rx_next = 0;
  scratch = replicate 32 0;
  waiters = record { read = some 4; write = some 5; flush = none; progress = some 6 };
  woken = [];
  seen = [];
  begun = [];
}

cancel_pending_lem_example :
    cancel_pending pending_write conn ≡ record conn { waiters = no_waiters; woken = 4 ∷ 6 ∷ [] }
cancel_pending_lem_example = cancel_pending_lem pending_write conn

abbrev incoming : Packet
incoming = data_packet 7 0 (5 ∷ 0 ∷ [])

abbrev with_frame : Conn
with_frame = record conn { rx_buf = stuff (packet_bytes incoming) ++ 0 ∷ [] }

process_frame_packet_example :
    process_frame 32 (length (stuff (packet_bytes incoming))) with_frame
    ≡ on_packet 32 (some incoming) (record with_frame {
      scratch = packet_bytes incoming ++ drop (length (packet_bytes incoming)) (replicate 32 0);
      seen = packet_bytes incoming ∷ [];
    })
process_frame_packet_example =
    process_frame_packet 32 incoming [] with_frame (omega arith, omega arith, omega arith) refl
      (omega (arith, length-sealed kind_data 7 0 (5 ∷ 0 ∷ [])))
