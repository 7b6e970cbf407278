-- ===== src/Connection/Delivery.antt =====
-- Two connections: what the one's user wrote, and what reaches the other's user.
mod Frames
mod Flushed
pub mod Exact
pub mod Piped
use cobs_io_async_rs.Codec.Decode.RoundTrip.{decode_to_slice-stuff}
use cobs_io_async_rs.Codec.Decode.{Decoded, decode_to_slice}
use cobs_io_async_rs.Connection.Api.Finish.{finish_ready_lem}
use cobs_io_async_rs.Connection.Api.{poll_flush, flush_ready, flush_result, finish}
use cobs_io_async_rs.Connection.Drive.{failure, drive}
use cobs_io_async_rs.Connection.History.Life.{Life, flushes, Life-Linked}
use cobs_io_async_rs.Connection.History.{
  frame_of, Genuine, of_data, of_ack, Received, Acked, Linked,
}
use cobs_io_async_rs.Connection.State.{
  Config, Tx, idle, queued, sending, waiting, Reliable, step_budget, op_flush, is_idle,
}
use cobs_io_async_rs.Error.{ConnectionError}
use cobs_io_async_rs.Prelude.Exec.Ensures.{Ensures, bind-Ensures, Ensures-ret, Ensures-any}
use cobs_io_async_rs.Prelude.Exec.{ret}
use cobs_io_async_rs.Prelude.{
  ℕ, ◌+◌, ◌-◌, ◌%◌, ◌^◌, ◌≤◌, ◌<◌, ◌≡◌, refl, sym, ap, ◌∙◌, subst, [], ◌∷◌, ◌++◌, append-nil, List,
  Bytes, Bool, true, false, ◌&&◌, Bool-cases, inl, inr, All, dec_lt, get_elem?-le, Option, none,
  some, Result, ok, err, All-Has, Has, length, length-replicate, replicate, get_elem?, get_elem?-lt,
  get_elem?-some, concat, concat_prefix, concat_whole, take, drop, take-append, arith, to_be_bytes,
  to_be_bytes_wrap,
}
use cobs_io_async_rs.Protocol.Packet.Parsed.{IsPacket, parse-packet_bytes}
use cobs_io_async_rs.Protocol.Packet.Wire.{packet_bytes}
use cobs_io_async_rs.Protocol.Packet.{Packet, data_packet, ack_packet, parse}
use cobs_io_async_rs.Sync.Stuffing.{stuff}
use cobs_io_async_rs.Transport.{Waker, Poll, ready, pending, Transport, Timer, KeepsLength}

-- Every frame that one side decoded, and that passed the checksum, is one that the other side began to
-- send. Frames may be lost, come twice, late or in another order.
abbrev pub Channel : List Bytes → List Bytes → Type 0
Channel begun seen =
    (bytes : Bytes) (p : Packet)
    → Has bytes seen
    → parse bytes ≡ some p
    → Has (frame_of bytes) begun

-- The part of the latest payload that the user has not read yet.
abbrev pub unread : {T C E : Type 0} → Reliable T C E → Bytes
unread c = drop c.rx_start (take c.rx_end c.rx_payload)
