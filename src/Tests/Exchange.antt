-- ===== src/Tests/Exchange.antt =====
-- Two connections over links in memory that exchange a payload.
mod States
mod Noted
use cobs_io_async_rs.Connection.Retries.{times-begun}
use cobs_io_async_rs.Connection.Delivery.Piped.{piped_delivered, piped_flushed}
use cobs_io_async_rs.Connection.Stream.Assembly.{assemble, contents}
use cobs_io_async_rs.Connection.Stream.Received.{seen-contents}
use cobs_io_async_rs.Connection.Stream.Sent.{Life-IsSent}
use cobs_io_async_rs.Tests.Exchange.Noted.{noted_runs, a1-noted, b1-noted}
use cobs_io_async_rs.Tests.Exchange.States.{
  a_start, b_start, settings, data_frame, ack_frame, a0, a1, a2, b0, b1, data_bytes, ack_bytes,
  runs,
}
use cobs_io_async_rs.Codec.Decode.{decode_slice, decode_to_slice}
use cobs_io_async_rs.Connection.Api.{
  new, notify_op, notify, finish, read_payload, poll_read, check_sequence, accept, try_accept,
  queue_packet, poll_write, flush_result, poll_flush,
}
use cobs_io_async_rs.Connection.Deadline.{
  final_input_len, allowance_over, polled_deadline, retransmit, run_deadline, poll_timer,
}
use cobs_io_async_rs.Connection.Drive.{
  fail, report, failure, after_timer, after_input, after_output, step, settle, drive_loop, drive,
}
use cobs_io_async_rs.Connection.Input.{
  position_zero, spend_allowance, on_ack, on_data, on_packet, on_decoded, process_frame,
  keep_partial, remove_frame, take_frame, process_loop, process_input, received, poll_input,
}
use cobs_io_async_rs.Connection.Output.{
  begin_output, pending_output, wrote, write_output, flushed, flush_polled, flush_output,
  run_output, drive_output, poll_output,
}
use cobs_io_async_rs.Connection.Waiters.{register, clear, wake, wake_by_ref}
use cobs_io_async_rs.Protocol.Crc.{crc_bit, crc_entry, crc_table, crc_byte, crc32}
use cobs_io_async_rs.Protocol.Packet.{
  ack_frame_len, encode_data, encode_ack, parse, data_packet, ack_packet,
}
use cobs_io_async_rs.Protocol.Payload.{max_payload}
use cobs_io_async_rs.Sizes.{max_encoding_overhead, max_encoding_length}
use cobs_io_async_rs.Sync.Encode.{encode_from_slice, encode_from_slice_including_sentinels}
use cobs_io_async_rs.Sync.Encode.Rounds.{encode_rest}
use cobs_io_async_rs.Sync.Output.{append, set}
use cobs_io_async_rs.Sync.Stuffing.{stuff_from}
use cobs_io_async_rs.Protocol.Packet.Wire.{packet_bytes}
use cobs_io_async_rs.Connection.History.{frame_of, Linked}
use cobs_io_async_rs.Connection.History.Life.{Life, Life-Linked, created, writes, reads, flushes}
use cobs_io_async_rs.Connection.Valid.{IsValid}
use cobs_io_async_rs.Connection.Delivery.{Channel, unread}
use cobs_io_async_rs.Connection.Delivery.Exact.{delivered, flushed_delivered}
use cobs_io_async_rs.Connection.State.{new_config, Config, health_ok, idle, out_idle}
use cobs_io_async_rs.Prelude.Exec.{ret, sub, slice_to, slice_from, copy_at}
use cobs_io_async_rs.Prelude.{
  times, ◌≤◌, ◌≡◌, refl, List, false, [], ◌∷◌, ◌++◌, none, replicate, ok, err, Bytes, write_at,
  to_be_bytes, from_be_bytes, inl, inr, arith, Has, subst, sym, ap, concat,
}
use cobs_io_async_rs.Tests.Wire.{
  Wire, wire_link, still_clock, wire_link-KeepsLength, answering_link, answering_link-KeepsLength,
}
use cobs_io_async_rs.Tests.Connection.{Conn, conn}
use cobs_io_async_rs.Transport.{ready}

-- One frame went from the one side to the other.
carried :
    (bytes : Bytes) (begun seen : List Bytes)
    → begun ≡ frame_of bytes ∷ []
    → seen ≡ bytes ∷ []
    → Channel begun seen
carried bytes begun seen e f =
    λ x p h g. subst (Has (frame_of x)) (sym e) (only x (subst (Has x) f h))
  where
    only : (x : Bytes) → Has x (bytes ∷ []) → Has (frame_of x) (frame_of bytes ∷ [])
    only x (inl same) = inl (ap frame_of same)
    only x (inr none_other) = absurd none_other

a1-Life : Life answering_link still_clock 32 settings a_start ((5 ∷ 0 ∷ []) ∷ []) [] a1
a1-Life = writes 1 (5 ∷ 0 ∷ []) (created 0 runs.0) runs.2

b1-Life : Life wire_link still_clock 32 settings b_start [] (5 ∷ 0 ∷ []) b1
b1-Life = reads 1 (replicate 2 9) (created 0 runs.1) runs.4

Life-Linked_example : IsValid 32 a1 × Linked 7 ((5 ∷ 0 ∷ []) ∷ []) [] a1
Life-Linked_example =
    Life-Linked answering_link still_clock 32 settings answering_link-KeepsLength (omega arith)
      (omega arith) a1-Life

delivered_example : (rest : Bytes) × (5 ∷ 0 ∷ [] ≡ ((5 ∷ 0 ∷ []) ++ unread b1) ++ rest)
delivered_example =
    delivered answering_link still_clock 32 settings wire_link still_clock 32 settings
      answering_link-KeepsLength wire_link-KeepsLength (omega arith) (omega arith) (omega arith)
      (omega arith) (flushes 1 a1-Life runs.3) b1-Life
      (carried data_bytes a2.begun b1.seen runs.5 runs.6)

flushed_delivered_example : (5 ∷ 0 ∷ []) ++ unread b1 ≡ 5 ∷ 0 ∷ []
flushed_delivered_example =
    flushed_delivered answering_link still_clock 32 settings wire_link still_clock 32 settings 1
      answering_link-KeepsLength wire_link-KeepsLength (omega arith) (omega arith) (omega arith)
      (omega arith) a1-Life runs.3 b1-Life (carried data_bytes a2.begun b1.seen runs.5 runs.6)
      (carried ack_bytes b1.begun a2.seen runs.7 runs.8)

times-begun_example : times (frame_of (packet_bytes (data_packet 7 0 (5 ∷ 0 ∷ [])))) a2.begun ≤ 9
times-begun_example =
    times-begun answering_link still_clock 32 settings 0 (5 ∷ 0 ∷ []) answering_link-KeepsLength
      (omega arith) (omega arith) (omega arith, omega arith, omega arith) (flushes 1 a1-Life runs.3)

piped_delivered_example : (rest : Bytes) × (5 ∷ 0 ∷ [] ≡ ((5 ∷ 0 ∷ []) ++ unread b1) ++ rest)
piped_delivered_example =
    piped_delivered answering_link still_clock 32 settings wire_link still_clock 32 settings []
      answering_link-KeepsLength wire_link-KeepsLength (omega arith) (omega arith) (omega arith)
      (omega arith) (refl, refl) (refl, refl) (flushes 1 a1-noted noted_runs.3) b1-noted refl

piped_flushed_example : (5 ∷ 0 ∷ []) ++ unread b1 ≡ 5 ∷ 0 ∷ []
piped_flushed_example =
    piped_flushed answering_link still_clock 32 settings wire_link still_clock 32 settings 1 [] []
      answering_link-KeepsLength wire_link-KeepsLength (omega arith) (omega arith) (omega arith)
      (omega arith) (refl, refl) (refl, refl) a1-noted noted_runs.3 b1-noted refl refl

seen-contents_example : b1.seen ≡ contents 32 (assemble 32 data_frame).frames
seen-contents_example =
    seen-contents wire_link still_clock 32 settings wire_link-KeepsLength refl b1-noted

Life-IsSent_example : data_frame ++ [] ≡ concat (data_frame ∷ [])
Life-IsSent_example = Life-IsSent answering_link still_clock 32 settings a1-noted
