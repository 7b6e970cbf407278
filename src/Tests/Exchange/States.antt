-- ===== src/Tests/Exchange/States.antt =====
-- Two connections over links in memory: the states that an exchange of one payload leads to.
use cobs_io_async_rs.Codec.Decode.{decode_slice, decode_to_slice}
use cobs_io_async_rs.Connection.Api.{
  new, notify_op, notify, finish, read_payload, poll_read, check_sequence, accept, try_accept,
  queue_packet, poll_write, flush_result, poll_flush,
}
use cobs_io_async_rs.Connection.Deadline.{
  final_input_len, allowance_over, polled_deadline, retransmit, run_deadline, poll_timer,
}
use cobs_io_async_rs.Connection.Drive.{
  fail, report, failure, after_timer, after_input, after_output, step, settle, drive_loop, drive,
}
use cobs_io_async_rs.Connection.Input.{
  position_zero, spend_allowance, on_ack, on_data, on_packet, on_decoded, process_frame,
  keep_partial, remove_frame, take_frame, process_loop, process_input, received, poll_input,
}
use cobs_io_async_rs.Connection.Output.{
  begin_output, pending_output, wrote, write_output, flushed, flush_polled, flush_output,
  run_output, drive_output, poll_output,
}
use cobs_io_async_rs.Connection.Waiters.{register, clear, wake, wake_by_ref}
use cobs_io_async_rs.Protocol.Crc.{crc_bit, crc_entry, crc_table, crc_byte, crc32}
use cobs_io_async_rs.Protocol.Packet.{
  ack_frame_len, encode_data, encode_ack, parse, data_packet, ack_packet,
}
use cobs_io_async_rs.Protocol.Payload.{max_payload}
use cobs_io_async_rs.Sizes.{max_encoding_overhead, max_encoding_length}
use cobs_io_async_rs.Sync.Encode.{encode_from_slice, encode_from_slice_including_sentinels}
use cobs_io_async_rs.Sync.Encode.Rounds.{encode_rest}
use cobs_io_async_rs.Sync.Output.{append, set}
use cobs_io_async_rs.Sync.Stuffing.{stuff_from}
use cobs_io_async_rs.Protocol.Packet.Wire.{packet_bytes}
use cobs_io_async_rs.Connection.History.{frame_of}
use cobs_io_async_rs.Connection.State.{new_config, Config, health_ok, idle, out_idle}
use cobs_io_async_rs.Prelude.Exec.{ret, sub, slice_to, slice_from, copy_at}
use cobs_io_async_rs.Prelude.{
  ◌++◌, drop, ◌≡◌, refl, false, [], ◌∷◌, none, replicate, ok, err, Bytes, write_at, to_be_bytes,
  from_be_bytes,
}
use cobs_io_async_rs.Tests.Wire.{Wire, wire_link, still_clock, answering_link}
use cobs_io_async_rs.Tests.Connection.{Conn, conn}
use cobs_io_async_rs.Transport.{ready}

abbrev pub settings : Config
settings = new_config 7

abbrev opened : Wire → Conn
opened wire = elim (new {E = ⊥} 32 wire 0 settings) [ ok c ↦ c | err e ↦ conn ]

-- The frame of the payload 5, 0 and that of its ACK.
abbrev pub data_frame : Bytes
data_frame =
    0 ∷ 2 ∷ 1 ∷ 1 ∷ 1 ∷ 1 ∷ 1 ∷ 1 ∷ 1 ∷ 2 ∷ 7 ∷ 1 ∷ 1 ∷ 1 ∷ 2 ∷ 5 ∷ 5 ∷ 214 ∷ 248 ∷ 18 ∷ 196 ∷ 0
    ∷ []

abbrev pub ack_frame : Bytes
ack_frame = 0 ∷ 2 ∷ 2 ∷ 1 ∷ 1 ∷ 1 ∷ 1 ∷ 1 ∷ 1 ∷ 2 ∷ 7 ∷ 1 ∷ 1 ∷ 1 ∷ 5 ∷ 221 ∷ 8 ∷ 47 ∷ 217 ∷ 0 ∷ []

-- What stands in them.
abbrev data_content : Bytes
data_content = 1 ∷ 0 ∷ 0 ∷ 0 ∷ 0 ∷ 0 ∷ 0 ∷ 0 ∷ 7 ∷ 0 ∷ 0 ∷ 0 ∷ 0 ∷ 5 ∷ 0 ∷ 214 ∷ 248 ∷ 18 ∷ 196 ∷ []

abbrev ack_content : Bytes
ack_content = 2 ∷ 0 ∷ 0 ∷ 0 ∷ 0 ∷ 0 ∷ 0 ∷ 0 ∷ 7 ∷ 0 ∷ 0 ∷ 0 ∷ 0 ∷ 221 ∷ 8 ∷ 47 ∷ 217 ∷ []

abbrev pub b0 : Conn
b0 = opened (record { incoming = data_frame; outgoing = [] })

abbrev pub b1 : Conn
b1 = record {
  transport = record { incoming = []; outgoing = ack_frame };
  timer = 0;
  config = record { session = 7; retransmit_timeout = 1000; max_retries = 8 };
  health = health_ok;
  tx = idle;
  tx_frame = replicate 32 0;
  tx_len = 0;
  tx_next = 0;
  tx_deadline = 0;
  tx_retries = 0;
  final_input = none;
  out = out_idle;
  ack_pending = none;
  ack_frame = ack_frame;
  ack_len = 20;
  rx_buf = drop 1 data_frame ++ replicate 11 0;
  rx_len = 0;
  rx_discarding = false;
  rx_payload = 5 ∷ replicate 31 0;
  rx_start = 2;
  rx_end = 2;
  rx_next = 1;
  scratch = data_content ++ replicate 13 0;
  waiters = record { read = none; write = none; flush = none; progress = none };
  woken = [];
  seen = (data_content) ∷ [];
  begun = (ack_frame) ∷ [];
}

abbrev pub a0 : Conn
a0 = opened (record { incoming = ack_frame; outgoing = [] })

abbrev pub a1 : Conn
a1 = record {
  transport = record { incoming = []; outgoing = data_frame };
  timer = 0;
  config = record { session = 7; retransmit_timeout = 1000; max_retries = 8 };
  health = health_ok;
  tx = idle;
  tx_frame = data_frame ++ replicate 10 0;
  tx_len = 22;
  tx_next = 1;
  tx_deadline = 0;
  tx_retries = 0;
  final_input = none;
  out = out_idle;
  ack_pending = none;
  ack_frame = replicate 20 0;
  ack_len = 0;
  rx_buf = drop 1 ack_frame ++ replicate 13 0;
  rx_len = 0;
  rx_discarding = false;
  rx_payload = replicate 32 0;
  rx_start = 0;
  rx_end = 0;
  rx_next = 0;
  scratch =
      2
      ∷ 0
      ∷ 0
      ∷ 0
      ∷ 0
      ∷ 0
      ∷ 0
      ∷ 0
      ∷ 7
      ∷ 0
      ∷ 0
      ∷ 0
      ∷ 0
      ∷ 221
      ∷ 8
      ∷ 47
      ∷ 217
      ∷ 18
      ∷ 196
      ∷ replicate 13 0;
  waiters = record { read = none; write = none; flush = none; progress = none };
  woken = [];
  seen = (ack_content) ∷ [];
  begun = (data_frame) ∷ [];
}

abbrev pub a2 : Conn
a2 = record {
  transport = record { incoming = []; outgoing = data_frame };
  timer = 0;
  config = record { session = 7; retransmit_timeout = 1000; max_retries = 8 };
  health = health_ok;
  tx = idle;
  tx_frame = data_frame ++ replicate 10 0;
  tx_len = 22;
  tx_next = 1;
  tx_deadline = 0;
  tx_retries = 0;
  final_input = none;
  out = out_idle;
  ack_pending = none;
  ack_frame = replicate 20 0;
  ack_len = 0;
  rx_buf = drop 1 ack_frame ++ replicate 13 0;
  rx_len = 0;
  rx_discarding = false;
  rx_payload = replicate 32 0;
  rx_start = 0;
  rx_end = 0;
  rx_next = 0;
  scratch =
      2
      ∷ 0
      ∷ 0
      ∷ 0
      ∷ 0
      ∷ 0
      ∷ 0
      ∷ 0
      ∷ 7
      ∷ 0
      ∷ 0
      ∷ 0
      ∷ 0
      ∷ 221
      ∷ 8
      ∷ 47
      ∷ 217
      ∷ 18
      ∷ 196
      ∷ replicate 13 0;
  waiters = record { read = none; write = none; flush = none; progress = none };
  woken = [];
  seen = (ack_content) ∷ [];
  begun = (data_frame) ∷ [];
}

abbrev pub data_bytes : Bytes
data_bytes = packet_bytes (data_packet 7 0 (5 ∷ 0 ∷ []))

abbrev pub ack_bytes : Bytes
ack_bytes = packet_bytes (ack_packet 7 0)

abbrev pub a_start : Wire
a_start = record { incoming = ack_frame; outgoing = [] }

abbrev pub b_start : Wire
b_start = record { incoming = data_frame; outgoing = [] }

-- The code takes the connections from each of these states to the next one.
pub runs :
    (new 32 a_start 0 settings ≡ ok a0)
    × (new 32 b_start 0 settings ≡ ok b0)
    × (poll_write answering_link still_clock 32 1 (5 ∷ 0 ∷ []) a0 ≡ ret (a1, ready (ok 2)))
    × (poll_flush answering_link still_clock 32 1 a1 ≡ ret (a2, ready (ok tt)))
    × (poll_read wire_link still_clock 32 1 (replicate 2 9) b0 ≡ ret (5 ∷ 0 ∷ [], b1, ready (ok 2)))
    × (a2.begun ≡ frame_of data_bytes ∷ [])
    × (b1.seen ≡ data_bytes ∷ [])
    × (b1.begun ≡ frame_of ack_bytes ∷ [])
    × (a2.seen ≡ ack_bytes ∷ [])
unfolding new begin_output pending_output wrote write_output flushed flush_polled flush_output
    run_output drive_output poll_output position_zero spend_allowance on_ack on_data on_packet
    on_decoded process_frame keep_partial remove_frame take_frame process_loop process_input
    received poll_input final_input_len allowance_over polled_deadline retransmit run_deadline
    poll_timer fail report failure after_timer after_input after_output step settle drive_loop drive
    notify_op notify finish read_payload poll_read check_sequence accept try_accept queue_packet
    poll_write flush_result poll_flush register clear wake wake_by_ref decode_slice decode_to_slice
    to_be_bytes from_be_bytes sub slice_to slice_from copy_at write_at crc_bit crc_entry crc_table
    crc_byte crc32 ack_frame_len encode_data encode_ack parse max_payload max_encoding_overhead
    max_encoding_length encode_from_slice encode_from_slice_including_sentinels encode_rest append
    set stuff_from
runs = (refl, refl, refl, refl, refl, refl, refl, refl, refl)
