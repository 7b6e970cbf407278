-- ===== src/Tests/Exchange/Noted.antt =====
-- The exchange of one payload over links that note what goes over them.
use cobs_io_async_rs.Codec.Decode.{decode_slice, decode_to_slice}
use cobs_io_async_rs.Connection.Api.{
  new, notify_op, notify, finish, read_payload, poll_read, check_sequence, accept, try_accept,
  queue_packet, poll_write, flush_result, poll_flush,
}
use cobs_io_async_rs.Connection.Deadline.{
  final_input_len, allowance_over, polled_deadline, retransmit, run_deadline, poll_timer,
}
use cobs_io_async_rs.Connection.Drive.{
  fail, report, failure, after_timer, after_input, after_output, step, settle, drive_loop, drive,
}
use cobs_io_async_rs.Connection.Input.{
  position_zero, spend_allowance, on_ack, on_data, on_packet, on_decoded, process_frame,
  keep_partial, remove_frame, take_frame, process_loop, process_input, received, poll_input,
}
use cobs_io_async_rs.Connection.Output.{
  begin_output, pending_output, wrote, write_output, flushed, flush_polled, flush_output,
  run_output, drive_output, poll_output,
}
use cobs_io_async_rs.Connection.Waiters.{register, clear, wake, wake_by_ref}
use cobs_io_async_rs.Protocol.Crc.{crc_bit, crc_entry, crc_table, crc_byte, crc32}
use cobs_io_async_rs.Protocol.Packet.{ack_frame_len, encode_data, encode_ack, parse}
use cobs_io_async_rs.Protocol.Payload.{max_payload}
use cobs_io_async_rs.Sizes.{max_encoding_overhead, max_encoding_length}
use cobs_io_async_rs.Sync.Encode.{encode_from_slice, encode_from_slice_including_sentinels}
use cobs_io_async_rs.Sync.Encode.Rounds.{encode_rest}
use cobs_io_async_rs.Sync.Output.{append, set}
use cobs_io_async_rs.Sync.Stuffing.{stuff_from}
use cobs_io_async_rs.Prelude.Exec.{ret, sub, slice_to, slice_from, copy_at}
use cobs_io_async_rs.Prelude.{
  ◌≡◌, refl, [], ◌∷◌, replicate, ok, Bytes, write_at, to_be_bytes, from_be_bytes,
}
use cobs_io_async_rs.Tests.Wire.{Wire, wire_link, still_clock, answering_link}
use cobs_io_async_rs.Tests.Connection.{Conn}
use cobs_io_async_rs.Transport.{ready}
use cobs_io_async_rs.Tests.Exchange.States.{
  a_start, b_start, settings, data_frame, ack_frame, a0, a1, a2, b0, b1,
}
use cobs_io_async_rs.Connection.State.{Reliable}
use cobs_io_async_rs.Connection.Stream.Assembly.{assemble, feed}
use cobs_io_async_rs.Connection.Stream.{Logged, logged}
use cobs_io_async_rs.Connection.History.Life.{Life, created, writes, reads}
use cobs_io_async_rs.Prelude.{ℕ}

-- A connection whose link has accepted and given these bytes.
abbrev pub noted : Bytes → Bytes → Conn → Reliable (Logged Wire) ℕ ⊥
noted sent received c = record {
  transport = record { link = c.transport; sent = sent; received = received };
  timer = c.timer;
  config = c.config;
  health = c.health;
  tx = c.tx;
  tx_frame = c.tx_frame;
  tx_len = c.tx_len;
  tx_next = c.tx_next;
  tx_deadline = c.tx_deadline;
  tx_retries = c.tx_retries;
  final_input = c.final_input;
  out = c.out;
  ack_pending = c.ack_pending;
  ack_frame = c.ack_frame;
  ack_len = c.ack_len;
  rx_buf = c.rx_buf;
  rx_len = c.rx_len;
  rx_discarding = c.rx_discarding;
  rx_payload = c.rx_payload;
  rx_start = c.rx_start;
  rx_end = c.rx_end;
  rx_next = c.rx_next;
  scratch = c.scratch;
  waiters = c.waiters;
  woken = c.woken;
  seen = c.seen;
  begun = c.begun;
}

abbrev pub unused : Wire → Logged Wire
unused wire = record { link = wire; sent = []; received = [] }

pub noted_runs :
    (new 32 (unused a_start) 0 settings ≡ ok (noted [] [] a0))
    × (new 32 (unused b_start) 0 settings ≡ ok (noted [] [] b0))
    × (poll_write (logged answering_link) still_clock 32 1 (5 ∷ 0 ∷ []) (noted [] [] a0)
        ≡ ret (noted data_frame ack_frame a1, ready (ok 2)))
    × (poll_flush (logged answering_link) still_clock 32 1 (noted data_frame ack_frame a1)
        ≡ ret (noted data_frame ack_frame a2, ready (ok tt)))
    × (poll_read (logged wire_link) still_clock 32 1 (replicate 2 9) (noted [] [] b0)
        ≡ ret (5 ∷ 0 ∷ [], noted ack_frame data_frame b1, ready (ok 2)))
unfolding new begin_output pending_output wrote write_output flushed flush_polled flush_output
    run_output drive_output poll_output position_zero spend_allowance on_ack on_data on_packet
    on_decoded process_frame keep_partial remove_frame take_frame process_loop process_input
    received poll_input final_input_len allowance_over polled_deadline retransmit run_deadline
    poll_timer fail report failure after_timer after_input after_output step settle drive_loop drive
    notify_op notify finish read_payload poll_read check_sequence accept try_accept queue_packet
    poll_write flush_result poll_flush register clear wake wake_by_ref decode_slice decode_to_slice
    to_be_bytes from_be_bytes sub slice_to slice_from copy_at write_at crc_bit crc_entry crc_table
    crc_byte crc32 ack_frame_len encode_data encode_ack parse max_payload max_encoding_overhead
    max_encoding_length encode_from_slice encode_from_slice_including_sentinels encode_rest append
    set stuff_from
noted_runs = (refl, refl, refl, refl, refl)

pub a1-noted :
    Life
      (logged answering_link)
      still_clock
      32
      settings
      (unused a_start)
      ((5 ∷ 0 ∷ []) ∷ [])
      []
      (noted data_frame ack_frame a1)
a1-noted = writes 1 (5 ∷ 0 ∷ []) (created 0 noted_runs.0) noted_runs.2

pub b1-noted :
    Life
      (logged wire_link)
      still_clock
      32
      settings
      (unused b_start)
      []
      (5 ∷ 0 ∷ [])
      (noted ack_frame data_frame b1)
b1-noted = reads 1 (replicate 2 9) (created 0 noted_runs.1) noted_runs.4

-- Between the zeros of a stream, for a capacity of four bytes: the frame that is too long is passed
-- over, and so is an empty one.
assembled :
    (assemble 4 (1 ∷ 2 ∷ 0 ∷ 0 ∷ 5 ∷ 6 ∷ 7 ∷ 8 ∷ 9 ∷ 0 ∷ 3 ∷ 0 ∷ 4 ∷ [])).frames
    ≡ (1 ∷ 2 ∷ 0 ∷ []) ∷ (3 ∷ 0 ∷ []) ∷ []
unfolding assemble feed
assembled = refl
