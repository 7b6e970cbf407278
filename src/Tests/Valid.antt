-- ===== src/Tests/Valid.antt =====
-- The connection over a link in memory: its operations at concrete inputs.
use cobs_io_async_rs.Connection.Budget.Polls.{poll_calls}
use cobs_io_async_rs.Connection.Budget.{Counted, counted}
use cobs_io_async_rs.Connection.Api.{new, finish, poll_progress, poll_read, poll_write, poll_flush}
use cobs_io_async_rs.Connection.Api.Failed.{closed, failed_lem}
use cobs_io_async_rs.Connection.Api.TimedOut.{timed_out}
use cobs_io_async_rs.Connection.Api.Finish.{finish_ready_lem}
use cobs_io_async_rs.Connection.Input.{process_input}
use cobs_io_async_rs.Connection.State.{
  Reliable, new_config, idle, op_read, op_write, op_flush, op_progress, health_failed,
}
use cobs_io_async_rs.Connection.Valid.Api.{
  Created, new-Created, poll_progress-IsValid, poll_flush-IsValid,
}
use cobs_io_async_rs.Connection.Valid.Input.{Processed, process_input-Processed}
use cobs_io_async_rs.Connection.Valid.Reading.{Read, poll_read-Read}
use cobs_io_async_rs.Connection.Valid.Writing.{Written, poll_write-Written}
use cobs_io_async_rs.Connection.Valid.Waits.{Reads, Writes, Flushes, Progresses, poll_waits}
use cobs_io_async_rs.Connection.Valid.{IsValid}
use cobs_io_async_rs.Connection.Waiters.{no_waiters}
use cobs_io_async_rs.Error.{timeout}
use cobs_io_async_rs.Transport.{ready, pending, Transport}
use cobs_io_async_rs.Prelude.Exec.{ret}
use cobs_io_async_rs.Prelude.Exec.Holds.{Holds}
use cobs_io_async_rs.Prelude.{◌≤◌, ◌+◌, refl, [], ◌∷◌, replicate, arith, ℕ, ◌≡◌, Option, err}
use cobs_io_async_rs.Protocol.Packet.{ack_frame_len}
use cobs_io_async_rs.Protocol.Payload.{max_payload}
use cobs_io_async_rs.Sizes.{max_encoding_length}
use cobs_io_async_rs.Tests.Connection.{Conn, conn}
use cobs_io_async_rs.Tests.Wire.{Wire, wire_link, still_clock, wire_link-KeepsLength}

abbrev no_wire : Wire
no_wire = record { incoming = []; outgoing = [] }

new-Created_example : Created {C = ℕ} {E = ⊥} 21 (new 21 no_wire 0 (new_config 7))
new-Created_example = new-Created {C = ℕ} ⊥ 21 no_wire 0 (new_config 7)

-- A connection that waits for an ACK is valid.
conn-IsValid : IsValid 32 conn
unfolding max_payload max_encoding_length ack_frame_len
conn-IsValid = (
  (
    record {
      tx_frame_length = refl;
      tx_len_le = omega arith;
      ack_frame_length = refl;
      ack_len_le = omega arith;
      in_frame = tt;
      has_frame = omega arith;
    },
    record {
      payload_fits = omega arith;
      rx_buf_length = refl;
      rx_len_le = omega arith;
      rx_payload_length = refl;
      rx_start_le = omega arith;
      rx_end_le = omega arith;
    },
    refl,
  ),
  omega arith,
)

-- The same connection with a frame and a half in its input buffer, and an idle one.
abbrev fed : Conn
fed = record conn { rx_buf = 2 ∷ 7 ∷ 0 ∷ 3 ∷ 4 ∷ replicate 27 0; rx_len = 5 }

abbrev free : Conn
free = record conn { tx = idle }

process_input-Processed_example : Holds (Processed 32) (process_input 32 fed)
process_input-Processed_example = process_input-Processed 32 fed (
  conn-IsValid.0.0,
  record {
    payload_fits = conn-IsValid.0.1.payload_fits;
    rx_buf_length = refl;
    rx_len_le = omega arith;
    rx_payload_length = refl;
    rx_start_le = omega arith;
    rx_end_le = omega arith;
  },
  refl,
)

free-IsValid : IsValid 32 free
free-IsValid = (
  (
    record {
      tx_frame_length = conn-IsValid.0.0.tx_frame_length;
      tx_len_le = conn-IsValid.0.0.tx_len_le;
      ack_frame_length = conn-IsValid.0.0.ack_frame_length;
      ack_len_le = conn-IsValid.0.0.ack_len_le;
      in_frame = tt;
      has_frame = tt;
    },
    conn-IsValid.0.1,
    refl,
  ),
  conn-IsValid.1,
)

poll_progress-IsValid_example :
    Holds (λ r. IsValid 32 r.0) (poll_progress wire_link still_clock 32 9 conn)
poll_progress-IsValid_example =
    poll_progress-IsValid wire_link still_clock 32 wire_link-KeepsLength 9 conn conn-IsValid

poll_flush-IsValid_example :
    Holds (λ r. IsValid 32 r.0) (poll_flush wire_link still_clock 32 9 conn)
poll_flush-IsValid_example =
    poll_flush-IsValid wire_link still_clock 32 wire_link-KeepsLength 9 conn conn-IsValid

poll_read-Read_example :
    Holds
      (Read wire_link still_clock 32 (0 ∷ 0 ∷ []))
      (poll_read wire_link still_clock 32 9 (0 ∷ 0 ∷ []) conn)
poll_read-Read_example =
    poll_read-Read wire_link still_clock 32 wire_link-KeepsLength 9 (0 ∷ 0 ∷ []) conn conn-IsValid

poll_write-Written_example :
    Holds
      (Written wire_link still_clock 32 (5 ∷ 0 ∷ []))
      (poll_write wire_link still_clock 32 9 (5 ∷ 0 ∷ []) free)
poll_write-Written_example =
    poll_write-Written wire_link still_clock 32 wire_link-KeepsLength (omega arith) 9 (5 ∷ 0 ∷ [])
      free free-IsValid

finish_ready_lem_example :
    finish {R = ℕ} op_read 9 conn (ready 3)
    ≡ (record conn { waiters = no_waiters; woken = 5 ∷ 6 ∷ [] }, ready 3)
finish_ready_lem_example = finish_ready_lem op_read 9 conn 3

abbrev broken : Conn
broken = record conn { health = health_failed timeout }

failed_lem_example :
    (poll_progress wire_link still_clock 32 9 broken
      ≡ ret (closed op_progress broken, ready timeout))
    × (poll_flush wire_link still_clock 32 9 broken
        ≡ ret (closed op_flush broken, ready (err timeout)))
    × ((left : Option ℕ) × (poll_write wire_link still_clock 32 9 (5 ∷ 0 ∷ []) broken
          ≡ ret (record (closed op_write broken) { final_input = left }, ready (err timeout))))
failed_lem_example = failed_lem wire_link still_clock 32 9 timeout 5 (0 ∷ []) broken refl

poll_waits_example :
    Holds
      (Reads wire_link still_clock 32 9)
      (poll_read wire_link still_clock 32 9 (0 ∷ 0 ∷ []) conn)
    × Holds
        (Writes wire_link still_clock 32 9)
        (poll_write wire_link still_clock 32 9 (0 ∷ 0 ∷ []) conn)
    × Holds (Flushes wire_link still_clock 32 9) (poll_flush wire_link still_clock 32 9 conn)
    × Holds (Progresses wire_link still_clock 32 9) (poll_progress wire_link still_clock 32 9 conn)
poll_waits_example =
    poll_waits wire_link still_clock 32 wire_link-KeepsLength (omega arith) 9 (0 ∷ 0 ∷ []) conn
      conn-IsValid

-- The same connection, over a link that counts its calls.
abbrev counting : Reliable (Counted Wire) ℕ ⊥
counting = record {
  transport = record { link = conn.transport; calls = 3 };
  timer = conn.timer;
  config = conn.config;
  health = conn.health;
  tx = conn.tx;
  tx_frame = conn.tx_frame;
  tx_len = conn.tx_len;
  tx_next = conn.tx_next;
  tx_deadline = conn.tx_deadline;
  tx_retries = conn.tx_retries;
  final_input = conn.final_input;
  out = conn.out;
  ack_pending = conn.ack_pending;
  ack_frame = conn.ack_frame;
  ack_len = conn.ack_len;
  rx_buf = conn.rx_buf;
  rx_len = conn.rx_len;
  rx_discarding = conn.rx_discarding;
  rx_payload = conn.rx_payload;
  rx_start = conn.rx_start;
  rx_end = conn.rx_end;
  rx_next = conn.rx_next;
  scratch = conn.scratch;
  waiters = conn.waiters;
  woken = conn.woken;
  seen = conn.seen;
  begun = conn.begun;
}

poll_calls_example :
    Holds
      (λ r. r.1.transport.calls ≤ 3 + 16)
      (poll_read (counted wire_link) still_clock 32 9 (0 ∷ 0 ∷ []) counting)
    × Holds
        (λ r. r.0.transport.calls ≤ 3 + 16)
        (poll_write (counted wire_link) still_clock 32 9 (0 ∷ 0 ∷ []) counting)
    × Holds
        (λ r. r.0.transport.calls ≤ 3 + 16)
        (poll_flush (counted wire_link) still_clock 32 9 counting)
    × Holds
        (λ r. r.0.transport.calls ≤ 3 + 16)
        (poll_progress (counted wire_link) still_clock 32 9 counting)
poll_calls_example =
    poll_calls wire_link still_clock 32 wire_link-KeepsLength (omega arith) 9 (0 ∷ 0 ∷ []) counting
      conn-IsValid

-- A link that gives nothing, and a connection that has sent its packet eight times again.
abbrev silent_link : Transport Wire ⊥
silent_link = record wire_link { poll_read = λ w cx buf. (w, buf, pending) }

abbrev tried : Conn
tried = record conn { timer = 1000; tx_retries = 8 }

timed_out_example :
    Holds (λ r. r.1 ≡ ready timeout) (poll_progress silent_link still_clock 32 9 tried)
    × Holds (λ r. r.1 ≡ ready (err timeout)) (poll_flush silent_link still_clock 32 9 tried)
    × Holds
        (λ r. r.1 ≡ ready (err timeout))
        (poll_write silent_link still_clock 32 9 (5 ∷ []) tried)
timed_out_example =
    timed_out silent_link still_clock 32 (λ w cx buf. refl) 9 5 [] tried
      (record {
        waits = refl;
        silent = refl;
        owes = refl;
        left = refl;
        spent = omega arith;
        well = refl;
        fits = omega arith;
      })
      refl
