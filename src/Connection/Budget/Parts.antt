-- ===== src/Connection/Budget/Parts.antt =====
-- What does not call the link leaves its state alone.
use cobs_io_async_rs.Connection.Input.{process_input}
use cobs_io_async_rs.Connection.Kept.Api.{IsUserKept}
use cobs_io_async_rs.Connection.Kept.Input.{process_loop_kept, poll_input_kept}
use cobs_io_async_rs.Connection.Kept.Output.{poll_output_kept}
use cobs_io_async_rs.Connection.Kept.Packets.{IsPacketKept, on_packet_kept}
use cobs_io_async_rs.Connection.Kept.{Begun, IsKept, IsInputKept, IsOutputKept}
use cobs_io_async_rs.Connection.Output.{begin_output, wrote, flushed, flush_polled}
use cobs_io_async_rs.Connection.State.{
  Frame, ack, data_frame, Out, out_idle, writing, flushing, Reliable, Outcome, is_queued,
  is_sending,
}
use cobs_io_async_rs.Prelude.Exec.Ensures.{Ensures, bind-Ensures, Ensures-any}
use cobs_io_async_rs.Prelude.Exec.Holds.{if-Holds}
use cobs_io_async_rs.Prelude.{ℕ, zero, suc, ◌+◌, ◌≡◌, Option, none, some, Result, ok, err}
use cobs_io_async_rs.Protocol.Packet.{encode_ack, parse}
use cobs_io_async_rs.Transport.{Poll, ready, pending, Transport, Timer}

-- Its link is in the state `t`.
abbrev pub At : {T C E : Type 0} → T → Reliable T C E → Type 0
At t c = c.transport ≡ t

-- A link that never answers.
abbrev pub mute : {T E : Type 0} → Transport T E
mute = record {
  poll_read = λ t cx buf. (t, buf, pending);
  poll_write = λ t cx buf. (t, pending);
  poll_flush = λ t cx. (t, pending);
}

module _ {T C E : Type 0} (link : Transport T E) (clock : Timer C) (t : T) where
  abbrev After : Outcome T C E → Type 0
  After (c, r) = At t c

  pub begin_output-At :
      (out : Out) (seq : Option ℕ) (c : Reliable T C E)
      → At t c
      → Ensures (Begun (At t)) (begin_output link clock out seq c)
  unfolding begin_output
  begin_output-At out_idle (some seq) c v =
      bind-Ensures (λ w. Unit {0}) (Begun (At t)) (encode_ack c.config.session seq c.ack_frame) _
        (Ensures-any (encode_ack c.config.session seq c.ack_frame)) (λ w i. v)
  begin_output-At out_idle none c v =
      if-Holds (Ensures (Begun (At t))) (is_queued c.tx) (λ q. v) (λ q. tt)
  begin_output-At (writing frame offset) seq c v = v
  begin_output-At (flushing frame) seq c v = v

  pub wrote-At :
      (frame : Frame) (offset len n : ℕ) (c : Reliable T C E) (p : Poll (Result ℕ E))
      → At t c
      → After (wrote link clock frame offset len n c p)
  unfolding wrote
  wrote-At frame offset len n c pending v = v
  wrote-At frame offset len n c (ready (err e)) v = v
  wrote-At frame offset len n c (ready (ok zero)) v = v
  wrote-At frame offset len n c (ready (ok (suc k))) v = v

  flushed-At : (frame : Frame) (c : Reliable T C E) → At t c → At t (flushed link clock frame c)
  unfolding flushed
  flushed-At ack c v = v
  flushed-At data_frame c v = if-Holds (At t) (is_sending c.tx) (λ e. v) (λ e. v)

  pub flush_polled-At :
      (frame : Frame) (c : Reliable T C E) (p : Poll (Result (Unit {0}) E))
      → At t c
      → After (flush_polled link clock frame c p)
  unfolding flush_polled
  flush_polled-At frame c pending v = v
  flush_polled-At frame c (ready (err e)) v = v
  flush_polled-At frame c (ready (ok u)) v = flushed-At frame c v

module _ {T C E : Type 0} (clock : Timer C) (capacity : ℕ) (t : T) where
  At-IsPacketKept : IsPacketKept {T = T} {C = C} {E = E} (At t)
  At-IsPacketKept = record {
    completed = λ c v. v;
    taken = λ c rx_payload rx_end seq v. v;
    owed = λ c seq v. v;
  }

  At-IsInputKept : IsInputKept {C = C} {E = E} mute capacity (At t)
  At-IsInputKept = record {
    reads_from = λ c cx free v. v;
    buffers = λ c left rx_buf rx_len discarding scratch v. v;
    handled = λ bytes c v. on_packet_kept capacity (At t) At-IsPacketKept (parse bytes) _ v;
  }

  pub process_input-At : (c : Reliable T C E) → At t c → Ensures (At t) (process_input capacity c)
  unfolding process_input
  process_input-At c v = process_loop_kept mute capacity (At t) At-IsInputKept (c.rx_len + 1) c v

  At-IsOutputKept : IsOutputKept {E = E} mute clock (At t)
  At-IsOutputKept = record {
    begun = λ c v. begin_output-At mute clock t c.out c.ack_pending c v;
    writes_to = λ c cx bytes v. v;
    flushes_to = λ c cx v. v;
    moved = λ o c v. v;
    flushes = flushed-At mute clock t;
  }

  pub At-IsKept : IsKept {E = E} mute clock capacity (At t)
  At-IsKept = record {
    plumbing = λ c k h left w woken v. v;
    outputs = poll_output_kept mute clock (At t) At-IsOutputKept;
    inputs = poll_input_kept mute capacity (At t) At-IsInputKept;
    again = λ c e more v. v;
  }

  pub At-IsUserKept : IsUserKept {T = T} {C = C} {E = E} (At t)
  At-IsUserKept = record { reads = λ c n v. v; accepts = λ c scratch frame len free same v. v }
