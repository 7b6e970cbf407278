-- ===== src/Connection/Api/TimedOut.antt =====
-- A connection whose packet is not acknowledged, however often it was sent.
use cobs_io_async_rs.Connection.Api.{
  finish, check_sequence, try_accept, queue_packet, poll_write, flush_result, poll_flush,
  poll_progress,
}
use cobs_io_async_rs.Connection.Deadline.{
  final_input_len, allowance_over, polled_deadline, retransmit, run_deadline, poll_timer,
}
use cobs_io_async_rs.Connection.Drive.{
  fail, report, failure, after_timer, after_input, after_output, step, settle, drive_loop, drive,
}
use cobs_io_async_rs.Connection.Input.{received, poll_input}
use cobs_io_async_rs.Connection.Output.{begin_output, drive_output, poll_output}
use cobs_io_async_rs.Connection.State.{
  waiting, out_idle, blocked, progress, step_budget, health_ok, Reliable, is_ok,
}
use cobs_io_async_rs.Error.{timeout}
use cobs_io_async_rs.Prelude.Exec.Holds.{Holds}
use cobs_io_async_rs.Prelude.Exec.{ret, slice_from}
use cobs_io_async_rs.Prelude.{
  ℕ, suc, ◌≤◌, ◌≡◌, refl, ap, ◌∷◌, leb, true, length, take, drop, length-append, length-take, ◌++◌,
  Bytes, Option, none, some, ok, err, arith,
}
use cobs_io_async_rs.Transport.{Waker, ready, pending, Transport, Timer}

-- The link gives nothing.
abbrev pub Quiet : {T E : Type 0} → Transport T E → Type 0
Quiet {T} link = (t : T) (cx : Waker) (buf : Bytes) → (link.poll_read t cx buf).2 ≡ pending

-- It waits for an ACK with nothing to send, and its packet was sent again as often as is allowed.
pub record IsExhausted {T C E : Type 0} (final_input : Option ℕ) (c : Reliable T C E) : Type 0 where
  pub waits : c.tx ≡ waiting
  pub silent : c.out ≡ out_idle
  pub owes : c.ack_pending ≡ none
  pub left : c.final_input ≡ final_input
  pub spent : c.config.max_retries ≤ c.tx_retries
  pub well : c.health ≡ health_ok
  pub fits : c.rx_len ≤ length c.rx_buf

module _ {T C E : Type 0} (link : Transport T E) (clock : Timer C) (capacity : ℕ) (cx : Waker)
    (quiet : Quiet link) where
  -- The connection behind a call of `poll_read`.
  abbrev asked : Reliable T C E → Reliable T C E
  asked c =
      let t = link.poll_read c.transport cx (drop c.rx_len c.rx_buf) in
      record c { transport = t.0; rx_buf = take c.rx_len c.rx_buf ++ t.1 }

  poll_output-idle :
      (f : Option ℕ) (budget : ℕ) (c : Reliable T C E)
      → IsExhausted f c
      → poll_output link clock cx budget c ≡ ret (budget, (c, ok blocked))
  unfolding poll_output begin_output drive_output
  poll_output-idle f budget c v = rw (v.silent, v.owes, v.waits) refl

  poll_input-asked :
      (left : ℕ) (c : Reliable T C E)
      → c.rx_len ≤ length c.rx_buf
      → poll_input capacity link cx (suc left) c ≡ ret (left, (asked c, ok blocked))
  unfolding poll_input received slice_from
  poll_input-asked left c fits =
      let e : leb c.rx_len (length c.rx_buf) ≡ true = ground arith in
      rw (e, quiet c.transport cx (drop c.rx_len c.rx_buf)) refl

  -- The deadline has passed: what may still come in is awaited.
  step-expired :
      (left : ℕ) (c : Reliable T C E)
      → IsExhausted none c
      → (clock.poll_deadline c.timer cx c.tx_deadline).1 ≡ ready tt
      → step link clock capacity cx (suc left) c
        ≡ ret (
          left,
          (
            record (asked c) {
              timer = (clock.poll_deadline c.timer cx c.tx_deadline).0;
              final_input = some (final_input_len capacity);
            },
            ok progress,
          ),
        )
  unfolding step after_output after_input after_timer poll_timer run_deadline polled_deadline
  step-expired left c v e =
      rw (poll_output-idle none (suc left) c v, poll_input-asked left c v.fits, v.waits, v.left, e)
        refl

  -- Nothing has come in.
  step-timeout :
      (left f : ℕ) (c : Reliable T C E)
      → IsExhausted (some f) c
      → step link clock capacity cx (suc left) c
        ≡ ret (left, (record (asked c) { final_input = none }, err timeout))
  unfolding step after_output after_input after_timer poll_timer run_deadline retransmit
      allowance_over
  step-timeout left f c v =
      let e : leb c.config.max_retries c.tx_retries ≡ true = ground (arith, v.spent) in
      rw
        (
          poll_output-idle (some f) (suc left) c v,
          poll_input-asked left c v.fits,
          v.waits,
          v.left,
          e,
        )
        refl

  -- The connection that has waited for what may still come in.
  abbrev expired : Reliable T C E → Reliable T C E
  expired c = record (asked c) {
    timer = (clock.poll_deadline c.timer cx c.tx_deadline).0;
    final_input = some (final_input_len capacity);
  }

  expired-IsExhausted :
      (c : Reliable T C E)
      → IsExhausted none c
      → IsExhausted (some (final_input_len capacity)) (expired c)
  expired-IsExhausted c v = record {
    waits = v.waits;
    silent = v.silent;
    owes = v.owes;
    left = refl;
    spent = v.spent;
    well = v.well;
    fits =
        let buf = (link.poll_read c.transport cx (drop c.rx_len c.rx_buf)).1 in
        omega (
          arith,
          v.fits,
          length-append (take c.rx_len c.rx_buf) buf,
          length-take c.rx_len c.rx_buf,
        );
  }

  abbrev lost : Reliable T C E → Reliable T C E
  lost c = record (asked (expired c)) { final_input = none }

  drive-timeout :
      (c : Reliable T C E)
      → IsExhausted none c
      → (clock.poll_deadline c.timer cx c.tx_deadline).1 ≡ ready tt
      → drive link clock capacity cx step_budget c ≡ ret (14, fail timeout (lost c), blocked)
  unfolding drive drive_loop settle
  drive-timeout c v e =
      let healthy : is_ok c.health ≡ true = ap is_ok v.well in
      rw
        (
          healthy,
          step-expired 15 c v e,
          step-timeout 14 (final_input_len capacity) (expired c) (expired-IsExhausted c v),
        )
        refl

module _ {T C E : Type 0} (link : Transport T E) (clock : Timer C) (capacity : ℕ) where
  -- Over a link that gives nothing: if a healthy connection, whose input fits its buffer, waits for an
  -- ACK with nothing to send and no allowance granted, its packet has been sent again as often as is
  -- allowed, and the clock says that its deadline has passed, then poll_progress, poll_flush and
  -- poll_write of a nonempty buffer return, with the timeout.
  pub timed_out :
      Quiet link
      → (cx : Waker) (b : ℕ) (buf : Bytes) (c : Reliable T C E) → IsExhausted none c
      → (clock.poll_deadline c.timer cx c.tx_deadline).1 ≡ ready tt
      → Holds (λ r. r.1 ≡ ready timeout) (poll_progress link clock capacity cx c)
        × Holds (λ r. r.1 ≡ ready (err timeout)) (poll_flush link clock capacity cx c)
        × Holds (λ r. r.1 ≡ ready (err timeout)) (poll_write link clock capacity cx (b ∷ buf) c)
  unfolding poll_progress poll_flush poll_write queue_packet check_sequence try_accept flush_result
      failure report fail finish
  timed_out quiet cx b buf c v e =
      let lost = drive-timeout link clock capacity cx quiet c v e in
      let healthy : is_ok c.health ≡ true = ap is_ok v.well in
      (rw (lost, healthy) refl, rw (lost, healthy) refl, rw (lost, healthy, v.waits) refl)
