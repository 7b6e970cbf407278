-- ===== src/Connection/Valid/Driving.antt =====
-- `poll_input` and `poll_timer` against the invariant and the budget.
use cobs_io_async_rs.Connection.Deadline.{
  polled_deadline, retransmit, run_deadline, poll_timer, allowance_over,
}
use cobs_io_async_rs.Connection.Input.{process_input, received, poll_input, spend_allowance}
use cobs_io_async_rs.Connection.State.{
  Tx, idle, queued, sending, waiting, Work, blocked, progress, yield, Reliable, Outcome, is_waiting,
}
use cobs_io_async_rs.Connection.Valid.Input.{process_input-Processed, Processed}
use cobs_io_async_rs.Connection.Valid.{IsValid, HasFrame}
use cobs_io_async_rs.Error.{ConnectionError}
use cobs_io_async_rs.Prelude.Exec.Holds.{Holds, bind-Holds, if-Holds, slice_from-Holds}
use cobs_io_async_rs.Prelude.Exec.{slice_from}
use cobs_io_async_rs.Prelude.{
  ℕ, zero, suc, ◌+◌, ◌≤◌, ◌<◌, ◌≡◌, ap, min, ◌++◌, true, leb, Option, none, some, Result, ok, err,
  length, length-append, length-take, length-drop, take, drop, arith,
}
use cobs_io_async_rs.Transport.{Waker, Poll, ready, pending, Transport, Timer, KeepsLength}

waiting-HasFrame : (tx : Tx) (tx_len : ℕ) → is_waiting tx ≡ true → HasFrame tx tx_len → 0 < tx_len
waiting-HasFrame waiting tx_len e h = h
waiting-HasFrame idle tx_len e h = absurd (cc e)
waiting-HasFrame queued tx_len e h = absurd (cc e)
waiting-HasFrame sending tx_len e h = absurd (cc e)

-- Work that is more than blocked has spent budget, or yields for want of it.
abbrev pub Used : {E : Type 0} → ℕ → ℕ → Result Work (ConnectionError E) → Type 0
Used budget left (ok yield) = Unit
Used budget left (ok blocked) = left < budget
Used budget left (ok progress) = left < budget
Used budget left (err e) = Unit

module _ {T C E : Type 0} (link : Transport T E) (clock : Timer C) (capacity : ℕ) where
  abbrev pub Input : ℕ → ℕ × Outcome T C E → Type 0
  Input budget (left, (c, r)) = IsValid capacity c × (left ≤ budget) × Used budget left r

  abbrev pub Kept : Outcome T C E → Type 0
  Kept (c, r) = IsValid capacity c

  received-Kept :
      (n : ℕ) (c : Reliable T C E) (p : Poll (Result ℕ E))
      → c.rx_len + n ≡ capacity
      → IsValid capacity c
      → Holds Kept (received capacity link n c p)
  unfolding received
  received-Kept n c pending e v = v
  received-Kept n c (ready (err x)) e v = v
  received-Kept n c (ready (ok zero)) e v = v
  received-Kept n c (ready (ok (suc k))) e ((s, r, l), room) =
      bind-Holds (Processed capacity) Kept
        (process_input capacity (record c {
          rx_len = c.rx_len + min (suc k) n;
          final_input = spend_allowance (min (suc k) n) c.final_input;
        }))
        _
        (process_input-Processed capacity _ (
          s,
          record {
            payload_fits = r.payload_fits;
            rx_buf_length = r.rx_buf_length;
            rx_len_le = omega arith;
            rx_payload_length = r.rx_payload_length;
            rx_start_le = r.rx_start_le;
            rx_end_le = r.rx_end_le;
          },
          l,
        ))
        (λ c' p. p.0)

  pub poll_input-Input :
      KeepsLength link
      → (cx : Waker) (budget : ℕ) (c : Reliable T C E) → IsValid capacity c
      → Holds (Input budget) (poll_input capacity link cx budget c)
  unfolding poll_input
  poll_input-Input keeps cx zero c v = (v, omega arith, tt)
  poll_input-Input keeps cx (suc left) c ((s, r, l), room) =
      bind-Holds (λ b. b ≡ drop c.rx_len c.rx_buf) (Input (suc left)) (slice_from c.rx_buf c.rx_len)
        _ (slice_from-Holds c.rx_buf c.rx_len (omega (arith, r.rx_len_le, r.rx_buf_length)))
        (λ free e.
          let t = link.poll_read c.transport cx free in
          let n : c.rx_len + length t.1 ≡ capacity = omega (
            arith,
            keeps c.transport cx free,
            ap length e,
            length-drop c.rx_len c.rx_buf,
            r.rx_buf_length,
            r.rx_len_le,
          ) in
          bind-Holds Kept (Input (suc left))
            (received capacity link (length t.1)
              (record c { transport = t.0; rx_buf = take c.rx_len c.rx_buf ++ t.1 }) t.2)
            _
            (received-Kept (length t.1) _ t.2 n (
              (
                s,
                record {
                  payload_fits = r.payload_fits;
                  rx_buf_length = omega (
                    arith,
                    length-append (take c.rx_len c.rx_buf) t.1,
                    length-take c.rx_len c.rx_buf,
                    r.rx_buf_length,
                  );
                  rx_len_le = r.rx_len_le;
                  rx_payload_length = r.rx_payload_length;
                  rx_start_le = r.rx_start_le;
                  rx_end_le = r.rx_end_le;
                },
                l,
              ),
              room,
            ))
            (λ o k. (k, omega arith, used left o.1)))
    where
      used : (left : ℕ) (r : Result Work (ConnectionError E)) → Used (suc left) left r
      used left (ok blocked) = omega arith
      used left (ok progress) = omega arith
      used left (ok yield) = tt
      used left (err e) = tt

  pub poll_timer-Kept :
      (cx : Waker) (input : Work) (c : Reliable T C E)
      → IsValid capacity c
      → Kept (poll_timer clock capacity cx input c)
  unfolding poll_timer retransmit polled_deadline run_deadline
  poll_timer-Kept cx input c v =
      if-Holds Kept (is_waiting c.tx)
        (λ e. run c.final_input (waiting-HasFrame c.tx c.tx_len e v.0.0.has_frame)) (λ e. v)
    where
      retransmitted : 0 < c.tx_len → Kept (retransmit clock capacity c)
      retransmitted pos =
          if-Holds Kept (leb c.config.max_retries c.tx_retries) (λ e. v)
            (λ e. (
              (
                record {
                  tx_frame_length = v.0.0.tx_frame_length;
                  tx_len_le = v.0.0.tx_len_le;
                  ack_frame_length = v.0.0.ack_frame_length;
                  ack_len_le = v.0.0.ack_len_le;
                  in_frame = v.0.0.in_frame;
                  has_frame = pos;
                },
                v.0.1,
                v.0.2,
              ),
              v.1,
            ))

      polled :
          (timer : C) (p : Poll (Unit {0}))
          → Kept (polled_deadline clock capacity (record c { timer = timer }) p)
      polled timer pending = v
      polled timer (ready u) = v

      run :
          (final_input : Option ℕ)
          → 0 < c.tx_len
          → Kept (run_deadline clock capacity cx input final_input c)
      run none pos = let t = clock.poll_deadline c.timer cx c.tx_deadline in polled t.0 t.1
      run (some left) pos =
          if-Holds Kept (allowance_over input left) (λ e. retransmitted pos) (λ e. v)
