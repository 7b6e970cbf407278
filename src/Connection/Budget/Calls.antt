-- ===== src/Connection/Budget/Calls.antt =====
-- Each call of the link spends one of the budget.
use cobs_io_async_rs.Connection.Budget.Parts.{
  At, mute, begin_output-At, wrote-At, flush_polled-At, process_input-At, At-IsKept,
}
use cobs_io_async_rs.Connection.Budget.{Counted, counted}
use cobs_io_async_rs.Connection.Deadline.{poll_timer}
use cobs_io_async_rs.Connection.Drive.{
  after_timer, after_input, after_output, step, settle, drive_loop, drive,
}
use cobs_io_async_rs.Connection.Input.{process_input, received, poll_input, spend_allowance}
use cobs_io_async_rs.Connection.Kept.Deadline.{poll_timer_kept}
use cobs_io_async_rs.Connection.Kept.Driver.{fail_kept}
use cobs_io_async_rs.Connection.Kept.{Begun}
use cobs_io_async_rs.Connection.Output.{
  pending_output, write_output, begin_output, flush_output, run_output, drive_output, poll_output,
}
use cobs_io_async_rs.Connection.State.{
  Out, out_idle, writing, flushing, Work, blocked, progress, yield, Reliable, Outcome, is_ok,
}
use cobs_io_async_rs.Connection.Waiters.{wake_by_ref}
use cobs_io_async_rs.Prelude.Exec.Ensures.{Ensures, bind-Ensures, Ensures-any}
use cobs_io_async_rs.Prelude.Exec.Holds.{if-Holds}
use cobs_io_async_rs.Prelude.Exec.{ret, slice_from}
use cobs_io_async_rs.Prelude.{
  ℕ, zero, suc, ◌+◌, ◌≤◌, ◌≡◌, refl, ap, min, not, length, ◌++◌, take, Option, none, some, Result,
  ok, err, arith,
}
use cobs_io_async_rs.Transport.{Waker, Poll, ready, pending, Transport, Timer}

module _ {T C E : Type 0} (link : Transport T E) (clock : Timer C) (capacity : ℕ) where
  -- `most` calls have been answered when the budget is spent.
  abbrev pub Within : ℕ → ℕ → Reliable (Counted T) C E → Type 0
  Within most left c = c.transport.calls + left ≤ most

  abbrev Spent : ℕ → ℕ × Outcome (Counted T) C E → Type 0
  Spent most r = Within most r.0 r.1.0

  -- One call at most.
  abbrev Called : ℕ → Outcome (Counted T) C E → Type 0
  Called calls (c, r) = c.transport.calls ≤ calls + 1

  At-calls : (t : Counted T) (c : Reliable (Counted T) C E) → At t c → c.transport.calls ≡ t.calls
  At-calls t c e = ap (λ w. w.calls) e

  run_output-Called :
      (cx : Waker) (out : Out) (c : Reliable (Counted T) C E)
      → Ensures (Called c.transport.calls) (run_output (counted link) clock cx out c)
  unfolding run_output write_output flush_output
  run_output-Called cx out_idle c = omega arith
  run_output-Called cx (writing frame offset) c =
      bind-Ensures (λ p. Unit {0}) (Called c.transport.calls)
        (pending_output (counted link) clock frame offset c) _
        (Ensures-any (pending_output (counted link) clock frame offset c))
        (λ p i.
          let t = (counted link).poll_write c.transport cx p.0 in
          omega (
            arith,
            At-calls t.0 _ (
                wrote-At (counted link) clock t.0 frame offset p.1 (length p.0)
                  (record c { transport = t.0 }) t.1 refl),
          ))
  run_output-Called cx (flushing frame) c =
      let t = (counted link).poll_flush c.transport cx in
      omega (
        arith,
        At-calls t.0 _ (
            flush_polled-At (counted link) clock t.0 frame (record c { transport = t.0 }) t.1 refl),
      )

  drive_output-Spent :
      (most : ℕ) (cx : Waker) (budget : ℕ) (begun : Option (Reliable (Counted T) C E))
      (c : Reliable (Counted T) C E)
      → Begun (At c.transport) begun
      → Within most budget c
      → Ensures (Spent most) (drive_output (counted link) clock cx budget begun c)
  unfolding drive_output
  drive_output-Spent most cx budget none c b v = v
  drive_output-Spent most cx zero (some c') c b v = omega (arith, At-calls c.transport c' b)
  drive_output-Spent most cx (suc left) (some c') c b v =
      bind-Ensures (Called c'.transport.calls) (Spent most)
        (run_output (counted link) clock cx c'.out c') _ (run_output-Called cx c'.out c')
        (λ o w. omega (arith, At-calls c.transport c' b))

  poll_output-Spent :
      (most : ℕ) (cx : Waker) (budget : ℕ) (c : Reliable (Counted T) C E)
      → Within most budget c
      → Ensures (Spent most) (poll_output (counted link) clock cx budget c)
  unfolding poll_output
  poll_output-Spent most cx budget c v =
      bind-Ensures (Begun (At c.transport)) (Spent most)
        (begin_output (counted link) clock c.out c.ack_pending c) _
        (begin_output-At (counted link) clock c.transport c.out c.ack_pending c refl)
        (λ begun b. drive_output-Spent most cx budget begun c b v)

  received-At :
      (t : Counted T) (n : ℕ) (c : Reliable (Counted T) C E) (p : Poll (Result ℕ E))
      → At t c
      → Ensures (λ o. At t o.0) (received capacity (counted link) n c p)
  unfolding received
  received-At t n c pending v = v
  received-At t n c (ready (err e)) v = v
  received-At t n c (ready (ok zero)) v = v
  received-At t n c (ready (ok (suc k))) v =
      let read = min (suc k) n in
      let c' = record c {
        rx_len = c.rx_len + read;
        final_input = spend_allowance read c.final_input;
      } in
      bind-Ensures (At t) (λ o. At t o.0) (process_input capacity c') _
        (process_input-At clock capacity t c' v) (λ c w. w)

  poll_input-Spent :
      (most : ℕ) (cx : Waker) (budget : ℕ) (c : Reliable (Counted T) C E)
      → Within most budget c
      → Ensures (Spent most) (poll_input capacity (counted link) cx budget c)
  unfolding poll_input
  poll_input-Spent most cx zero c v = v
  poll_input-Spent most cx (suc left) c v =
      bind-Ensures (λ b. Unit {0}) (Spent most) (slice_from c.rx_buf c.rx_len) _
        (Ensures-any (slice_from c.rx_buf c.rx_len))
        (λ free i.
          let t = (counted link).poll_read c.transport cx free in
          let c' = record c { transport = t.0; rx_buf = take c.rx_len c.rx_buf ++ t.1 } in
          bind-Ensures (λ o. At t.0 o.0) (Spent most)
            (received capacity (counted link) (length t.1) c' t.2) _
            (received-At t.0 (length t.1) c' t.2 refl) (λ o w. omega (arith, At-calls t.0 o.0 w)))

  after_timer-At :
      (t : Counted T) (output input : Work) (o : Outcome (Counted T) C E)
      → At t o.0
      → At t (after_timer (counted link) clock capacity output input o).0
  unfolding after_timer
  after_timer-At t output input (c, err e) v = v
  after_timer-At t output input (c, ok timer) v = v

  after_input-At :
      (t : Counted T) (cx : Waker) (output : Work) (o : Outcome (Counted T) C E)
      → At t o.0
      → At t (after_input (counted link) clock capacity cx output o).0
  unfolding after_input
  after_input-At t cx output (c, err e) v = v
  after_input-At t cx output (c, ok input) v =
      after_timer-At t output input (poll_timer clock capacity cx input c)
        (poll_timer_kept mute clock capacity (At t) (At-IsKept clock capacity t) cx input c v)

  after_output-Spent :
      (most : ℕ) (cx : Waker) (budget : ℕ) (o : Outcome (Counted T) C E)
      → Within most budget o.0
      → Ensures (Spent most) (after_output (counted link) clock capacity cx budget o)
  unfolding after_output
  after_output-Spent most cx budget (c, err e) v = v
  after_output-Spent most cx budget (c, ok output) v =
      bind-Ensures (Spent most) (Spent most) (poll_input capacity (counted link) cx budget c) _
        (poll_input-Spent most cx budget c v)
        (λ r w.
          omega
            (arith, At-calls r.1.0.transport _ (after_input-At r.1.0.transport cx output r.1 refl)))

  step-Spent :
      (most : ℕ) (cx : Waker) (budget : ℕ) (c : Reliable (Counted T) C E)
      → Within most budget c
      → Ensures (Spent most) (step (counted link) clock capacity cx budget c)
  unfolding step
  step-Spent most cx budget c v =
      bind-Ensures (Spent most) (Spent most) (poll_output (counted link) clock cx budget c) _
        (poll_output-Spent most cx budget c v) (λ r w. after_output-Spent most cx r.0 r.1 w)

  settle-At :
      (t : Counted T) (cx : Waker) (o : Outcome (Counted T) C E)
      → At t o.0
      → At t (settle (counted link) clock capacity cx o).0
  unfolding settle wake_by_ref
  settle-At t cx (c, ok progress) v = v
  settle-At t cx (c, ok blocked) v = v
  settle-At t cx (c, ok yield) v = v
  settle-At t cx (c, err e) v =
      fail_kept mute clock capacity (At t) (At-IsKept clock capacity t) e c v

  next-Within :
      (most fuel : ℕ) (cx : Waker) (left : ℕ) (done : Option Work) (c : Reliable (Counted T) C E)
      → ((budget : ℕ) (c : Reliable (Counted T) C E)
          → Within most budget c
          → Ensures
              (λ r. Within most r.0 r.1)
              (drive_loop (counted link) clock capacity fuel cx budget c))
      → Within most left c
      → Ensures
          (λ r. Within most r.0 r.1)
          (elim done [
            | none ↦ drive_loop (counted link) clock capacity fuel cx left c
            | some work ↦ ret (left, c, work)
          ])
  next-Within most fuel cx left none c ih w = ih left c w
  next-Within most fuel cx left (some work) c ih w = w

  drive_loop-Within :
      (most fuel : ℕ) (cx : Waker) (budget : ℕ) (c : Reliable (Counted T) C E)
      → Within most budget c
      → Ensures
          (λ r. Within most r.0 r.1)
          (drive_loop (counted link) clock capacity fuel cx budget c)
  unfolding drive_loop
  drive_loop-Within most zero cx budget c v = tt
  drive_loop-Within most (suc fuel) cx budget c v =
      bind-Ensures (Spent most) (λ r. Within most r.0 r.1)
        (step (counted link) clock capacity cx budget c) _ (step-Spent most cx budget c v)
        (λ r w.
          let s = settle (counted link) clock capacity cx r.1 in
          next-Within most fuel cx r.0 s.1 s.0 (drive_loop-Within most fuel cx)
            (omega (arith, At-calls r.1.0.transport s.0 (settle-At r.1.0.transport cx r.1 refl))))

  pub drive-Within :
      (most : ℕ) (cx : Waker) (budget : ℕ) (c : Reliable (Counted T) C E)
      → Within most budget c
      → Ensures (λ r. Within most r.0 r.1) (drive (counted link) clock capacity cx budget c)
  unfolding drive
  drive-Within most cx budget c v =
      if-Holds (Ensures (λ r. Within most r.0 r.1)) (not (is_ok c.health)) (λ e. v)
        (λ e. drive_loop-Within most (budget + 1) cx budget c v)
