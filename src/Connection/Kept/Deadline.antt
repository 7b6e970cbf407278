-- ===== src/Connection/Kept/Deadline.antt =====
-- `poll_timer` keeps what is kept.
use cobs_io_async_rs.Connection.Deadline.{
  allowance_over, final_input_len, polled_deadline, retransmit, run_deadline, poll_timer,
}
use cobs_io_async_rs.Connection.Kept.{IsKept}
use cobs_io_async_rs.Connection.State.{
  Tx, idle, queued, sending, waiting, Work, Reliable, Outcome, is_waiting,
}
use cobs_io_async_rs.Prelude.Exec.Holds.{if-Holds}
use cobs_io_async_rs.Prelude.{ℕ, ◌≡◌, refl, Option, none, some, leb, true, arith}
use cobs_io_async_rs.Transport.{Waker, Poll, ready, pending, Transport, Timer}

waiting-eq : (tx : Tx) → is_waiting tx ≡ true → tx ≡ waiting
waiting-eq waiting e = refl
waiting-eq idle e = absurd (cc e)
waiting-eq queued e = absurd (cc e)
waiting-eq sending e = absurd (cc e)

module _ {T C E : Type 0} (link : Transport T E) (clock : Timer C) (capacity : ℕ)
    (P : Reliable T C E → Type 0) (k : IsKept link clock capacity P) where
  abbrev After : Outcome T C E → Type 0
  After (c, r) = P c

  allowed : (c : Reliable T C E) (left : Option ℕ) → P c → P (record c { final_input = left })
  allowed c left v = k.plumbing c c.timer c.health left c.waiters c.woken v

  retransmit_kept :
      (c : Reliable T C E) → c.tx ≡ waiting → P c → After (retransmit clock capacity c)
  unfolding retransmit
  retransmit_kept c e v =
      if-Holds After (leb c.config.max_retries c.tx_retries) (λ x. allowed c none v)
        (λ more. k.again c e (ground arith) v)

  polled_deadline_kept :
      (c : Reliable T C E) (p : Poll (Unit {0})) → P c → After (polled_deadline clock capacity c p)
  unfolding polled_deadline
  polled_deadline_kept c pending v = v
  polled_deadline_kept c (ready u) v = allowed c (some (final_input_len capacity)) v

  run_deadline_kept :
      (cx : Waker) (input : Work) (left : Option ℕ) (c : Reliable T C E)
      → c.tx ≡ waiting
      → P c
      → After (run_deadline clock capacity cx input left c)
  unfolding run_deadline
  run_deadline_kept cx input none c e v =
      let t = clock.poll_deadline c.timer cx c.tx_deadline in
      polled_deadline_kept (record c { timer = t.0 }) t.1
        (k.plumbing c t.0 c.health c.final_input c.waiters c.woken v)
  run_deadline_kept cx input (some left) c e v =
      if-Holds After (allowance_over input left) (λ x. retransmit_kept c e v) (λ x. v)

  pub poll_timer_kept :
      (cx : Waker) (input : Work) (c : Reliable T C E)
      → P c
      → After (poll_timer clock capacity cx input c)
  unfolding poll_timer
  poll_timer_kept cx input c v =
      if-Holds After (is_waiting c.tx)
        (λ e. run_deadline_kept cx input c.final_input c (waiting-eq c.tx e) v) (λ e. v)
