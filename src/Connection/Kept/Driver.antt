-- ===== src/Connection/Kept/Driver.antt =====
-- `drive`, and what follows it in the operations, keep what is kept.
use cobs_io_async_rs.Connection.Api.{op_eq, due, notify_op, notify, finish}
use cobs_io_async_rs.Connection.Drive.{
  fail, failure, report, after_timer, after_input, after_output, step, settle, drive_loop, drive,
}
use cobs_io_async_rs.Connection.Deadline.{poll_timer}
use cobs_io_async_rs.Connection.Input.{poll_input}
use cobs_io_async_rs.Connection.Kept.Deadline.{poll_timer_kept}
use cobs_io_async_rs.Connection.Kept.{IsKept}
use cobs_io_async_rs.Connection.Output.{poll_output}
use cobs_io_async_rs.Connection.State.{
  Work, blocked, progress, yield, Op, op_read, op_write, op_flush, op_progress, Health, health_ok,
  health_failed, reported, Waiters, Reliable, Outcome, is_ok,
}
use cobs_io_async_rs.Connection.Waiters.{register, clear, wake, wake_lem, wake_by_ref}
use cobs_io_async_rs.Error.{ConnectionError}
use cobs_io_async_rs.Prelude.Exec.Ensures.{Ensures, bind-Ensures}
use cobs_io_async_rs.Prelude.Exec.Holds.{if-Holds}
use cobs_io_async_rs.Prelude.Exec.{ret}
use cobs_io_async_rs.Prelude.{
  ℕ, zero, suc, ◌+◌, sym, subst, Bool, true, false, not, ◌||◌, List, Option, none, some, ok, err,
}
use cobs_io_async_rs.Transport.{Waker, Poll, ready, pending, Transport, Timer}

module _ {T C E : Type 0} (link : Transport T E) (clock : Timer C) (capacity : ℕ)
    (P : Reliable T C E → Type 0) (k : IsKept link clock capacity P) where
  abbrev After : Outcome T C E → Type 0
  After (c, r) = P c

  after_timer_kept :
      (output input : Work) (o : Outcome T C E)
      → After o
      → After (after_timer link clock capacity output input o)
  unfolding after_timer
  after_timer_kept output input (c, err e) v = v
  after_timer_kept output input (c, ok timer) v = v

  after_input_kept :
      (cx : Waker) (output : Work) (o : Outcome T C E)
      → After o
      → After (after_input link clock capacity cx output o)
  unfolding after_input
  after_input_kept cx output (c, err e) v = v
  after_input_kept cx output (c, ok input) v =
      after_timer_kept output input (poll_timer clock capacity cx input c)
        (poll_timer_kept link clock capacity P k cx input c v)

  after_output_kept :
      (cx : Waker) (budget : ℕ) (o : Outcome T C E)
      → After o
      → Ensures (λ r. After r.1) (after_output link clock capacity cx budget o)
  unfolding after_output
  after_output_kept cx budget (c, err e) v = v
  after_output_kept cx budget (c, ok output) v =
      bind-Ensures (λ r. After r.1) (λ r. After r.1) (poll_input capacity link cx budget c) _
        (k.inputs cx budget c v) (λ r w. after_input_kept cx output r.1 w)

  step_kept :
      (cx : Waker) (budget : ℕ) (c : Reliable T C E)
      → P c
      → Ensures (λ r. After r.1) (step link clock capacity cx budget c)
  unfolding step
  step_kept cx budget c v =
      bind-Ensures (λ r. After r.1) (λ r. After r.1) (poll_output link clock cx budget c) _
        (k.outputs cx budget c v) (λ r w. after_output_kept cx r.0 r.1 w)

  woken :
      (c : Reliable T C E) (w : Waiters) (l : List Waker)
      → P c
      → P (record c { waiters = w; woken = l })
  woken c w l v = k.plumbing c c.timer c.health c.final_input w l v

  ailing :
      (c : Reliable T C E) (h : Health E) (left : Option ℕ)
      → P c
      → P (record c { health = h; final_input = left })
  ailing c h left v = k.plumbing c c.timer h left c.waiters c.woken v

  pub fail_kept : (e : ConnectionError E) (c : Reliable T C E) → P c → P (fail e c)
  unfolding fail
  fail_kept e c v = ailing c _ none v

  settle_kept : (cx : Waker) (o : Outcome T C E) → After o → P (settle link clock capacity cx o).0
  unfolding settle wake_by_ref
  settle_kept cx (c, ok progress) v = v
  settle_kept cx (c, ok blocked) v = v
  settle_kept cx (c, ok yield) v = woken c c.waiters _ v
  settle_kept cx (c, err e) v = fail_kept e c v

  drive_loop_kept :
      (fuel : ℕ) (cx : Waker) (budget : ℕ) (c : Reliable T C E)
      → P c
      → Ensures (λ r. P r.1) (drive_loop link clock capacity fuel cx budget c)
  unfolding drive_loop
  drive_loop_kept zero cx budget c v = tt
  drive_loop_kept (suc fuel) cx budget c v =
      bind-Ensures (λ r. After r.1) (λ r. P r.1) (step link clock capacity cx budget c) _
        (step_kept cx budget c v)
        (λ r w.
          next r.0 (settle link clock capacity cx r.1).1 (settle link clock capacity cx r.1).0
            (drive_loop_kept fuel cx) (settle_kept cx r.1 w))
    where
      next :
          (left : ℕ) (done : Option Work) (c' : Reliable T C E)
          → ((budget : ℕ) (c : Reliable T C E)
              → P c
              → Ensures (λ r. P r.1) (drive_loop link clock capacity fuel cx budget c))
          → P c'
          → Ensures
              (λ r. P r.1)
              (elim done [
                | none ↦ drive_loop link clock capacity fuel cx left c'
                | some work ↦ ret (left, c', work)
              ])
      next left none c' ih w = ih left c' w
      next left (some work) c' ih w = w

  pub drive_kept :
      (cx : Waker) (budget : ℕ) (c : Reliable T C E)
      → P c
      → Ensures (λ r. P r.1) (drive link clock capacity cx budget c)
  unfolding drive
  drive_kept cx budget c v =
      if-Holds (Ensures (λ r. P r.1)) (not (is_ok c.health)) (λ e. v)
        (λ e. drive_loop_kept (budget + 1) cx budget c v)

  report_kept : (h : Health E) (c : Reliable T C E) → P c → P (report h c).0
  unfolding report
  report_kept health_ok c v = ailing c health_ok c.final_input v
  report_kept (health_failed e) c v = ailing c reported c.final_input v
  report_kept reported c v = ailing c reported c.final_input v

  pub failure_kept : (c : Reliable T C E) → P c → P (failure c).0
  unfolding failure
  failure_kept c v = report_kept c.health c v

  pub wake_kept : (op : Op) (c : Reliable T C E) → P c → P (wake op c)
  wake_kept op c v = subst P (sym (wake_lem op c)) (woken c _ _ v)

  notify_op_kept :
      (done : Op) (everyone : Bool) (op : Op) (c : Reliable T C E)
      → P c
      → P (notify_op done everyone op c)
  unfolding notify_op
  notify_op_kept done everyone op c v =
      if-Holds P (op_eq op done) (λ e. v)
        (λ e. if-Holds P (everyone || due op c) (λ e. wake_kept op c v) (λ e. v))

  notify_kept :
      (done : Op) (completed : Bool) (c : Reliable T C E) → P c → P (notify done completed c)
  unfolding notify
  notify_kept done completed c v =
      let everyone = completed || not (is_ok c.health) in
      notify_op_kept done everyone op_progress _ (
        notify_op_kept done everyone op_flush _
          (notify_op_kept done everyone op_write _ (notify_op_kept done everyone op_read c v)))

  pub finish_kept {ℓ} :
      {R : Type ℓ} (op : Op) (cx : Waker) (c : Reliable T C E) (poll : Poll R)
      → P c
      → P (finish op cx c poll).0
  unfolding finish clear register
  finish_kept op cx c (ready r) v = notify_kept op true _ (woken c _ c.woken v)
  finish_kept op cx c pending v = notify_kept op false _ (woken c _ c.woken v)
