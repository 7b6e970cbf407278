-- ===== src/Connection/Api/Failed.antt =====
-- What the operations of a failed connection return.
use cobs_io_async_rs.Connection.Api.Cancel.{stored_others}
use cobs_io_async_rs.Connection.Api.Finish.{finish_ready_lem}
use cobs_io_async_rs.Connection.Api.{
  finish, write_ready, check_sequence, poll_progress, poll_write, queue_packet, try_accept,
  poll_flush, flush_result,
}
use cobs_io_async_rs.Connection.Drive.{fail, failure, report, drive}
use cobs_io_async_rs.Connection.State.{
  Op, op_write, op_flush, op_progress, blocked, step_budget, Health, health_ok, health_failed,
  reported, Reliable, is_ok,
}
use cobs_io_async_rs.Connection.Waiters.{no_waiters}
use cobs_io_async_rs.Error.{ConnectionError, failed}
use cobs_io_async_rs.Prelude.Exec.{ret, ◌>>=◌}
use cobs_io_async_rs.Prelude.Exec.Holds.{if-Holds}
use cobs_io_async_rs.Prelude.{
  ℕ, ◌-◌, ◌^◌, ◌≡◌, refl, ap, ◌∙◌, ◌∷◌, ◌++◌, Bytes, false, not, ◌&&◌, ltb, Option, none, some, err,
}
use cobs_io_async_rs.Transport.{Waker, ready, Transport, Timer}

-- The error that a failed connection returns: the first time that of the failure.
abbrev pub Fails : {E : Type 0} → Health E → ConnectionError E → Type 0
Fails health_ok e = ⊥
Fails (health_failed x) e = x ≡ e
Fails reported e = failed ≡ e

not_ok : {E : Type 0} (h : Health E) (e : ConnectionError E) → Fails h e → is_ok h ≡ false
not_ok health_ok e f = absurd f
not_ok (health_failed x) e f = refl
not_ok reported e f = refl

module _ {T C E : Type 0} where
  report-Fails :
      (h : Health E) (e : ConnectionError E) (c : Reliable T C E)
      → Fails h e
      → report h c ≡ (record c { health = reported }, some e)
  unfolding report
  report-Fails health_ok e c f = absurd f
  report-Fails (health_failed x) e c f = ap (λ y. (record c { health = reported }, some y)) f
  report-Fails reported e c f = ap (λ y. (record c { health = reported }, some y)) f

  failure-Fails :
      (e : ConnectionError E) (c : Reliable T C E)
      → Fails c.health e
      → failure c ≡ (record c { health = reported }, some e)
  unfolding failure
  failure-Fails e c f = report-Fails c.health e c f

  -- The connection after an operation that reports the failure.
  abbrev pub closed : Op → Reliable T C E → Reliable T C E
  closed op c = record c {
    health = reported;
    waiters = no_waiters;
    woken = c.woken ++ stored_others op c.waiters;
  }

module _ {T C E : Type 0} (link : Transport T E) (clock : Timer C) (capacity : ℕ) where
  drive-Fails :
      (cx : Waker) (budget : ℕ) (e : ConnectionError E) (c : Reliable T C E)
      → Fails c.health e
      → drive link clock capacity cx budget c ≡ ret (budget, c, blocked)
  unfolding drive
  drive-Fails cx budget e c f = let h = not_ok c.health e f in rw h refl

  poll_progress-Fails :
      (cx : Waker) (e : ConnectionError E) (c : Reliable T C E)
      → Fails c.health e
      → poll_progress link clock capacity cx c ≡ ret (closed op_progress c, ready e)
  unfolding poll_progress failure
  poll_progress-Fails cx e c f =
      rw (drive-Fails cx step_budget e c f, ◌>>=◌)
        (rw (report-Fails c.health e c f)
          (ap ret (finish_ready_lem op_progress cx (record c { health = reported }) e)))

  poll_flush-Fails :
      (cx : Waker) (e : ConnectionError E) (c : Reliable T C E)
      → Fails c.health e
      → poll_flush link clock capacity cx c ≡ ret (closed op_flush c, ready (err e))
  unfolding poll_flush failure flush_result
  poll_flush-Fails cx e c f =
      rw (drive-Fails cx step_budget e c f, ◌>>=◌)
        (rw (report-Fails c.health e c f)
          (ap ret (finish_ready_lem op_flush cx (record c { health = reported }) (err e))))

  check_sequence-Fails :
      (e : ConnectionError E) (c : Reliable T C E)
      → Fails c.health e
      → (left : Option ℕ) × (check_sequence link clock capacity c ≡ record c { final_input = left })
  unfolding check_sequence fail
  check_sequence-Fails e c f =
      if-Holds (λ (c' : Reliable T C E). (left : Option ℕ) × (c' ≡ record c { final_input = left }))
        (write_ready c && ltb (2 ^ 32 - 1) c.tx_next)
        (λ x. (none, let h = not_ok c.health e f in rw h refl)) (λ x. (c.final_input, refl))

  poll_write-Fails :
      (cx : Waker) (e : ConnectionError E) (b : ℕ) (buf : Bytes) (c : Reliable T C E)
      → Fails c.health e
      → (left : Option ℕ) × (poll_write link clock capacity cx (b ∷ buf) c
          ≡ ret (record (closed op_write c) { final_input = left }, ready (err e)))
  unfolding poll_write queue_packet try_accept
  poll_write-Fails cx e b buf c f =
      let (left, same) = check_sequence-Fails e c f in
      let told : failure (check_sequence link clock capacity c)
          ≡ (record c { final_input = left; health = reported }, some e) =
        ap failure same ∙ failure-Fails e (record c { final_input = left }) f in
      (
        left,
        rw (drive-Fails cx step_budget e c f, ◌>>=◌)
            (ap
                (λ f.
                  try_accept link clock capacity cx step_budget blocked (not (write_ready c))
                    (b ∷ buf) f
                  >>= λ r. ret (finish op_write cx r.0 r.1))
                told
              ∙ ap ret (
                  finish_ready_lem op_write cx (record c { health = reported; final_input = left })
                    (err e))),
      )

  -- Of a failed connection `poll_progress`, `poll_flush` and `poll_write` of a nonempty buffer return
  -- the error of the failure if it has not been reported and `Failed` otherwise. They call neither link
  -- nor clock, mark the failure as reported, leave no waiter stored and wake those of the other
  -- operations; beside these, only `poll_write` may change a field, the final allowance.
  pub failed_lem :
      (cx : Waker) (e : ConnectionError E) (b : ℕ) (buf : Bytes) (c : Reliable T C E)
      → Fails c.health e
      → (poll_progress link clock capacity cx c ≡ ret (closed op_progress c, ready e))
        × (poll_flush link clock capacity cx c ≡ ret (closed op_flush c, ready (err e)))
        × ((left : Option ℕ) × (poll_write link clock capacity cx (b ∷ buf) c
              ≡ ret (record (closed op_write c) { final_input = left }, ready (err e))))
  failed_lem cx e b buf c f =
      (poll_progress-Fails cx e c f, poll_flush-Fails cx e c f, poll_write-Fails cx e b buf c f)
