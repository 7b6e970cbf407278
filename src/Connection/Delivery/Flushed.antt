-- ===== src/Connection/Delivery/Flushed.antt =====
-- `poll_flush` of a connection that has nothing left to send.
use cobs_io_async_rs.Connection.Api.Finish.{finish_ready_lem}
use cobs_io_async_rs.Connection.Api.{poll_flush, flush_ready, flush_result, finish}
use cobs_io_async_rs.Connection.Drive.{failure, drive}
use cobs_io_async_rs.Connection.State.{
  Tx, idle, queued, sending, waiting, Reliable, step_budget, op_flush, is_idle,
}
use cobs_io_async_rs.Error.{ConnectionError}
use cobs_io_async_rs.Prelude.Exec.Ensures.{Ensures, bind-Ensures, Ensures-any}
use cobs_io_async_rs.Prelude.{
  ℕ, ◌≡◌, refl, sym, subst, Bool, true, false, ◌&&◌, Bool-cases, inl, inr, Option, none, some,
  Result, ok, err,
}
use cobs_io_async_rs.Transport.{Waker, Poll, ready, pending, Transport, Timer}

idle-eq : (tx : Tx) → is_idle tx ≡ true → tx ≡ idle
idle-eq idle e = refl
idle-eq queued e = absurd (cc e)
idle-eq sending e = absurd (cc e)
idle-eq waiting e = absurd (cc e)

left : (a b : Bool) → (a && b) ≡ true → a ≡ true
left true b e = refl
left false b e = absurd (cc e)

module _ {T C E : Type 0} (link : Transport T E) (clock : Timer C) (capacity : ℕ) where
  -- What a flush that succeeds tells.
  abbrev pub Drained : Reliable T C E × Poll (Result (Unit {0}) (ConnectionError E)) → Type 0
  Drained (c, pending) = Unit
  Drained (c, ready (err e)) = Unit
  Drained (c, ready (ok u)) = c.tx ≡ idle

  flush_result-Drained :
      (f : Reliable T C E × Option (ConnectionError E))
      → Drained (flush_result link clock capacity f)
  unfolding flush_result
  flush_result-Drained (c, some e) = tt
  flush_result-Drained (c, none) = elim (Bool-cases (flush_ready c)) [
    | inl y ↦ rw y (idle-eq c.tx (left (is_idle c.tx) _ y))
    | inr n ↦ rw n tt
  ]

  finish-Drained :
      (cx : Waker) (c : Reliable T C E) (poll : Poll (Result (Unit {0}) (ConnectionError E)))
      → Drained (c, poll)
      → Drained (finish op_flush cx c poll)
  unfolding finish
  finish-Drained cx c pending d = tt
  finish-Drained cx c (ready (err e)) d = tt
  finish-Drained cx c (ready (ok u)) d =
      subst (λ (r : Reliable T C E × Poll (Result (Unit {0}) (ConnectionError E))). r.0.tx ≡ idle)
        (sym (finish_ready_lem op_flush cx c (ok u))) d

  pub poll_flush-Drained :
      (cx : Waker) (c : Reliable T C E) → Ensures Drained (poll_flush link clock capacity cx c)
  unfolding poll_flush
  poll_flush-Drained cx c =
      bind-Ensures (λ d. Unit {0}) Drained (drive link clock capacity cx step_budget c) _
        (Ensures-any (drive link clock capacity cx step_budget c))
        (λ d h. finish-Drained cx _ _ (flush_result-Drained (failure d.1)))
