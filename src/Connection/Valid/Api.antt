-- ===== src/Connection/Valid/Api.antt =====
-- `new`, `finish`, `poll_progress` and `poll_flush` against the invariant.
use cobs_io_async_rs.Connection.Api.{
  new, op_eq, due, notify_op, notify, finish, poll_progress, flush_result, poll_flush,
}
use cobs_io_async_rs.Connection.Drive.{failure, report, drive}
use cobs_io_async_rs.Connection.State.{
  Config, step_budget, Op, op_read, op_write, op_flush, op_progress, Health, health_ok,
  health_failed, reported, Reliable, is_ok,
}
use cobs_io_async_rs.Connection.Valid.Driver.{Driven, drive-Driven}
use cobs_io_async_rs.Connection.Valid.{IsValid}
use cobs_io_async_rs.Connection.Waiters.{clear, register, wake, wake_lem}
use cobs_io_async_rs.Error.{ConfigError, ConnectionError}
use cobs_io_async_rs.Prelude.Exec.Holds.{Holds, bind-Holds, if-Holds}
use cobs_io_async_rs.Prelude.{
  ℕ, ◌<◌, ◌≡◌, sym, subst, Bool, true, false, not, ◌||◌, Option, none, some, Result, ok, err,
  length-replicate, ◌==◌, arith,
}
use cobs_io_async_rs.Protocol.Payload.Largest.{max_payload-le}
use cobs_io_async_rs.Protocol.Payload.{max_payload}
use cobs_io_async_rs.Protocol.Packet.{ack_frame_len}
use cobs_io_async_rs.Transport.{Waker, Poll, ready, pending, Transport, Timer, KeepsLength}

-- What `new` returns.
abbrev pub Created : {T C E : Type 0} → ℕ → Result (Reliable T C E) ConfigError → Type 0
Created capacity (ok c) = IsValid capacity c
Created capacity (err e) = max_payload capacity ≡ 0

-- `new` fails only where no payload fits, and otherwise returns a valid connection.
pub new-Created :
    {T C : Type 0} (E : Type 0) (capacity : ℕ) (transport : T) (timer : C) (config : Config)
    → Created {E = E} capacity (new capacity transport timer config)
unfolding new
new-Created E capacity transport timer config =
    if-Holds (Created capacity) (max_payload capacity == 0) (λ e. ground arith)
      (λ e.
        let pos : 0 < max_payload capacity = ground arith in
        (
          (
            record {
              tx_frame_length = length-replicate {A = ℕ} capacity 0;
              tx_len_le = omega arith;
              ack_frame_length = length-replicate {A = ℕ} ack_frame_len 0;
              ack_len_le = omega arith;
              in_frame = tt;
              has_frame = tt;
            },
            record {
              payload_fits = pos;
              rx_buf_length = length-replicate {A = ℕ} capacity 0;
              rx_len_le = omega arith;
              rx_payload_length = length-replicate {A = ℕ} capacity 0;
              rx_start_le = omega arith;
              rx_end_le = omega arith;
            },
            length-replicate {A = ℕ} capacity 0,
          ),
          omega (arith, max_payload-le capacity),
        ))

module _ {T C E : Type 0} (capacity : ℕ) where
  wake-IsValid : (op : Op) (c : Reliable T C E) → IsValid capacity c → IsValid capacity (wake op c)
  wake-IsValid op c v = subst (IsValid capacity) (sym (wake_lem op c)) v

  notify_op-IsValid :
      (done : Op) (everyone : Bool) (op : Op) (c : Reliable T C E)
      → IsValid capacity c
      → IsValid capacity (notify_op done everyone op c)
  unfolding notify_op
  notify_op-IsValid done everyone op c v =
      if-Holds (IsValid capacity) (op_eq op done) (λ e. v)
        (λ e.
          if-Holds (IsValid capacity) (everyone || due op c) (λ e. wake-IsValid op c v) (λ e. v))

  notify-IsValid :
      (done : Op) (completed : Bool) (c : Reliable T C E)
      → IsValid capacity c
      → IsValid capacity (notify done completed c)
  unfolding notify
  notify-IsValid done completed c v =
      let everyone = completed || not (is_ok c.health) in
      notify_op-IsValid done everyone op_progress _ (
        notify_op-IsValid done everyone op_flush _ (
          notify_op-IsValid done everyone op_write _ (notify_op-IsValid done everyone op_read c v)))

  pub finish-IsValid {ℓ} :
      {R : Type ℓ} (op : Op) (cx : Waker) (c : Reliable T C E) (poll : Poll R)
      → IsValid capacity c
      → IsValid capacity (finish op cx c poll).0
  unfolding finish clear register
  finish-IsValid op cx c (ready r) v = notify-IsValid op true _ v
  finish-IsValid op cx c pending v = notify-IsValid op false _ v

  pub report-IsValid :
      (h : Health E) (c : Reliable T C E) → IsValid capacity c → IsValid capacity (report h c).0
  unfolding report
  report-IsValid health_ok c v = v
  report-IsValid (health_failed e) c v = v
  report-IsValid reported c v = v

  pub failure-IsValid : (c : Reliable T C E) → IsValid capacity c → IsValid capacity (failure c).0
  unfolding failure
  failure-IsValid c v = report-IsValid c.health c v

module _ {T C E : Type 0} (link : Transport T E) (clock : Timer C) (capacity : ℕ) where
  -- Over a link that keeps the length of the buffers that it is given, `poll_progress` of a valid
  -- connection does not panic and leaves it valid.
  pub poll_progress-IsValid :
      KeepsLength link
      → (cx : Waker) (c : Reliable T C E) → IsValid capacity c
      → Holds (λ r. IsValid capacity r.0) (poll_progress link clock capacity cx c)
  unfolding poll_progress
  poll_progress-IsValid keeps cx c v =
      bind-Holds (Driven link clock capacity step_budget) (λ r. IsValid capacity r.0)
        (drive link clock capacity cx step_budget c) _
        (drive-Driven link clock capacity keeps cx step_budget c v)
        (λ d k. finish-IsValid capacity op_progress cx _ _ (failure-IsValid capacity d.1 k.0))

  -- Over a link that keeps the length of the buffers that it is given, `poll_flush` of a valid
  -- connection does not panic and leaves it valid.
  pub poll_flush-IsValid :
      KeepsLength link
      → (cx : Waker) (c : Reliable T C E) → IsValid capacity c
      → Holds (λ r. IsValid capacity r.0) (poll_flush link clock capacity cx c)
  unfolding poll_flush flush_result
  poll_flush-IsValid keeps cx c v =
      bind-Holds (Driven link clock capacity step_budget) (λ r. IsValid capacity r.0)
        (drive link clock capacity cx step_budget c) _
        (drive-Driven link clock capacity keeps cx step_budget c v)
        (λ d k.
          finish-IsValid capacity op_flush cx _ _
            (result (failure d.1) (failure-IsValid capacity d.1 k.0)))
    where
      result :
          (f : Reliable T C E × Option (ConnectionError E))
          → IsValid capacity f.0
          → IsValid capacity (flush_result link clock capacity f).0
      result (c', some e) w = w
      result (c', none) w = w
