-- ===== src/Connection/Budget/Bounded.antt =====
-- The calls of the link that one operation of the user makes.
use cobs_io_async_rs.Connection.Api.{
  finish, read_payload, poll_read, check_sequence, accept, try_accept, flush_result, poll_flush,
  poll_progress,
}
use cobs_io_async_rs.Connection.Budget.Calls.{Within, drive-Within}
use cobs_io_async_rs.Connection.Budget.Parts.{At, mute, At-IsKept, At-IsUserKept}
use cobs_io_async_rs.Connection.Budget.{Counted, counted}
use cobs_io_async_rs.Connection.Drive.{failure, drive}
use cobs_io_async_rs.Connection.Kept.Api.{check_sequence_kept, read_payload_kept}
use cobs_io_async_rs.Connection.Kept.Driver.{failure_kept, finish_kept}
use cobs_io_async_rs.Connection.State.{
  Work, blocked, progress, yield, step_budget, Op, op_read, op_flush, op_progress, Reliable,
}
use cobs_io_async_rs.Error.{ConnectionError}
use cobs_io_async_rs.Prelude.Exec.Ensures.{Ensures, bind-Ensures, Ensures-any}
use cobs_io_async_rs.Prelude.Exec.{ret, ◌>>=◌, slice_to}
use cobs_io_async_rs.Prelude.{
  ℕ, ◌+◌, ◌≤◌, ◌%◌, ◌^◌, refl, ap, min, length, Bool, true, false, [], ◌∷◌, Bytes, Option, none,
  some, arith,
}
use cobs_io_async_rs.Protocol.Packet.{encode_data}
use cobs_io_async_rs.Protocol.Payload.{max_payload}
use cobs_io_async_rs.Transport.{Waker, Poll, Transport, Timer}

-- It has made `most` calls at most.
abbrev pub Bounded : {T C E : Type 0} → ℕ → Reliable (Counted T) C E → Type 0
Bounded most c = c.transport.calls ≤ most

module _ {T C E : Type 0} (link : Transport T E) (clock : Timer C) (capacity : ℕ) where
  -- What leaves the link alone.
  pub At-Bounded :
      (most : ℕ) (c c' : Reliable (Counted T) C E)
      → At c.transport c'
      → Bounded most c
      → Bounded most c'
  At-Bounded most c c' e b = omega (arith, ap (λ w. w.calls) e)

  pub finish-Bounded {ℓ} :
      {R : Type ℓ} (most : ℕ) (op : Op) (cx : Waker) (c : Reliable (Counted T) C E) (poll : Poll R)
      → Bounded most c
      → Bounded most (finish op cx c poll).0
  finish-Bounded most op cx c poll = At-Bounded most c (finish op cx c poll).0 (
      finish_kept mute clock capacity (At c.transport) (At-IsKept clock capacity c.transport) op cx
        c poll refl)

  pub failure-Bounded :
      (most : ℕ) (c : Reliable (Counted T) C E) → Bounded most c → Bounded most (failure c).0
  failure-Bounded most c = At-Bounded most c (failure c).0 (
      failure_kept mute clock capacity (At c.transport) (At-IsKept clock capacity c.transport) c
        refl)

  pub check_sequence-At :
      (c : Reliable (Counted T) C E)
      → At c.transport (check_sequence (counted link) clock capacity c)
  unfolding check_sequence
  check_sequence-At c =
      check_sequence_kept mute clock capacity (At c.transport)
        (At-IsKept clock capacity c.transport) c refl

  flush_result-At :
      (f : Reliable (Counted T) C E × Option (ConnectionError E))
      → At f.0.transport (flush_result (counted link) clock capacity f).0
  unfolding flush_result
  flush_result-At (c, some e) = refl
  flush_result-At (c, none) = refl

  read_payload-At :
      (buf : Bytes) (c : Reliable (Counted T) C E)
      → Ensures (λ r. At c.transport r.1) (read_payload (counted link) clock capacity buf c)
  unfolding read_payload
  read_payload-At buf c =
      read_payload_kept mute clock capacity (At c.transport) (At-IsKept clock capacity c.transport)
        (At-IsUserKept clock capacity c.transport) buf c refl

  pub drive-Bounded :
      (cx : Waker) (c : Reliable (Counted T) C E)
      → Ensures
          (λ r. Within link clock capacity (c.transport.calls + step_budget) r.0 r.1)
          (drive (counted link) clock capacity cx step_budget c)
  drive-Bounded cx c =
      drive-Within link clock capacity (c.transport.calls + step_budget) cx step_budget c
        (omega arith)

  pub poll_progress-Bounded :
      (cx : Waker) (c : Reliable (Counted T) C E)
      → Ensures
          (λ r. Bounded (c.transport.calls + step_budget) r.0)
          (poll_progress (counted link) clock capacity cx c)
  unfolding poll_progress
  poll_progress-Bounded cx c =
      let most = c.transport.calls + step_budget in
      bind-Ensures (λ r. Within link clock capacity most r.0 r.1) (λ r. Bounded most r.0)
        (drive (counted link) clock capacity cx step_budget c) _ (drive-Bounded cx c)
        (λ d w.
          finish-Bounded most op_progress cx _ _ (failure-Bounded most d.1 (omega (arith, w))))

  pub poll_flush-Bounded :
      (cx : Waker) (c : Reliable (Counted T) C E)
      → Ensures
          (λ r. Bounded (c.transport.calls + step_budget) r.0)
          (poll_flush (counted link) clock capacity cx c)
  unfolding poll_flush
  poll_flush-Bounded cx c =
      let most = c.transport.calls + step_budget in
      bind-Ensures (λ r. Within link clock capacity most r.0 r.1) (λ r. Bounded most r.0)
        (drive (counted link) clock capacity cx step_budget c) _ (drive-Bounded cx c)
        (λ d w. finish-Bounded most op_flush cx _ _ (
          At-Bounded most (failure d.1).0
            (flush_result (counted link) clock capacity (failure d.1)).0
            (flush_result-At (failure d.1)) (failure-Bounded most d.1 (omega (arith, w)))))

  pub poll_read-Bounded :
      (cx : Waker) (buf : Bytes) (c : Reliable (Counted T) C E)
      → Ensures
          (λ r. Bounded (c.transport.calls + step_budget) r.1)
          (poll_read (counted link) clock capacity cx buf c)
  unfolding poll_read
  poll_read-Bounded cx [] c = omega arith
  poll_read-Bounded cx (b ∷ buf) c =
      let most = c.transport.calls + step_budget in
      bind-Ensures (λ r. Within link clock capacity most r.0 r.1) (λ r. Bounded most r.1)
        (drive (counted link) clock capacity cx step_budget c) _ (drive-Bounded cx c)
        (λ d w.
          bind-Ensures (λ r. At d.1.transport r.1) (λ r. Bounded most r.1)
            (read_payload (counted link) clock capacity (b ∷ buf) d.1) _
            (read_payload-At (b ∷ buf) d.1)
            (λ r e.
              finish-Bounded most op_read cx r.1 r.2
                (At-Bounded most d.1 r.1 e (omega (arith, w)))))

  queued-Bounded :
      (most : ℕ) (cx : Waker) (budget len : ℕ) (work : Work) (c : Reliable (Counted T) C E)
      → Within link clock capacity most budget c
      → Ensures
          (λ (r : Reliable (Counted T) C E × ℕ). Bounded most r.0)
          (elim work [
            | yield ↦ ret (c, len)
            | _ ↦ (do
              (budget, c, work) ← drive (counted link) clock capacity cx budget c
              ret (c, len))
          ])
  queued-Bounded most cx budget len yield c v = omega (arith, v)
  queued-Bounded most cx budget len blocked c v =
      bind-Ensures (λ r. Within link clock capacity most r.0 r.1) (λ r. Bounded most r.0)
        (drive (counted link) clock capacity cx budget c) _
        (drive-Within link clock capacity most cx budget c v) (λ d w. omega (arith, w))
  queued-Bounded most cx budget len progress c v =
      bind-Ensures (λ r. Within link clock capacity most r.0 r.1) (λ r. Bounded most r.0)
        (drive (counted link) clock capacity cx budget c) _
        (drive-Within link clock capacity most cx budget c v) (λ d w. omega (arith, w))

  accept-Bounded :
      (most : ℕ) (cx : Waker) (budget : ℕ) (work : Work) (buf : Bytes)
      (c : Reliable (Counted T) C E)
      → Within link clock capacity most budget c
      → Ensures (λ r. Bounded most r.0) (accept (counted link) clock capacity cx budget work buf c)
  unfolding accept
  accept-Bounded most cx budget work buf c v =
      bind-Ensures (λ p. Unit {0}) (λ r. Bounded most r.0) (slice_to buf len) _
        (Ensures-any (slice_to buf len))
        (λ p i.
          bind-Ensures (λ w. Unit {0}) (λ r. Bounded most r.0)
            (encode_data c.config.session (c.tx_next % 2 ^ 32) p c.scratch c.tx_frame) _
            (Ensures-any (encode_data c.config.session (c.tx_next % 2 ^ 32) p c.scratch c.tx_frame))
            (λ w j. queued-Bounded most cx budget len work _ v))
    where
      len : ℕ
      len = min (length buf) (max_payload capacity)

  pub try_accept-Bounded :
      (most : ℕ) (cx : Waker) (budget : ℕ) (work : Work) (busy : Bool) (buf : Bytes)
      (f : Reliable (Counted T) C E × Option (ConnectionError E))
      → Within link clock capacity most budget f.0
      → Ensures
          (λ r. Bounded most r.0)
          (try_accept (counted link) clock capacity cx budget work busy buf f)
  unfolding try_accept
  try_accept-Bounded most cx budget work busy buf (c, some e) v = omega (arith, v)
  try_accept-Bounded most cx budget work true buf (c, none) v = omega (arith, v)
  try_accept-Bounded most cx budget work false buf (c, none) v =
      bind-Ensures (λ r. Bounded most r.0) (λ r. Bounded most r.0)
        (accept (counted link) clock capacity cx budget work buf c) _
        (accept-Bounded most cx budget work buf c v) (λ a w. w)
