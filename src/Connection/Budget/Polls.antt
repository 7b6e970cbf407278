-- ===== src/Connection/Budget/Polls.antt =====
-- Each operation of the user makes as many calls of the link as the budget allows, at most.
use cobs_io_async_rs.Connection.Budget.Bounded.{
  Bounded, finish-Bounded, check_sequence-At, drive-Bounded, poll_progress-Bounded,
  poll_flush-Bounded, poll_read-Bounded, try_accept-Bounded,
}
use cobs_io_async_rs.Connection.Api.{
  write_ready, poll_read, check_sequence, queue_packet, poll_write, poll_flush, poll_progress,
}
use cobs_io_async_rs.Connection.Budget.Calls.{Within}
use cobs_io_async_rs.Connection.Budget.Parts.{At, mute, At-IsKept}
use cobs_io_async_rs.Connection.Budget.{Counted, counted}
use cobs_io_async_rs.Connection.Drive.{failure, drive}
use cobs_io_async_rs.Connection.Kept.Driver.{failure_kept}
use cobs_io_async_rs.Connection.State.{step_budget, op_write, Reliable}
use cobs_io_async_rs.Connection.Valid.Api.{poll_progress-IsValid, poll_flush-IsValid}
use cobs_io_async_rs.Connection.Valid.Reading.{Read, poll_read-Read}
use cobs_io_async_rs.Connection.Valid.Writing.{Written, poll_write-Written}
use cobs_io_async_rs.Connection.Valid.{IsValid}
use cobs_io_async_rs.Prelude.Exec.Ensures.{Ensures, bind-Ensures, also-Holds}
use cobs_io_async_rs.Prelude.Exec.Holds.{Holds}
use cobs_io_async_rs.Prelude.{ℕ, ◌+◌, ◌≤◌, ◌<◌, ◌^◌, ◌≡◌, ap, not, [], ◌∷◌, Bytes, arith}
use cobs_io_async_rs.Transport.{Waker, Transport, Timer, KeepsLength}

module _ {T C E : Type 0} (link : Transport T E) (clock : Timer C) (capacity : ℕ) where
  queue_packet-Bounded :
      (cx : Waker) (buf : Bytes) (c : Reliable (Counted T) C E)
      → Ensures
          (λ r. Bounded (c.transport.calls + step_budget) r.0)
          (queue_packet (counted link) clock capacity cx buf c)
  unfolding queue_packet
  queue_packet-Bounded cx buf c =
      let most = c.transport.calls + step_budget in
      bind-Ensures (λ r. Within link clock capacity most r.0 r.1) (λ r. Bounded most r.0)
        (drive (counted link) clock capacity cx step_budget c) _
        (drive-Bounded link clock capacity cx c)
        (λ d w.
          let checked = check_sequence (counted link) clock capacity d.1 in
          let same : (failure checked).0.transport ≡ d.1.transport =
            failure_kept mute clock capacity (At d.1.transport)
              (At-IsKept clock capacity d.1.transport) checked
              (check_sequence-At link clock capacity d.1) in
          try_accept-Bounded link clock capacity most cx d.0 d.2 (not (write_ready d.1)) buf
            (failure checked) (omega (arith, w, ap (λ t. t.calls) same)))

  poll_write-Bounded :
      (cx : Waker) (buf : Bytes) (c : Reliable (Counted T) C E)
      → Ensures
          (λ r. Bounded (c.transport.calls + step_budget) r.0)
          (poll_write (counted link) clock capacity cx buf c)
  unfolding poll_write
  poll_write-Bounded cx [] c = omega arith
  poll_write-Bounded cx (b ∷ buf) c =
      let most = c.transport.calls + step_budget in
      bind-Ensures (λ r. Bounded most r.0) (λ r. Bounded most r.0)
        (queue_packet (counted link) clock capacity cx (b ∷ buf) c) _
        (queue_packet-Bounded cx (b ∷ buf) c)
        (λ r w. finish-Bounded link clock capacity most op_write cx r.0 r.1 w)

  -- Over a link that keeps the length of the buffers that it is given and with a capacity below
  -- 2 ^ 62, each of the four poll operations of a valid connection returns, and has made 16 calls of
  -- the link at most, reads, writes and flushes together.
  pub poll_calls :
      KeepsLength link
      → capacity < 2 ^ 62
      → (cx : Waker) (buf : Bytes) (c : Reliable (Counted T) C E) → IsValid capacity c
      → Holds
          (λ r. r.1.transport.calls ≤ c.transport.calls + step_budget)
          (poll_read (counted link) clock capacity cx buf c)
        × Holds
            (λ r. r.0.transport.calls ≤ c.transport.calls + step_budget)
            (poll_write (counted link) clock capacity cx buf c)
        × Holds
            (λ r. r.0.transport.calls ≤ c.transport.calls + step_budget)
            (poll_flush (counted link) clock capacity cx c)
        × Holds
            (λ r. r.0.transport.calls ≤ c.transport.calls + step_budget)
            (poll_progress (counted link) clock capacity cx c)
  poll_calls keeps small cx buf c v =
      let most = c.transport.calls + step_budget in
      let keeps' : KeepsLength (counted link) = λ w. keeps w.link in
      (
        also-Holds (Read (counted link) clock capacity buf) (λ r. Bounded most r.1) _
            (poll_read-Read (counted link) clock capacity keeps' cx buf c v)
            (poll_read-Bounded link clock capacity cx buf c),
        also-Holds (Written (counted link) clock capacity buf) (λ r. Bounded most r.0) _
            (poll_write-Written (counted link) clock capacity keeps' small cx buf c v)
            (poll_write-Bounded cx buf c),
        also-Holds (λ r. IsValid capacity r.0) (λ r. Bounded most r.0) _
            (poll_flush-IsValid (counted link) clock capacity keeps' cx c v)
            (poll_flush-Bounded link clock capacity cx c),
        also-Holds (λ r. IsValid capacity r.0) (λ r. Bounded most r.0) _
            (poll_progress-IsValid (counted link) clock capacity keeps' cx c v)
            (poll_progress-Bounded link clock capacity cx c),
      )
