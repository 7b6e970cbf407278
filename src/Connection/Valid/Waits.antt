-- ===== src/Connection/Valid/Waits.antt =====
-- The waker of an operation that is pending.
use cobs_io_async_rs.Connection.Api.{
  op_eq, due, notify_op, notify, finish, read_payload, poll_read, queue_packet, poll_write,
  poll_flush, poll_progress,
}
use cobs_io_async_rs.Connection.Drive.{drive}
use cobs_io_async_rs.Connection.State.{
  step_budget, Op, op_read, op_write, op_flush, op_progress, Waiters, Reliable, is_ok,
}
use cobs_io_async_rs.Connection.Valid.Api.{poll_progress-IsValid, poll_flush-IsValid}
use cobs_io_async_rs.Connection.Valid.Reading.{Read, poll_read-Read}
use cobs_io_async_rs.Connection.Valid.Writing.{Written, poll_write-Written}
use cobs_io_async_rs.Connection.Valid.{IsValid}
use cobs_io_async_rs.Connection.Waiters.{slot, set_slot, kept, register, wake_lem}
use cobs_io_async_rs.Error.{ConnectionError}
use cobs_io_async_rs.Prelude.Exec.Ensures.{Ensures, bind-Ensures, Ensures-any, also-Holds}
use cobs_io_async_rs.Prelude.Exec.Holds.{Holds, if-Holds}
use cobs_io_async_rs.Prelude.{
  ℕ, ◌^◌, ◌<◌, ◌≡◌, refl, ap, ◌∙◌, Bool, false, not, ◌||◌, [], ◌∷◌, Bytes, Option, none, some,
  Result, arith,
}
use cobs_io_async_rs.Transport.{Waker, Poll, ready, pending, Transport, Timer, KeepsLength}

-- Where the operation is pending, its slot holds the waker that it was last polled with.
abbrev pub Waits {ℓ} : {T C E : Type 0} {R : Type ℓ} → Op → Waker → Reliable T C E → Poll R → Type 0
Waits op cx c pending = slot op c.waiters ≡ some cx
Waits op cx c (ready r) = Unit

kept_lem : (o : Option Waker) (cx : Waker) → kept o cx ≡ cx
unfolding kept
kept_lem none cx = refl
kept_lem (some held) cx = ground arith

slot-set_slot : (op : Op) (o : Option Waker) (w : Waiters) → slot op (set_slot op o w) ≡ o
slot-set_slot op_read o w = refl
slot-set_slot op_write o w = refl
slot-set_slot op_flush o w = refl
slot-set_slot op_progress o w = refl

slot_other :
    (op done : Op) (o : Option Waker) (w : Waiters)
    → op_eq op done ≡ false
    → slot done (set_slot op o w) ≡ slot done w
slot_other op_read op_read o w e = absurd (cc e)
slot_other op_read op_write o w e = refl
slot_other op_read op_flush o w e = refl
slot_other op_read op_progress o w e = refl
slot_other op_write op_read o w e = refl
slot_other op_write op_write o w e = absurd (cc e)
slot_other op_write op_flush o w e = refl
slot_other op_write op_progress o w e = refl
slot_other op_flush op_read o w e = refl
slot_other op_flush op_write o w e = refl
slot_other op_flush op_flush o w e = absurd (cc e)
slot_other op_flush op_progress o w e = refl
slot_other op_progress op_read o w e = refl
slot_other op_progress op_write o w e = refl
slot_other op_progress op_flush o w e = refl
slot_other op_progress op_progress o w e = absurd (cc e)

module _ {T C E : Type 0} where
  notify_op-slot :
      (done : Op) (everyone : Bool) (op : Op) (c : Reliable T C E)
      → slot done (notify_op done everyone op c).waiters ≡ slot done c.waiters
  unfolding notify_op
  notify_op-slot done everyone op c =
      if-Holds Same (op_eq op done) (λ e. refl)
        (λ other.
          if-Holds Same (everyone || due op c)
            (λ e.
              ap (λ (x : Reliable T C E). slot done x.waiters) (wake_lem op c)
              ∙ slot_other op done none c.waiters other)
            (λ e. refl))
    where
      Same : Reliable T C E → Type 0
      Same c' = slot done c'.waiters ≡ slot done c.waiters

  notify-slot :
      (done : Op) (completed : Bool) (c : Reliable T C E)
      → slot done (notify done completed c).waiters ≡ slot done c.waiters
  unfolding notify
  notify-slot done completed c =
      let everyone = completed || not (is_ok c.health) in
      notify_op-slot done everyone op_progress _
      ∙ notify_op-slot done everyone op_flush _
      ∙ notify_op-slot done everyone op_write _
      ∙ notify_op-slot done everyone op_read c

  finish-Waits {ℓ} :
      {R : Type ℓ} (op : Op) (cx : Waker) (c : Reliable T C E) (poll : Poll R)
      → Waits op cx (finish op cx c poll).0 (finish op cx c poll).1
  unfolding finish register
  finish-Waits op cx c (ready r) = tt
  finish-Waits op cx c pending =
      notify-slot op false _
      ∙ slot-set_slot op _ c.waiters
      ∙ ap some (kept_lem (slot op c.waiters) cx)

module _ {T C E : Type 0} (link : Transport T E) (clock : Timer C) (capacity : ℕ) where
  abbrev pub Reads : Waker → Bytes × Reliable T C E × Poll (Result ℕ (ConnectionError E)) → Type 0
  Reads cx (buf, c, poll) = Waits op_read cx c poll

  poll_read-Waits :
      (cx : Waker) (buf : Bytes) (c : Reliable T C E)
      → Ensures (Reads cx) (poll_read link clock capacity cx buf c)
  unfolding poll_read
  poll_read-Waits cx [] c = tt
  poll_read-Waits cx (b ∷ buf) c =
      bind-Ensures (λ d. Unit {0}) (Reads cx) (drive link clock capacity cx step_budget c) _
        (Ensures-any (drive link clock capacity cx step_budget c))
        (λ d i.
          bind-Ensures (λ r. Unit {0}) (Reads cx) (read_payload link clock capacity (b ∷ buf) d.1) _
            (Ensures-any (read_payload link clock capacity (b ∷ buf) d.1))
            (λ r j. finish-Waits op_read cx r.1 r.2))

  abbrev pub Writes : Waker → Reliable T C E × Poll (Result ℕ (ConnectionError E)) → Type 0
  Writes cx (c, poll) = Waits op_write cx c poll

  poll_write-Waits :
      (cx : Waker) (buf : Bytes) (c : Reliable T C E)
      → Ensures (Writes cx) (poll_write link clock capacity cx buf c)
  unfolding poll_write
  poll_write-Waits cx [] c = tt
  poll_write-Waits cx (b ∷ buf) c =
      bind-Ensures (λ r. Unit {0}) (Writes cx) (queue_packet link clock capacity cx (b ∷ buf) c) _
        (Ensures-any (queue_packet link clock capacity cx (b ∷ buf) c))
        (λ r i. finish-Waits op_write cx r.0 r.1)

  abbrev pub Flushes :
      Waker → Reliable T C E × Poll (Result (Unit {0}) (ConnectionError E)) → Type 0
  Flushes cx (c, poll) = Waits op_flush cx c poll

  poll_flush-Waits :
      (cx : Waker) (c : Reliable T C E) → Ensures (Flushes cx) (poll_flush link clock capacity cx c)
  unfolding poll_flush
  poll_flush-Waits cx c =
      bind-Ensures (λ d. Unit {0}) (Flushes cx) (drive link clock capacity cx step_budget c) _
        (Ensures-any (drive link clock capacity cx step_budget c))
        (λ d i. finish-Waits op_flush cx _ _)

  abbrev pub Progresses : Waker → Reliable T C E × Poll (ConnectionError E) → Type 0
  Progresses cx (c, poll) = Waits op_progress cx c poll

  poll_progress-Waits :
      (cx : Waker) (c : Reliable T C E)
      → Ensures (Progresses cx) (poll_progress link clock capacity cx c)
  unfolding poll_progress
  poll_progress-Waits cx c =
      bind-Ensures (λ d. Unit {0}) (Progresses cx) (drive link clock capacity cx step_budget c) _
        (Ensures-any (drive link clock capacity cx step_budget c))
        (λ d i. finish-Waits op_progress cx _ _)

  -- Over a link that keeps the length of the buffers that it is given and with a capacity below
  -- 2 ^ 62, each of the four poll operations of a valid connection returns, and if it is pending, then
  -- the waker that it was polled with is stored, for another operation to wake.
  pub poll_waits :
      KeepsLength link
      → capacity < 2 ^ 62
      → (cx : Waker) (buf : Bytes) (c : Reliable T C E) → IsValid capacity c
      → Holds (Reads cx) (poll_read link clock capacity cx buf c)
        × Holds (Writes cx) (poll_write link clock capacity cx buf c)
        × Holds (Flushes cx) (poll_flush link clock capacity cx c)
        × Holds (Progresses cx) (poll_progress link clock capacity cx c)
  poll_waits keeps small cx buf c v = (
    also-Holds (Read link clock capacity buf) (Reads cx) _
        (poll_read-Read link clock capacity keeps cx buf c v) (poll_read-Waits cx buf c),
    also-Holds (Written link clock capacity buf) (Writes cx) _
        (poll_write-Written link clock capacity keeps small cx buf c v) (poll_write-Waits cx buf c),
    also-Holds (λ r. IsValid capacity r.0) (Flushes cx) _
        (poll_flush-IsValid link clock capacity keeps cx c v) (poll_flush-Waits cx c),
    also-Holds (λ r. IsValid capacity r.0) (Progresses cx) _
        (poll_progress-IsValid link clock capacity keeps cx c v) (poll_progress-Waits cx c),
  )
