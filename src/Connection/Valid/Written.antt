-- ===== src/Connection/Valid/Written.antt =====
-- `poll_output` against the invariant and the budget.
use cobs_io_async_rs.Connection.Valid.Output.{
  Begun, begin_output-Begun, frame_len, Pending, pending_output-Pending,
}
use cobs_io_async_rs.Error.{ConnectionError}
use cobs_io_async_rs.Connection.Output.{
  begin_output, pending_output, wrote, write_output, flushed, flush_polled, flush_output,
  run_output, drive_output, poll_output,
}
use cobs_io_async_rs.Connection.State.{
  Tx, idle, queued, sending, waiting, Frame, ack, data_frame, Out, out_idle, writing, flushing,
  Work, progress, Reliable, Outcome, is_sending,
}
use cobs_io_async_rs.Connection.Valid.{IsValid, InFrame, HasFrame}
use cobs_io_async_rs.Prelude.Exec.Holds.{Holds, bind-Holds, if-Holds}
use cobs_io_async_rs.Prelude.{
  ℕ, zero, suc, ◌+◌, ◌≤◌, ◌<◌, ◌≡◌, refl, subst, min, true, Option, none, some, Result, ok, err,
  length, ◌==◌, if◌then◌else◌, arith,
}
use cobs_io_async_rs.Transport.{Waker, Poll, ready, pending, Transport, Timer}

sending-HasFrame : (tx : Tx) (tx_len : ℕ) → is_sending tx ≡ true → HasFrame tx tx_len → 0 < tx_len
sending-HasFrame sending tx_len e h = h
sending-HasFrame idle tx_len e h = absurd (cc e)
sending-HasFrame queued tx_len e h = absurd (cc e)
sending-HasFrame waiting tx_len e h = absurd (cc e)

offset-le :
    (frame : Frame) (offset ack_len tx_len len : ℕ)
    → len ≡ frame_len frame ack_len tx_len
    → InFrame (writing frame offset) ack_len tx_len
    → offset ≤ len
offset-le ack offset ack_len tx_len len e h = omega arith
offset-le data_frame offset ack_len tx_len len e h = omega arith

-- Progress has spent some of the budget.
abbrev pub Spent : {E : Type 0} → ℕ → ℕ → Result Work (ConnectionError E) → Type 0
Spent budget left (ok progress) = left < budget
Spent budget left _ = Unit

module _ {T C E : Type 0} (link : Transport T E) (clock : Timer C) (capacity : ℕ) where
  abbrev Kept : Outcome T C E → Type 0
  Kept (c, r) = IsValid capacity c

  abbrev pub After : ℕ → ℕ × Outcome T C E → Type 0
  After budget (left, (c, r)) = IsValid capacity c × (left ≤ budget)

  -- The offset moves within the frame, or the whole frame is written.
  moved-InFrame :
      (frame : Frame) (offset len n : ℕ) (ack_len tx_len : ℕ)
      → len ≡ frame_len frame ack_len tx_len
      → offset + n ≤ len
      → InFrame
          (if offset + n == len then flushing frame else writing frame (offset + n))
          ack_len
          tx_len
  moved-InFrame frame offset len n ack_len tx_len same h =
      if-Holds (λ o. InFrame o ack_len tx_len) (offset + n == len) (λ e. tt)
        (λ e. within frame same (ground arith))
    where
      within :
          (frame : Frame)
          → len ≡ frame_len frame ack_len tx_len
          → offset + n < len
          → InFrame (writing frame (offset + n)) ack_len tx_len
      within ack same h = omega arith
      within data_frame same h = omega arith

  wrote-Kept :
      (frame : Frame) (offset len n : ℕ) (c : Reliable T C E) (p : Poll (Result ℕ E))
      → len ≡ frame_len frame c.ack_len c.tx_len
      → offset + n ≤ len
      → IsValid capacity c
      → Kept (wrote link clock frame offset len n c p)
  unfolding wrote
  wrote-Kept frame offset len n c pending same h v = v
  wrote-Kept frame offset len n c (ready (err e)) same h v = v
  wrote-Kept frame offset len n c (ready (ok zero)) same h v = v
  wrote-Kept frame offset len n c (ready (ok (suc k))) same h ((s, r, l), room) = (
    (
      record {
        tx_frame_length = s.tx_frame_length;
        tx_len_le = s.tx_len_le;
        ack_frame_length = s.ack_frame_length;
        ack_len_le = s.ack_len_le;
        in_frame =
            moved-InFrame frame offset len (min (suc k) n) c.ack_len c.tx_len same (omega arith);
        has_frame = s.has_frame;
      },
      r,
      l,
    ),
    room,
  )

  write_output-Kept :
      (cx : Waker) (frame : Frame) (offset : ℕ) (c : Reliable T C E)
      → InFrame (writing frame offset) c.ack_len c.tx_len
      → IsValid capacity c
      → Holds Kept (write_output link clock cx frame offset c)
  unfolding write_output
  write_output-Kept cx frame offset c h v =
      bind-Holds (Pending link clock capacity frame offset c) Kept
        (pending_output link clock frame offset c) _
        (pending_output-Pending link clock capacity frame offset c h v)
        (λ p e.
          let t = link.poll_write c.transport cx p.0 in
          wrote-Kept frame offset p.1 (length p.0) (record c { transport = t.0 }) t.1 e.0
            (omega (arith, offset-le frame offset c.ack_len c.tx_len p.1 e.0 h)) v)

  flushed-IsValid :
      (frame : Frame) (c : Reliable T C E)
      → IsValid capacity c
      → IsValid capacity (flushed link clock frame c)
  unfolding flushed
  flushed-IsValid ack c ((s, r, l), room) = (
    (
      record {
        tx_frame_length = s.tx_frame_length;
        tx_len_le = s.tx_len_le;
        ack_frame_length = s.ack_frame_length;
        ack_len_le = s.ack_len_le;
        in_frame = tt;
        has_frame = s.has_frame;
      },
      r,
      l,
    ),
    room,
  )
  flushed-IsValid data_frame c ((s, r, l), room) =
      if-Holds (IsValid capacity) (is_sending c.tx)
        (λ e. (
          (
            record {
              tx_frame_length = s.tx_frame_length;
              tx_len_le = s.tx_len_le;
              ack_frame_length = s.ack_frame_length;
              ack_len_le = s.ack_len_le;
              in_frame = tt;
              has_frame = sending-HasFrame c.tx c.tx_len e s.has_frame;
            },
            r,
            l,
          ),
          room,
        ))
        (λ e. (
          (
            record {
              tx_frame_length = s.tx_frame_length;
              tx_len_le = s.tx_len_le;
              ack_frame_length = s.ack_frame_length;
              ack_len_le = s.ack_len_le;
              in_frame = tt;
              has_frame = s.has_frame;
            },
            r,
            l,
          ),
          room,
        ))

  flush_polled-Kept :
      (frame : Frame) (c : Reliable T C E) (p : Poll (Result (Unit {0}) E))
      → IsValid capacity c
      → Kept (flush_polled link clock frame c p)
  unfolding flush_polled
  flush_polled-Kept frame c pending v = v
  flush_polled-Kept frame c (ready (err e)) v = v
  flush_polled-Kept frame c (ready (ok u)) v = flushed-IsValid frame c v

  run_output-Kept :
      (cx : Waker) (out : Out) (c : Reliable T C E)
      → c.out ≡ out
      → IsValid capacity c
      → Holds Kept (run_output link clock cx out c)
  unfolding run_output flush_output
  run_output-Kept cx out_idle c e v = v
  run_output-Kept cx (writing frame offset) c e v =
      write_output-Kept cx frame offset c
        (subst (λ o. InFrame o c.ack_len c.tx_len) e v.0.0.in_frame) v
  run_output-Kept cx (flushing frame) c e v =
      let t = link.poll_flush c.transport cx in
      flush_polled-Kept frame (record c { transport = t.0 }) t.1 v

  drive_output-After :
      (cx : Waker) (budget : ℕ) (begun : Option (Reliable T C E)) (c : Reliable T C E)
      → Begun link clock capacity begun
      → IsValid capacity c
      → Holds (After budget) (drive_output link clock cx budget begun c)
  unfolding drive_output
  drive_output-After cx budget none c b v = (v, omega arith)
  drive_output-After cx zero (some c') c b v = (b, omega arith)
  drive_output-After cx (suc left) (some c') c b v =
      bind-Holds Kept (After (suc left)) (run_output link clock cx c'.out c') _
        (run_output-Kept cx c'.out c' refl b) (λ o k. (k, omega arith))

  pub poll_output-After :
      (cx : Waker) (budget : ℕ) (c : Reliable T C E)
      → IsValid capacity c
      → Holds (After budget) (poll_output link clock cx budget c)
  unfolding poll_output
  poll_output-After cx budget c v =
      bind-Holds (Begun link clock capacity) (After budget)
        (begin_output link clock c.out c.ack_pending c) _
        (begin_output-Begun link clock capacity c.out c.ack_pending c refl v)
        (λ begun b. drive_output-After cx budget begun c b v)
