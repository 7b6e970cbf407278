-- ===== src/Connection/Output.antt =====
-- `poll_output` of src/connection.rs. An outcome is the connection and the budget
-- after the call with the `Result` that it returned; `?` on an error keeps what was changed.
use cobs_io_async_rs.Connection.State.{
  sending, waiting, Frame, ack, data_frame, Out, out_idle, writing, flushing, blocked, progress,
  yield, Reliable, Outcome, is_queued, is_sending,
}
use cobs_io_async_rs.Error.{transport, write_zero}
use cobs_io_async_rs.Prelude.Exec.{Exec, ret, ◌>>=◌, slice_to, slice_from}
use cobs_io_async_rs.Prelude.{
  ℕ, zero, suc, ◌+◌, ◌-◌, ◌^◌, min, Bytes, Option, none, some, Result, ok, err, length, take, ◌++◌,
  [], ◌∷◌, ◌==◌, if◌then◌else◌,
}
use cobs_io_async_rs.Protocol.Packet.{encode_ack}
use cobs_io_async_rs.Transport.{Waker, Poll, ready, pending, Transport, Timer}

-- `a.saturating_add(b)` of `u64`s.
abbrev pub saturating_add : ℕ → ℕ → ℕ
saturating_add a b = min (a + b) (2 ^ 64 - 1)

module _ {T C E : Type 0} (link : Transport T E) (clock : Timer C) where
  -- The first `if`, on `out` and `ack_pending`: `none` where it returns `Ok(Work::Blocked)`.
  unfoldable pub begin_output : Out → Option ℕ → Reliable T C E → Exec (Option (Reliable T C E))
  begin_output out_idle (some seq) c = do
    (frame, len) ← encode_ack c.config.session seq c.ack_frame
    ret (
        some (record c {
          ack_pending = none;
          ack_frame = frame;
          ack_len = len;
          out = writing ack 0;
          begun = c.begun ++ take len frame ∷ [];
        }))
  begin_output out_idle none c =
      if is_queued c.tx
      then ret (
          some (record c {
            tx = sending;
            out = writing data_frame 0;
            begun = c.begun ++ take c.tx_len c.tx_frame ∷ [];
          }))
      else ret none
  begin_output (writing frame offset) pending_seq c = ret (some c)
  begin_output (flushing frame) pending_seq c = ret (some c)

  -- `&frame[offset..len]` and `len`.
  unfoldable pub pending_output : Frame → ℕ → Reliable T C E → Exec (Bytes × ℕ)
  pending_output ack offset c = do
    bytes ← slice_to c.ack_frame c.ack_len
    rest ← slice_from bytes offset
    ret (rest, c.ack_len)
  pending_output data_frame offset c = do
    bytes ← slice_to c.tx_frame c.tx_len
    rest ← slice_from bytes offset
    ret (rest, c.tx_len)

  -- The match on what the link's `poll_write` returned, of `n` bytes offered.
  unfoldable pub wrote : Frame → ℕ → ℕ → ℕ → Reliable T C E → Poll (Result ℕ E) → Outcome T C E
  wrote frame offset len n c pending = (c, ok blocked)
  wrote frame offset len n c (ready (err e)) = (c, err (transport e))
  wrote frame offset len n c (ready (ok zero)) = (c, err write_zero)
  wrote frame offset len n c (ready (ok (suc k))) =
      let offset' = offset + min (suc k) n in
      (
        record c { out = if offset' == len then flushing frame else writing frame offset' },
        ok progress,
      )

  unfoldable pub write_output : Waker → Frame → ℕ → Reliable T C E → Exec (Outcome T C E)
  write_output cx frame offset c = do
    (bytes, len) ← pending_output frame offset c
    let (t, polled) = link.poll_write c.transport cx bytes
    ret (wrote frame offset len (length bytes) (record c { transport = t }) polled)

  -- The flush of a frame has completed.
  unfoldable pub flushed : Frame → Reliable T C E → Reliable T C E
  flushed ack c = record c { out = out_idle }
  flushed data_frame c =
      if is_sending c.tx
      then record c {
        tx = waiting;
        final_input = none;
        tx_deadline = saturating_add (clock.now c.timer) c.config.retransmit_timeout;
        out = out_idle;
      }
      else record c { out = out_idle }

  -- The match on what the link's `poll_flush` returned.
  unfoldable pub flush_polled : Frame → Reliable T C E → Poll (Result (Unit {0}) E) → Outcome T C E
  flush_polled frame c pending = (c, ok blocked)
  flush_polled frame c (ready (err e)) = (c, err (transport e))
  flush_polled frame c (ready (ok u)) = (flushed frame c, ok progress)

  unfoldable pub flush_output : Waker → Frame → Reliable T C E → Outcome T C E
  flush_output cx frame c =
      let (t, polled) = link.poll_flush c.transport cx in
      flush_polled frame (record c { transport = t }) polled

  -- `match self.out`.
  unfoldable pub run_output : Waker → Out → Reliable T C E → Exec (Outcome T C E)
  run_output cx out_idle c = ret (c, ok blocked)
  run_output cx (writing frame offset) c = write_output cx frame offset c
  run_output cx (flushing frame) c = ret (flush_output cx frame c)

  -- Behind the first `if`: the budget is spent, and `out` driven.
  unfoldable pub drive_output :
      Waker → ℕ → Option (Reliable T C E) → Reliable T C E → Exec (ℕ × (Outcome T C E))
  drive_output cx budget none c = ret (budget, (c, ok blocked))
  drive_output cx zero (some c') c = ret (zero, (c', ok yield))
  drive_output cx (suc left) (some c') c = do outcome ← run_output cx c'.out c'; ret (left, outcome)

  unfoldable pub poll_output : Waker → ℕ → Reliable T C E → Exec (ℕ × (Outcome T C E))
  poll_output cx budget c = do
    begun ← begin_output c.out c.ack_pending c
    drive_output cx budget begun c
