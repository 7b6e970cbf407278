-- ===== src/Connection/Kept/Output.antt =====
-- `poll_output` keeps what is kept.
use cobs_io_async_rs.Connection.Kept.{Begun, IsOutputKept}
use cobs_io_async_rs.Connection.Output.{
  begin_output, pending_output, wrote, write_output, flush_polled, flush_output, run_output,
  drive_output, poll_output,
}
use cobs_io_async_rs.Connection.State.{Frame, Out, out_idle, writing, flushing, Reliable, Outcome}
use cobs_io_async_rs.Prelude.Exec.Ensures.{Ensures, bind-Ensures, Ensures-any}
use cobs_io_async_rs.Prelude.{
  ℕ, zero, suc, ◌+◌, min, Option, none, some, Result, ok, err, length, ◌==◌, if◌then◌else◌,
}
use cobs_io_async_rs.Transport.{Waker, Poll, ready, pending, Transport, Timer}

module _ {T C E : Type 0} (link : Transport T E) (clock : Timer C) (P : Reliable T C E → Type 0)
    (k : IsOutputKept link clock P) where
  abbrev After : Outcome T C E → Type 0
  After (c, r) = P c

  wrote_kept :
      (frame : Frame) (offset len n : ℕ) (c : Reliable T C E) (p : Poll (Result ℕ E))
      → P c
      → After (wrote link clock frame offset len n c p)
  unfolding wrote
  wrote_kept frame offset len n c pending v = v
  wrote_kept frame offset len n c (ready (err e)) v = v
  wrote_kept frame offset len n c (ready (ok zero)) v = v
  wrote_kept frame offset len n c (ready (ok (suc j))) v =
      k.moved
        (if offset + min (suc j) n == len
          then flushing frame
          else writing frame (offset + min (suc j) n))
        c v

  write_output_kept :
      (cx : Waker) (frame : Frame) (offset : ℕ) (c : Reliable T C E)
      → P c
      → Ensures After (write_output link clock cx frame offset c)
  unfolding write_output
  write_output_kept cx frame offset c v =
      bind-Ensures (λ p. Unit {0}) After (pending_output link clock frame offset c) _
        (Ensures-any (pending_output link clock frame offset c))
        (λ p e.
          let t = link.poll_write c.transport cx p.0 in
          wrote_kept frame offset p.1 (length p.0) (record c { transport = t.0 }) t.1
            (k.writes_to c cx p.0 v))

  flush_polled_kept :
      (frame : Frame) (c : Reliable T C E) (p : Poll (Result (Unit {0}) E))
      → P c
      → After (flush_polled link clock frame c p)
  unfolding flush_polled
  flush_polled_kept frame c pending v = v
  flush_polled_kept frame c (ready (err e)) v = v
  flush_polled_kept frame c (ready (ok u)) v = k.flushes frame c v

  run_output_kept :
      (cx : Waker) (out : Out) (c : Reliable T C E)
      → P c
      → Ensures After (run_output link clock cx out c)
  unfolding run_output flush_output
  run_output_kept cx out_idle c v = v
  run_output_kept cx (writing frame offset) c v = write_output_kept cx frame offset c v
  run_output_kept cx (flushing frame) c v =
      let t = link.poll_flush c.transport cx in
      flush_polled_kept frame (record c { transport = t.0 }) t.1 (k.flushes_to c cx v)

  drive_output_kept :
      (cx : Waker) (budget : ℕ) (begun : Option (Reliable T C E)) (c : Reliable T C E)
      → Begun P begun
      → P c
      → Ensures (λ r. After r.1) (drive_output link clock cx budget begun c)
  unfolding drive_output
  drive_output_kept cx budget none c b v = v
  drive_output_kept cx zero (some c') c b v = b
  drive_output_kept cx (suc left) (some c') c b v =
      bind-Ensures After (λ r. After r.1) (run_output link clock cx c'.out c') _
        (run_output_kept cx c'.out c' b) (λ o v'. v')

  pub poll_output_kept :
      (cx : Waker) (budget : ℕ) (c : Reliable T C E)
      → P c
      → Ensures (λ r. After r.1) (poll_output link clock cx budget c)
  unfolding poll_output
  poll_output_kept cx budget c v =
      bind-Ensures (Begun P) (λ r. After r.1) (begin_output link clock c.out c.ack_pending c) _
        (k.begun c v) (λ begun b. drive_output_kept cx budget begun c b v)
