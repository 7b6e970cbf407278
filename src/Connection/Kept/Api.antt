-- ===== src/Connection/Kept/Api.antt =====
-- The operations of the user, and what they keep.
use cobs_io_async_rs.Connection.Valid.Writing.{not_busy, check_sequence-out}
use cobs_io_async_rs.Connection.Api.{
  data_out_busy, read_payload, poll_read, check_sequence, accept, try_accept, queue_packet,
  poll_write, poll_progress, flush_result, poll_flush, write_ready,
}
use cobs_io_async_rs.Connection.Drive.{failure, drive}
use cobs_io_async_rs.Connection.Kept.Driver.{drive_kept, failure_kept, fail_kept, finish_kept}
use cobs_io_async_rs.Connection.Kept.{IsKept}
use cobs_io_async_rs.Connection.State.{
  is_idle, Work, blocked, progress, yield, step_budget, op_read, op_write, op_flush, op_progress,
  queued, Reliable,
}
use cobs_io_async_rs.Error.{ConnectionError, sequence_exhausted}
use cobs_io_async_rs.Prelude.Exec.Ensures.{Ensures, bind-Ensures, Ensures-any}
use cobs_io_async_rs.Prelude.Exec.Holds.{if-Holds}
use cobs_io_async_rs.Prelude.Exec.{ret, ◌>>=◌, slice_to, slice_from, copy_at}
use cobs_io_async_rs.Prelude.{
  ◌≡◌, refl, ap, ◌∙◌, ℕ, ◌+◌, ◌-◌, ◌%◌, ◌^◌, min, Bool, true, false, not, ◌&&◌, ltb, [], ◌∷◌, Bytes,
  Option, none, some, length,
}
use cobs_io_async_rs.Protocol.Packet.Scratch.{encode_data-Same}
use cobs_io_async_rs.Protocol.Packet.{encode_data}
use cobs_io_async_rs.Protocol.Payload.{max_payload}
use cobs_io_async_rs.Transport.{Waker, Transport, Timer}

-- What the steps of the user change.
pub record IsUserKept {T C E : Type 0} (P : Reliable T C E → Type 0) : Type 0 where
  pub reads : (c : Reliable T C E) (n : ℕ) → P c → P (record c { rx_start = n })
  pub accepts :
      (c : Reliable T C E) (scratch tx_frame : Bytes) (tx_len : ℕ)
      → data_out_busy c.out ≡ false
      → length scratch ≡ length c.scratch
      → P c
      → P (record c {
        scratch = scratch;
        tx_frame = tx_frame;
        tx_len = tx_len;
        tx_next = c.tx_next + 1;
        tx_retries = 0;
        tx = queued;
      })

module _ {T C E : Type 0} (link : Transport T E) (clock : Timer C) (capacity : ℕ)
    (P : Reliable T C E → Type 0) (k : IsKept link clock capacity P) where
  pub poll_progress_kept :
      (cx : Waker) (c : Reliable T C E)
      → P c
      → Ensures (λ r. P r.0) (poll_progress link clock capacity cx c)
  unfolding poll_progress
  poll_progress_kept cx c v =
      bind-Ensures (λ r. P r.1) (λ r. P r.0) (drive link clock capacity cx step_budget c) _
        (drive_kept link clock capacity P k cx step_budget c v)
        (λ d w.
          finish_kept link clock capacity P k op_progress cx _ _
            (failure_kept link clock capacity P k d.1 w))

  pub flush_result_kept :
      (f : Reliable T C E × Option (ConnectionError E))
      → P f.0
      → P (flush_result link clock capacity f).0
  unfolding flush_result
  flush_result_kept (c, some e) w = w
  flush_result_kept (c, none) w = w

  pub poll_flush_kept :
      (cx : Waker) (c : Reliable T C E)
      → P c
      → Ensures (λ r. P r.0) (poll_flush link clock capacity cx c)
  unfolding poll_flush
  poll_flush_kept cx c v =
      bind-Ensures (λ r. P r.1) (λ r. P r.0) (drive link clock capacity cx step_budget c) _
        (drive_kept link clock capacity P k cx step_budget c v)
        (λ d w.
          finish_kept link clock capacity P k op_flush cx _ _
            (flush_result_kept (failure d.1) (failure_kept link clock capacity P k d.1 w)))

  pub check_sequence_kept : (c : Reliable T C E) → P c → P (check_sequence link clock capacity c)
  unfolding check_sequence
  check_sequence_kept c v =
      if-Holds P (write_ready c && ltb (2 ^ 32 - 1) c.tx_next)
        (λ e. fail_kept link clock capacity P k sequence_exhausted c v) (λ e. v)

  module _ (u : IsUserKept P) where
    pub read_payload_kept :
        (buf : Bytes) (c : Reliable T C E)
        → P c
        → Ensures (λ r. P r.1) (read_payload link clock capacity buf c)
    unfolding read_payload
    read_payload_kept buf c v =
        if-Holds (Ensures (λ r. P r.1)) (ltb c.rx_start c.rx_end)
          (λ e.
            bind-Ensures (λ h. Unit {0}) (λ r. P r.1) (slice_to c.rx_payload (c.rx_start + n)) _
              (Ensures-any (slice_to c.rx_payload (c.rx_start + n)))
              (λ h i.
                bind-Ensures (λ b. Unit {0}) (λ r. P r.1) (slice_from h c.rx_start) _
                  (Ensures-any (slice_from h c.rx_start))
                  (λ b j.
                    bind-Ensures (λ x. Unit {0}) (λ r. P r.1) (copy_at buf 0 b) _
                      (Ensures-any (copy_at buf 0 b)) (λ x l. u.reads c (c.rx_start + n) v))))
          (λ e. failure_kept link clock capacity P k c v)
      where
        n : ℕ
        n = min (length buf) (c.rx_end - c.rx_start)

    pub poll_read_kept :
        (cx : Waker) (buf : Bytes) (c : Reliable T C E)
        → P c
        → Ensures (λ r. P r.1) (poll_read link clock capacity cx buf c)
    unfolding poll_read
    poll_read_kept cx [] c v = v
    poll_read_kept cx (b ∷ buf) c v =
        bind-Ensures (λ r. P r.1) (λ r. P r.1) (drive link clock capacity cx step_budget c) _
          (drive_kept link clock capacity P k cx step_budget c v)
          (λ d w.
            bind-Ensures (λ r. P r.1) (λ r. P r.1) (read_payload link clock capacity (b ∷ buf) d.1)
              _ (read_payload_kept (b ∷ buf) d.1 w)
              (λ r x. finish_kept link clock capacity P k op_read cx r.1 r.2 x))

    queued_kept :
        (cx : Waker) (budget len : ℕ) (work : Work) (c : Reliable T C E)
        → P c
        → Ensures
            (λ (r : Reliable T C E × ℕ). P r.0)
            (elim work [
              | yield ↦ ret (c, len)
              | _ ↦ (do (budget, c, work) ← drive link clock capacity cx budget c; ret (c, len))
            ])
    queued_kept cx budget len yield c v = v
    queued_kept cx budget len blocked c v =
        bind-Ensures (λ r. P r.1) (λ r. P r.0) (drive link clock capacity cx budget c) _
          (drive_kept link clock capacity P k cx budget c v) (λ d w. w)
    queued_kept cx budget len progress c v =
        bind-Ensures (λ r. P r.1) (λ r. P r.0) (drive link clock capacity cx budget c) _
          (drive_kept link clock capacity P k cx budget c v) (λ d w. w)

    accept_kept :
        (cx : Waker) (budget : ℕ) (work : Work) (buf : Bytes) (c : Reliable T C E)
        → data_out_busy c.out ≡ false
        → P c
        → Ensures (λ r. P r.0) (accept link clock capacity cx budget work buf c)
    unfolding accept
    accept_kept cx budget work buf c free v =
        bind-Ensures (λ p. Unit {0}) (λ r. P r.0) (slice_to buf len) _
          (Ensures-any (slice_to buf len))
          (λ p i.
            bind-Ensures (λ w. length w.0 ≡ length c.scratch) (λ r. P r.0)
              (encode_data c.config.session (c.tx_next % 2 ^ 32) p c.scratch c.tx_frame) _
              (encode_data-Same c.config.session (c.tx_next % 2 ^ 32) p c.scratch c.tx_frame)
              (λ w same. queued_kept cx budget len work _ (u.accepts c w.0 w.1 w.2 free same v)))
      where
        len : ℕ
        len = min (length buf) (max_payload capacity)

    try_accept_kept :
        (cx : Waker) (budget : ℕ) (work : Work) (busy : Bool) (buf : Bytes)
        (f : Reliable T C E × Option (ConnectionError E))
        → (busy ≡ false → data_out_busy f.0.out ≡ false)
        → P f.0
        → Ensures (λ r. P r.0) (try_accept link clock capacity cx budget work busy buf f)
    unfolding try_accept
    try_accept_kept cx budget work busy buf (c, some e) free v = v
    try_accept_kept cx budget work true buf (c, none) free v = v
    try_accept_kept cx budget work false buf (c, none) free v =
        bind-Ensures (λ r. P r.0) (λ r. P r.0) (accept link clock capacity cx budget work buf c) _
          (accept_kept cx budget work buf c (free refl) v) (λ a w. w)

    queue_packet_kept :
        (cx : Waker) (buf : Bytes) (c : Reliable T C E)
        → P c
        → Ensures (λ r. P r.0) (queue_packet link clock capacity cx buf c)
    unfolding queue_packet
    queue_packet_kept cx buf c v =
        bind-Ensures (λ r. P r.1) (λ r. P r.0) (drive link clock capacity cx step_budget c) _
          (drive_kept link clock capacity P k cx step_budget c v)
          (λ d w.
            try_accept_kept cx d.0 d.2 (not (write_ready d.1)) buf _
              (λ e.
                ap data_out_busy (check_sequence-out link clock capacity d.1)
                ∙ not_busy (is_idle d.1.tx) (data_out_busy d.1.out) e)
              (failure_kept link clock capacity P k _ (check_sequence_kept d.1 w)))

    pub poll_write_kept :
        (cx : Waker) (buf : Bytes) (c : Reliable T C E)
        → P c
        → Ensures (λ r. P r.0) (poll_write link clock capacity cx buf c)
    unfolding poll_write
    poll_write_kept cx [] c v = v
    poll_write_kept cx (b ∷ buf) c v =
        bind-Ensures (λ r. P r.0) (λ r. P r.0) (queue_packet link clock capacity cx (b ∷ buf) c) _
          (queue_packet_kept cx (b ∷ buf) c v)
          (λ r w. finish_kept link clock capacity P k op_write cx r.0 r.1 w)
