-- ===== src/Connection/Valid/Writing.antt =====
-- `poll_write` against the invariant.
use cobs_io_async_rs.Connection.Api.{
  data_out_busy, write_ready, check_sequence, accept, try_accept, queue_packet, poll_write, finish,
}
use cobs_io_async_rs.Connection.Drive.{fail, failure, report, drive}
use cobs_io_async_rs.Connection.State.{
  Work, blocked, progress, yield, step_budget, op_write, Reliable, is_idle, Health, health_ok,
  health_failed, reported,
}
use cobs_io_async_rs.Connection.Valid.Api.{finish-IsValid, failure-IsValid}
use cobs_io_async_rs.Connection.Valid.Driver.{Driven, drive-Driven}
use cobs_io_async_rs.Connection.Valid.Packets.{free-InFrame, Encoded, encode_data-Encoded}
use cobs_io_async_rs.Connection.Valid.{IsValid}
use cobs_io_async_rs.Error.{ConnectionError}
use cobs_io_async_rs.Prelude.Exec.Holds.{Holds, bind-Holds, if-Holds, slice_to-Holds}
use cobs_io_async_rs.Prelude.Exec.{ret, ◌>>=◌, slice_to}
use cobs_io_async_rs.Prelude.{
  ℕ, ◌-◌, ◌%◌, ◌^◌, ◌<◌, ◌≡◌, refl, ap, ◌∙◌, min, [], ◌∷◌, Bytes, Bool, true, false, not, ◌&&◌, ltb,
  Option, none, some, Result, ok, err, length, length-take, take, arith,
}
use cobs_io_async_rs.Protocol.Packet.{encode_data}
use cobs_io_async_rs.Protocol.Payload.{max_payload}
use cobs_io_async_rs.Transport.{Waker, Poll, ready, pending, Transport, Timer, KeepsLength}

report-out : {T C E : Type 0} (h : Health E) (c : Reliable T C E) → (report h c).0.out ≡ c.out
unfolding report
report-out health_ok c = refl
report-out (health_failed e) c = refl
report-out reported c = refl

pub not_busy : (ready busy : Bool) → not (ready && not busy) ≡ false → busy ≡ false
not_busy true true h = cc h
not_busy true false h = refl
not_busy false busy h = absurd (cc h)

module _ {T C E : Type 0} (link : Transport T E) (clock : Timer C) (capacity : ℕ) where
  -- How much of a buffer a packet takes.
  abbrev taken : Bytes → ℕ
  taken buf = min (length buf) (max_payload capacity)

  abbrev Accepted : Bytes → Reliable T C E × ℕ → Type 0
  Accepted buf (c, len) = IsValid capacity c × (len ≡ taken buf)

  -- The packet is queued, and the driver runs once more unless it has yielded.
  queued-Accepted :
      KeepsLength link
      → (cx : Waker) (budget : ℕ) (work : Work) (buf : Bytes) (c : Reliable T C E)
      → IsValid capacity c
      → Holds (Accepted buf) (elim work [
        | yield ↦ ret (c, taken buf)
        | _ ↦ (do (budget, c, work) ← drive link clock capacity cx budget c; ret (c, taken buf))
      ])
  queued-Accepted keeps cx budget yield buf c v = (v, refl)
  queued-Accepted keeps cx budget blocked buf c v =
      bind-Holds (Driven link clock capacity budget) (Accepted buf)
        (drive link clock capacity cx budget c) _
        (drive-Driven link clock capacity keeps cx budget c v) (λ d k. (k.0, refl))
  queued-Accepted keeps cx budget progress buf c v =
      bind-Holds (Driven link clock capacity budget) (Accepted buf)
        (drive link clock capacity cx budget c) _
        (drive-Driven link clock capacity keeps cx budget c v) (λ d k. (k.0, refl))

  accept-Accepted :
      KeepsLength link
      → capacity < 2 ^ 62
      → (cx : Waker) (budget : ℕ) (work : Work) (buf : Bytes) (c : Reliable T C E) → 0 < length buf
      → data_out_busy c.out ≡ false
      → IsValid capacity c
      → Holds (Accepted buf) (accept link clock capacity cx budget work buf c)
  unfolding accept
  accept-Accepted keeps small cx budget work buf c pos free ((s, r, l), room) =
      bind-Holds (λ p. p ≡ take (taken buf) buf) (Accepted buf) (slice_to buf (taken buf)) _
        (slice_to-Holds buf (taken buf) (omega arith))
        (λ p e.
          bind-Holds (Encoded capacity) (Accepted buf)
            (encode_data c.config.session (c.tx_next % 2 ^ 32) p c.scratch c.tx_frame) _
            (encode_data-Encoded capacity c.config.session (c.tx_next % 2 ^ 32) p c.scratch
              c.tx_frame small l s.tx_frame_length
              (omega (arith, ap length e, length-take (taken buf) buf, r.payload_fits))
              (omega (arith, ap length e, length-take (taken buf) buf)))
            (λ w h. queued-Accepted keeps cx budget work buf _ (
              (
                record {
                  tx_frame_length = h.1;
                  tx_len_le = h.2;
                  ack_frame_length = s.ack_frame_length;
                  ack_len_le = s.ack_len_le;
                  in_frame = free-InFrame c.out c.ack_len c.tx_len w.2 free s.in_frame;
                  has_frame = h.3;
                },
                r,
                h.0,
              ),
              room,
            )))

  -- What a write returns: a valid connection and, on success, how much of the buffer is in the packet.
  abbrev pub Written : Bytes → Reliable T C E × Poll (Result ℕ (ConnectionError E)) → Type 0
  Written buf (c, pending) = IsValid capacity c
  Written buf (c, ready (err e)) = IsValid capacity c
  Written buf (c, ready (ok n)) = IsValid capacity c × (n ≡ taken buf)

  try_accept-Written :
      KeepsLength link
      → capacity < 2 ^ 62
      → (cx : Waker) (budget : ℕ) (work : Work) (busy : Bool) (buf : Bytes)
        (f : Reliable T C E × Option (ConnectionError E))
      → 0 < length buf
      → (busy ≡ false → data_out_busy f.0.out ≡ false)
      → IsValid capacity f.0
      → Holds (Written buf) (try_accept link clock capacity cx budget work busy buf f)
  unfolding try_accept
  try_accept-Written keeps small cx budget work busy buf (c, some error) pos free v = v
  try_accept-Written keeps small cx budget work true buf (c, none) pos free v = v
  try_accept-Written keeps small cx budget work false buf (c, none) pos free v =
      bind-Holds (Accepted buf) (Written buf) (accept link clock capacity cx budget work buf c) _
        (accept-Accepted keeps small cx budget work buf c pos (free refl) v) (λ a k. k)

  pub check_sequence-IsValid :
      (c : Reliable T C E)
      → IsValid capacity c
      → IsValid capacity (check_sequence link clock capacity c)
  unfolding check_sequence fail
  check_sequence-IsValid c v =
      if-Holds (IsValid capacity) (write_ready c && ltb (2 ^ 32 - 1) c.tx_next) (λ e. v) (λ e. v)

  pub check_sequence-out :
      (c : Reliable T C E) → (failure (check_sequence link clock capacity c)).0.out ≡ c.out
  unfolding check_sequence fail failure report
  check_sequence-out c =
      reported-out (check_sequence link clock capacity c)
      ∙ if-Holds (λ (c' : Reliable T C E). c'.out ≡ c.out)
          (write_ready c && ltb (2 ^ 32 - 1) c.tx_next) (λ e. refl) (λ e. refl)
    where
      reported-out : (c' : Reliable T C E) → (failure c').0.out ≡ c'.out
      reported-out c' = report-out c'.health c'

  queue_packet-Written :
      KeepsLength link
      → capacity < 2 ^ 62
      → (cx : Waker) (buf : Bytes) (c : Reliable T C E) → 0 < length buf
      → IsValid capacity c
      → Holds (Written buf) (queue_packet link clock capacity cx buf c)
  unfolding queue_packet
  queue_packet-Written keeps small cx buf c pos v =
      bind-Holds (Driven link clock capacity step_budget) (Written buf)
        (drive link clock capacity cx step_budget c) _
        (drive-Driven link clock capacity keeps cx step_budget c v)
        (λ d k.
          try_accept-Written keeps small cx d.0 d.2 (not (write_ready d.1)) buf _ pos
            (λ e.
              ap data_out_busy (check_sequence-out d.1)
              ∙ not_busy (is_idle d.1.tx) (data_out_busy d.1.out) e)
            (failure-IsValid capacity _ (check_sequence-IsValid d.1 k.0)))

  finish-Written :
      (cx : Waker) (buf : Bytes) (c : Reliable T C E) (p : Poll (Result ℕ (ConnectionError E)))
      → Written buf (c, p)
      → Written buf (finish op_write cx c p)
  unfolding finish
  finish-Written cx buf c pending h =
      let p : Poll (Result ℕ (ConnectionError E)) = pending in
      finish-IsValid capacity op_write cx c p h
  finish-Written cx buf c (ready (err e)) h =
      let p : Poll (Result ℕ (ConnectionError E)) = ready (err e) in
      finish-IsValid capacity op_write cx c p h
  finish-Written cx buf c (ready (ok n)) h =
      let p : Poll (Result ℕ (ConnectionError E)) = ready (ok n) in
      (finish-IsValid capacity op_write cx c p h.0, h.1)

  -- Over a link that keeps the length of the buffers that it is given and with a capacity below 2 ^ 62,
  -- `poll_write` of a valid connection does not panic and leaves it valid. On success it has taken as
  -- much of the buffer as fits into one packet.
  pub poll_write-Written :
      KeepsLength link
      → capacity < 2 ^ 62
      → (cx : Waker) (buf : Bytes) (c : Reliable T C E) → IsValid capacity c
      → Holds (Written buf) (poll_write link clock capacity cx buf c)
  unfolding poll_write
  poll_write-Written keeps small cx [] c v = (v, omega arith)
  poll_write-Written keeps small cx (b ∷ buf) c v =
      bind-Holds (Written (b ∷ buf)) (Written (b ∷ buf))
        (queue_packet link clock capacity cx (b ∷ buf) c) _
        (queue_packet-Written keeps small cx (b ∷ buf) c (omega arith) v)
        (λ r h. finish-Written cx (b ∷ buf) r.0 r.1 h)
