-- ===== src/Connection/Valid/Reading.antt =====
-- `poll_read` against the invariant.
use cobs_io_async_rs.Connection.Api.{read_payload, poll_read}
use cobs_io_async_rs.Connection.Drive.{drive}
use cobs_io_async_rs.Connection.State.{step_budget, op_read, Reliable}
use cobs_io_async_rs.Connection.Valid.Api.{finish-IsValid, failure-IsValid}
use cobs_io_async_rs.Connection.Valid.Driver.{Driven, drive-Driven}
use cobs_io_async_rs.Connection.Valid.{IsValid}
use cobs_io_async_rs.Error.{ConnectionError}
use cobs_io_async_rs.Prelude.Exec.Holds.{
  Holds, bind-Holds, if-Holds, slice_to-Holds, slice_from-Holds, copy_at-Holds,
}
use cobs_io_async_rs.Prelude.Exec.{slice_to, slice_from, copy_at}
use cobs_io_async_rs.Prelude.{
  ℕ, ◌+◌, ◌-◌, ◌≤◌, ◌≡◌, ap, min, [], ◌∷◌, Bytes, ltb, Result, length, length-take, length-drop,
  refl, take, drop, arith,
}
use cobs_io_async_rs.Transport.{Waker, Poll, Transport, Timer, KeepsLength}

module _ {T C E : Type 0} (link : Transport T E) (clock : Timer C) (capacity : ℕ) where
  -- What a read returns: the buffer, of the length it had, and a valid connection.
  abbrev pub Read : Bytes → Bytes × Reliable T C E × Poll (Result ℕ (ConnectionError E)) → Type 0
  Read buf (buf', c, poll) = (length buf' ≡ length buf) × IsValid capacity c

  read_payload-Read :
      (buf : Bytes) (c : Reliable T C E)
      → IsValid capacity c
      → Holds (Read buf) (read_payload link clock capacity buf c)
  unfolding read_payload
  read_payload-Read buf c ((s, r, l), room) =
      if-Holds (Holds (Read buf)) (ltb c.rx_start c.rx_end)
        (λ some_left.
          let within : c.rx_start + n ≤ c.rx_end = ground arith in
          bind-Holds (λ h. h ≡ take (c.rx_start + n) c.rx_payload) (Read buf)
            (slice_to c.rx_payload (c.rx_start + n)) _
            (slice_to-Holds c.rx_payload (c.rx_start + n)
              (omega (arith, r.rx_payload_length, r.rx_end_le)))
            (λ h e.
              let size : length h ≡ c.rx_start + n = omega (
                arith,
                ap length e,
                length-take (c.rx_start + n) c.rx_payload,
                r.rx_payload_length,
                r.rx_end_le,
              ) in
              bind-Holds (λ b. b ≡ drop c.rx_start h) (Read buf) (slice_from h c.rx_start) _
                (slice_from-Holds h c.rx_start (omega arith))
                (λ b e'.
                  bind-Holds (λ x. length x ≡ length buf) (Read buf) (copy_at buf 0 b) _
                    (copy_at-Holds buf 0 b (omega (arith, ap length e', length-drop c.rx_start h)))
                    (λ x e''. (
                      e'',
                      (
                        (
                          s,
                          record {
                            payload_fits = r.payload_fits;
                            rx_buf_length = r.rx_buf_length;
                            rx_len_le = r.rx_len_le;
                            rx_payload_length = r.rx_payload_length;
                            rx_start_le = within;
                            rx_end_le = r.rx_end_le;
                          },
                          l,
                        ),
                        room,
                      ),
                    )))))
        (λ e. (refl, failure-IsValid capacity c ((s, r, l), room)))
    where
      n : ℕ
      n = min (length buf) (c.rx_end - c.rx_start)

  -- Over a link that keeps the length of the buffers that it is given, `poll_read` of a valid
  -- connection does not panic, keeps the length of its own buffer, and leaves the connection valid.
  pub poll_read-Read :
      KeepsLength link
      → (cx : Waker) (buf : Bytes) (c : Reliable T C E) → IsValid capacity c
      → Holds (Read buf) (poll_read link clock capacity cx buf c)
  unfolding poll_read
  poll_read-Read keeps cx [] c v = (refl, v)
  poll_read-Read keeps cx (b ∷ buf) c v =
      bind-Holds (Driven link clock capacity step_budget) (Read (b ∷ buf))
        (drive link clock capacity cx step_budget c) _
        (drive-Driven link clock capacity keeps cx step_budget c v)
        (λ d k.
          bind-Holds (Read (b ∷ buf)) (Read (b ∷ buf))
            (read_payload link clock capacity (b ∷ buf) d.1) _ (read_payload-Read (b ∷ buf) d.1 k.0)
            (λ r h. (h.0, finish-IsValid capacity op_read cx r.1 r.2 h.1)))
