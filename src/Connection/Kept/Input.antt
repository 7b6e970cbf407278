-- ===== src/Connection/Kept/Input.antt =====
-- `poll_input` keeps what is kept.
use cobs_io_async_rs.Codec.Decode.{Decoded, decode_to_slice}
use cobs_io_async_rs.Connection.Input.{
  on_decoded, process_frame, keep_partial, remove_frame, take_frame, process_loop, process_input,
  position_zero, received, poll_input, spend_allowance,
}
use cobs_io_async_rs.Connection.Kept.{IsInputKept}
use cobs_io_async_rs.Connection.State.{Reliable, Outcome}
use cobs_io_async_rs.Prelude.Exec.Ensures.{
  Ensures, bind-Ensures, slice_to-Ensures, slice_from-Ensures, Ensures-any,
}
use cobs_io_async_rs.Prelude.Exec.Holds.{if-Holds}
use cobs_io_async_rs.Prelude.Exec.{ret, ◌>>=◌, slice_to, slice_from, copy_at}
use cobs_io_async_rs.Prelude.{
  ℕ, zero, suc, ◌+◌, ◌-◌, ◌≡◌, min, ◌++◌, Option, none, some, Result, ok, err, length, take, drop,
  ltb, ◌==◌, ◌||◌, true,
}
use cobs_io_async_rs.Transport.{Waker, Poll, ready, pending, Transport}

module _ {T C E : Type 0} (link : Transport T E) (capacity : ℕ) (P : Reliable T C E → Type 0)
    (k : IsInputKept link capacity P) where
  abbrev Out : Outcome T C E → Type 0
  Out (c, r) = P c

  on_decoded_kept : (r : Decoded) (c : Reliable T C E) → P c → Ensures P (on_decoded capacity r c)
  unfolding on_decoded
  on_decoded_kept (err e) c v = v
  on_decoded_kept (ok f) c v =
      bind-Ensures (λ b. b ≡ take f.len c.scratch) P (slice_to c.scratch f.len) _
        (slice_to-Ensures c.scratch f.len) (λ bytes e. k.handled bytes c v)

  process_frame_kept :
      (end_idx : ℕ) (c : Reliable T C E) → P c → Ensures P (process_frame capacity end_idx c)
  unfolding process_frame
  process_frame_kept end_idx c v =
      bind-Ensures (λ b. b ≡ take (end_idx + 1) c.rx_buf) P (slice_to c.rx_buf (end_idx + 1)) _
        (slice_to-Ensures c.rx_buf (end_idx + 1))
        (λ encoded e.
          let d = decode_to_slice encoded c.scratch in
          on_decoded_kept d.1 (record c { scratch = d.0 })
            (k.buffers c c.final_input c.rx_buf c.rx_len c.rx_discarding d.0 v))

  take_frame_kept :
      (end_idx : ℕ) (c : Reliable T C E) → P c → Ensures P (take_frame capacity end_idx c)
  unfolding take_frame
  take_frame_kept end_idx c v =
      if-Holds (Ensures P) c.rx_discarding
        (λ e. k.buffers c c.final_input c.rx_buf c.rx_len _ c.scratch v)
        (λ e. if-Holds (Ensures P) (ltb 0 end_idx) (λ e. process_frame_kept end_idx c v) (λ e. v))

  remove_frame_kept :
      (end_idx : ℕ) (c : Reliable T C E) → P c → Ensures P (remove_frame capacity end_idx c)
  unfolding remove_frame
  remove_frame_kept end_idx c v =
      bind-Ensures (λ b. b ≡ take c.rx_len c.rx_buf) P (slice_to c.rx_buf c.rx_len) _
        (slice_to-Ensures c.rx_buf c.rx_len)
        (λ b e.
          bind-Ensures (λ r. r ≡ drop (end_idx + 1) b) P (slice_from b (end_idx + 1)) _
            (slice_from-Ensures b (end_idx + 1))
            (λ r e'.
              bind-Ensures (λ x. Unit {0}) P (copy_at c.rx_buf 0 r) _
                (Ensures-any (copy_at c.rx_buf 0 r))
                (λ x e''.
                  k.buffers c c.final_input x (c.rx_len - (end_idx + 1)) c.rx_discarding c.scratch
                    v)))

  keep_partial_kept : (c : Reliable T C E) → P c → P (keep_partial capacity c)
  unfolding keep_partial
  keep_partial_kept c v =
      if-Holds P (c.rx_discarding || c.rx_len == capacity)
        (λ e. k.buffers c c.final_input c.rx_buf 0 true c.scratch v) (λ e. v)

  process_round_kept :
      (fuel : ℕ) (c : Reliable T C E) (p : Option ℕ)
      → P c
      → ((c' : Reliable T C E) → P c' → Ensures P (process_loop capacity fuel c'))
      → Ensures P (elim p [
        | none ↦ ret (keep_partial capacity c)
        | some end_idx ↦ (do
          c ← take_frame capacity end_idx c
          c ← remove_frame capacity end_idx c
          process_loop capacity fuel c)
      ])
  process_round_kept fuel c none v next = keep_partial_kept c v
  process_round_kept fuel c (some end_idx) v next =
      bind-Ensures P P (take_frame capacity end_idx c) _ (take_frame_kept end_idx c v) (λ c1 v1.
        bind-Ensures P P (remove_frame capacity end_idx c1) _ (remove_frame_kept end_idx c1 v1)
          (λ c2 v2. next c2 v2))

  pub process_loop_kept :
      (fuel : ℕ) (c : Reliable T C E) → P c → Ensures P (process_loop capacity fuel c)
  unfolding process_loop
  process_loop_kept zero c v = tt
  process_loop_kept (suc fuel) c v =
      bind-Ensures (λ b. b ≡ take c.rx_len c.rx_buf) P (slice_to c.rx_buf c.rx_len) _
        (slice_to-Ensures c.rx_buf c.rx_len)
        (λ b e. process_round_kept fuel c (position_zero b) v (process_loop_kept fuel))

  received_kept :
      (n : ℕ) (c : Reliable T C E) (p : Poll (Result ℕ E))
      → P c
      → Ensures Out (received capacity link n c p)
  unfolding received process_input
  received_kept n c pending v = v
  received_kept n c (ready (err e)) v = v
  received_kept n c (ready (ok zero)) v = v
  received_kept n c (ready (ok (suc j))) v =
      let len = c.rx_len + min (suc j) n in
      let left = spend_allowance (min (suc j) n) c.final_input in
      bind-Ensures P Out
        (process_loop capacity (len + 1) (record c { rx_len = len; final_input = left })) _
        (process_loop_kept (len + 1) _ (k.buffers c left c.rx_buf len c.rx_discarding c.scratch v))
        (λ c' v'. v')

  pub poll_input_kept :
      (cx : Waker) (budget : ℕ) (c : Reliable T C E)
      → P c
      → Ensures (λ r. Out r.1) (poll_input capacity link cx budget c)
  unfolding poll_input
  poll_input_kept cx zero c v = v
  poll_input_kept cx (suc left) c v =
      bind-Ensures (λ b. b ≡ drop c.rx_len c.rx_buf) (λ r. Out r.1) (slice_from c.rx_buf c.rx_len) _
        (slice_from-Ensures c.rx_buf c.rx_len)
        (λ free e.
          let t = link.poll_read c.transport cx free in
          let buf = take c.rx_len c.rx_buf ++ t.1 in
          bind-Ensures Out (λ r. Out r.1)
            (received capacity link (length t.1) (record c { transport = t.0; rx_buf = buf }) t.2) _
            (received_kept (length t.1) _ t.2 (
              k.buffers (record c { transport = t.0 }) c.final_input buf c.rx_len c.rx_discarding
                c.scratch (k.reads_from c cx free v)))
            (λ o v'. v'))
