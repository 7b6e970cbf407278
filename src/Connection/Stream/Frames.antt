-- ===== src/Connection/Stream/Frames.antt =====
-- `process_input` against the frames of the stream of bytes that the link has given.
use cobs_io_async_rs.Connection.Input.{
  keep_partial, remove_frame, take_frame, process_loop, position_zero,
}
use cobs_io_async_rs.Connection.State.{Reliable}
use cobs_io_async_rs.Connection.Stream.Zeros.{Split, position_zero-Split}
use cobs_io_async_rs.Connection.Stream.{Logged}
use cobs_io_async_rs.Prelude.Exec.Ensures.{Ensures, bind-Ensures, slice_to-Ensures}
use cobs_io_async_rs.Prelude.Exec.{ret, ◌>>=◌, slice_to}
use cobs_io_async_rs.Prelude.{ℕ, zero, suc, ◌≡◌, subst, Option, none, some, take}
use cobs_io_async_rs.Connection.Stream.Fed.{Held, Shown, keep_partial-Shown, remove_frame-Held}
use cobs_io_async_rs.Connection.Stream.Taken.{Taken, take_frame-Taken}

module _ {T C E : Type 0} (capacity : ℕ) where
  process_round-Shown :
      (fuel : ℕ) (c : Reliable (Logged T) C E) (p : Option ℕ)
      → Held capacity c
      → Split (take c.rx_len c.rx_buf) p
      → ((c' : Reliable (Logged T) C E)
          → Held capacity c'
          → Ensures (Shown capacity) (process_loop capacity fuel c'))
      → Ensures (Shown capacity) (elim p [
        | none ↦ ret (keep_partial capacity c)
        | some end_idx ↦ (do
          c ← take_frame capacity end_idx c
          c ← remove_frame capacity end_idx c
          process_loop capacity fuel c)
      ])
  process_round-Shown fuel c none f z next = keep_partial-Shown capacity c f z
  process_round-Shown fuel c (some i) f (pre, post, e, h, z) next =
      bind-Ensures (Taken capacity i) (Shown capacity) (take_frame capacity i c) _
        (take_frame-Taken capacity i pre post c f e h z)
        (λ c1 f1.
          bind-Ensures (Held capacity) (Shown capacity) (remove_frame capacity i c1) _
            (remove_frame-Held capacity i c1 f1) (λ c2 f2. next c2 f2))

  pub process_loop-Shown :
      (fuel : ℕ) (c : Reliable (Logged T) C E)
      → Held capacity c
      → Ensures (Shown capacity) (process_loop capacity fuel c)
  unfolding process_loop
  process_loop-Shown zero c f = tt
  process_loop-Shown (suc fuel) c f =
      bind-Ensures (λ b. b ≡ take c.rx_len c.rx_buf) (Shown capacity) (slice_to c.rx_buf c.rx_len) _
        (slice_to-Ensures c.rx_buf c.rx_len)
        (λ b e.
          process_round-Shown fuel c (position_zero b) f
            (subst (λ h. Split h (position_zero b)) e (position_zero-Split b))
            (process_loop-Shown fuel))
