-- ===== src/Connection/Valid/Input.antt =====
-- `process_input` against the invariant.
use cobs_io_async_rs.Connection.Input.{
  keep_partial, remove_frame, take_frame, process_loop, process_input, position_zero,
}
use cobs_io_async_rs.Connection.State.{Reliable}
use cobs_io_async_rs.Connection.Valid.Frames.{Keeps, take_frame-Keeps}
use cobs_io_async_rs.Connection.Valid.{IsValid, IsFilled}
use cobs_io_async_rs.Prelude.Exec.Holds.{
  Holds, bind-Holds, if-Holds, slice_to-Holds, slice_from-Holds, copy_at-Holds,
}
use cobs_io_async_rs.Prelude.Exec.{ret, ◌>>=◌, slice_to, slice_from, copy_at}
use cobs_io_async_rs.Prelude.{
  ℕ, zero, suc, ◌+◌, ◌-◌, ◌≤◌, ◌<◌, ◌≡◌, ◌≢◌, refl, sym, [], ◌∷◌, Bytes, Option, none, some, length,
  take, drop, length-take, length-drop, ap, ◌==◌, ◌||◌, ◌∙◌, Bool, true, false, if◌then◌else◌,
  arith,
}
use cobs_io_async_rs.Protocol.Payload.Largest.{max_payload-le}

or-ne : (a : Bool) (m n : ℕ) → (a || m == n) ≡ false → m ≢ n
or-ne true m n h = ground arith
or-ne false m n h = ground arith

position_zero-some : (bs : Bytes) (i : ℕ) → position_zero bs ≡ some i → i < length bs
unfolding position_zero
position_zero-some [] i e = ground arith
position_zero-some (b ∷ bs) i e =
    position_zero-cons (b == 0) (position_zero bs) (position_zero-some bs) e
  where
    position_zero-cons :
        (z : Bool) (p : Option ℕ)
        → ((j : ℕ) → p ≡ some j → j < length bs)
        → (if z then some 0 else elim p [ none ↦ none | some j ↦ some (j + 1) ]) ≡ some i
        → i < suc (length bs)
    position_zero-cons true p ih e = ground arith
    position_zero-cons false none ih e = absurd (cc e)
    position_zero-cons false (some j) ih e = ground (arith, ih j refl)

module _ {T C E : Type 0} (capacity : ℕ) where
  -- A frame is removed, with its delimiter.
  abbrev Removed : ℕ → Reliable T C E → Reliable T C E → Type 0
  Removed end_idx c c' = IsFilled capacity c' × (c'.rx_len ≡ c.rx_len - (end_idx + 1))

  remove_frame-Removed :
      (end_idx : ℕ) (c : Reliable T C E)
      → IsFilled capacity c
      → end_idx < c.rx_len
      → Holds (Removed end_idx c) (remove_frame capacity end_idx c)
  unfolding remove_frame
  remove_frame-Removed end_idx c v h =
      bind-Holds (λ b. b ≡ take c.rx_len c.rx_buf) (Removed end_idx c) (slice_to c.rx_buf c.rx_len)
        _ (slice_to-Holds c.rx_buf c.rx_len filled)
        (λ b e.
          bind-Holds (λ r. r ≡ drop (end_idx + 1) b) (Removed end_idx c)
            (slice_from b (end_idx + 1)) _
            (slice_from-Holds b (end_idx + 1)
              (omega (arith, ap length e, length-take c.rx_len c.rx_buf)))
            (λ r e'.
              bind-Holds (λ x. length x ≡ length c.rx_buf) (Removed end_idx c)
                (copy_at c.rx_buf 0 r) _
                (copy_at-Holds c.rx_buf 0 r (
                  omega (
                    arith,
                    ap length e,
                    ap length e',
                    length-take c.rx_len c.rx_buf,
                    length-drop (end_idx + 1) b,
                  )))
                (λ x e''. (
                  (
                    v.0,
                    record {
                      payload_fits = v.1.payload_fits;
                      rx_buf_length = e'' ∙ v.1.rx_buf_length;
                      rx_len_le = omega (arith, v.1.rx_len_le);
                      rx_payload_length = v.1.rx_payload_length;
                      rx_start_le = v.1.rx_start_le;
                      rx_end_le = v.1.rx_end_le;
                    },
                    v.2,
                  ),
                  refl,
                ))))
    where
      filled : c.rx_len ≤ length c.rx_buf
      filled = omega (arith, v.1.rx_len_le, v.1.rx_buf_length)

  -- The input buffer has room, and no delimiter is left in it.
  abbrev pub Processed : Reliable T C E → Type 0
  Processed c = IsValid capacity c × (position_zero (take c.rx_len c.rx_buf) ≡ none)

  keep_partial-Processed :
      (c : Reliable T C E)
      → IsFilled capacity c
      → position_zero (take c.rx_len c.rx_buf) ≡ none
      → Processed (keep_partial capacity c)
  unfolding keep_partial
  keep_partial-Processed c v e =
      if-Holds Processed (c.rx_discarding || c.rx_len == capacity)
        (λ full. (
          (
            (
              v.0,
              record {
                payload_fits = v.1.payload_fits;
                rx_buf_length = v.1.rx_buf_length;
                rx_len_le = omega arith;
                rx_payload_length = v.1.rx_payload_length;
                rx_start_le = v.1.rx_start_le;
                rx_end_le = v.1.rx_end_le;
              },
              v.2,
            ),
            omega (arith, max_payload-le capacity, v.1.payload_fits),
          ),
          unfold position_zero in refl,
        ))
        (λ free.
          ((v, omega (arith, v.1.rx_len_le, or-ne c.rx_discarding c.rx_len capacity free)), e))

  -- One round, by what the search for a delimiter finds; `next` is about the rounds that follow.
  process_round-Processed :
      (fuel : ℕ) (c : Reliable T C E) (b : Bytes) (p : Option ℕ)
      → c.rx_len < suc fuel
      → IsFilled capacity c
      → ((c' : Reliable T C E)
          → c'.rx_len < fuel
          → IsFilled capacity c'
          → Holds Processed (process_loop capacity fuel c'))
      → b ≡ take c.rx_len c.rx_buf
      → position_zero b ≡ p
      → Holds Processed (elim p [
        | none ↦ ret (keep_partial capacity c)
        | some end_idx ↦ (do
          c ← take_frame capacity end_idx c
          c ← remove_frame capacity end_idx c
          process_loop capacity fuel c)
      ])
  process_round-Processed fuel c b none enough v next e found =
      keep_partial-Processed c v (ap position_zero (sym e) ∙ found)
  process_round-Processed fuel c b (some end_idx) enough v next e found =
      let within : end_idx < c.rx_len =
        omega
          (arith, position_zero-some b end_idx found, ap length e, length-take c.rx_len c.rx_buf) in
      bind-Holds (Keeps capacity c) Processed (take_frame capacity end_idx c) _
        (take_frame-Keeps capacity end_idx c v within)
        (λ c1 k1.
          bind-Holds (Removed end_idx c1) Processed (remove_frame capacity end_idx c1) _
            (remove_frame-Removed end_idx c1 k1.0 (omega (arith, k1.1)))
            (λ c2 k2. next c2 (omega (arith, k1.1, k2.1)) k2.0))

  process_loop-Processed :
      (fuel : ℕ) (c : Reliable T C E)
      → c.rx_len < fuel
      → IsFilled capacity c
      → Holds Processed (process_loop capacity fuel c)
  unfolding process_loop
  process_loop-Processed zero c enough v = absurd (omega arith)
  process_loop-Processed (suc fuel) c enough v =
      bind-Holds (λ b. b ≡ take c.rx_len c.rx_buf) Processed (slice_to c.rx_buf c.rx_len) _
        (slice_to-Holds c.rx_buf c.rx_len (omega (arith, v.1.rx_len_le, v.1.rx_buf_length)))
        (λ b e.
          process_round-Processed fuel c b (position_zero b) enough v (process_loop-Processed fuel)
            e refl)

  -- On a connection that is filled, `IsFilled` (its buffers have the lengths that go with the
  -- capacity, a payload fits it, and the lengths and positions that it keeps lie within its buffers),
  -- `process_input` neither panics nor runs out of fuel, leaves a valid connection, which has room in
  -- its input buffer, and no delimiter in that buffer.
  pub process_input-Processed :
      (c : Reliable T C E) → IsFilled capacity c → Holds Processed (process_input capacity c)
  unfolding process_input
  process_input-Processed c v = process_loop-Processed (c.rx_len + 1) c (omega arith) v
