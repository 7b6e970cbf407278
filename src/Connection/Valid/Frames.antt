-- ===== src/Connection/Valid/Frames.antt =====
-- `process_frame` and the branches of its match, against the invariant.
use cobs_io_async_rs.Codec.Decode.Bounds.{Reported, Reported-length, decode_to_slice-Reported}
use cobs_io_async_rs.Codec.Decode.{Decoded, decode_to_slice}
use cobs_io_async_rs.Connection.Input.{
  on_ack, on_data, on_packet, on_decoded, process_frame, take_frame,
}
use cobs_io_async_rs.Connection.State.{Reliable, is_idle, is_none}
use cobs_io_async_rs.Connection.Valid.{IsFilled}
use cobs_io_async_rs.Prelude.Exec.Holds.{Holds, bind-Holds, if-Holds, slice_to-Holds, copy_at-Holds}
use cobs_io_async_rs.Prelude.Exec.{slice_to, copy_at}
use cobs_io_async_rs.Prelude.{
  ℕ, ◌+◌, ◌-◌, ◌≤◌, ◌<◌, ◌≡◌, refl, ◌++◌, [], ◌∷◌, Bytes, Option, none, some, ok, err, length, take,
  ltb, ◌==◌, not, ◌&&◌, ◌||◌, ◌∙◌, Bool, true, false, arith,
}
use cobs_io_async_rs.Protocol.Packet.{Packet, data_packet, ack_packet, parse}
use cobs_io_async_rs.Protocol.Payload.Largest.{max_payload-le}
use cobs_io_async_rs.Protocol.Payload.{max_payload}

or-false : (a : Bool) (m n : ℕ) → (a || ltb m n) ≡ false → n ≤ m
or-false true m n h = ground arith
or-false false m n h = ground arith

module _ {T C E : Type 0} (capacity : ℕ) where
  -- What processing a packet keeps.
  abbrev pub Keeps : Reliable T C E → Reliable T C E → Type 0
  Keeps c c' = IsFilled capacity c' × (c'.rx_len ≡ c.rx_len)

  on_ack-Keeps :
      (session seq : ℕ) (c : Reliable T C E)
      → IsFilled capacity c
      → Keeps c (on_ack capacity session seq c)
  unfolding on_ack
  on_ack-Keeps session seq c v =
      if-Holds (Keeps c)
        (session == c.config.session && (not (is_idle c.tx) && seq + 1 == c.tx_next))
        (λ e. (
          (
            record {
              tx_frame_length = v.0.tx_frame_length;
              tx_len_le = v.0.tx_len_le;
              ack_frame_length = v.0.ack_frame_length;
              ack_len_le = v.0.ack_len_le;
              in_frame = v.0.in_frame;
              has_frame = tt;
            },
            v.1,
            v.2,
          ),
          refl,
        ))
        (λ e. (v, refl))

  on_data-Keeps :
      (session seq : ℕ) (payload : Bytes) (c : Reliable T C E)
      → IsFilled capacity c
      → Holds (Keeps c) (on_data capacity session seq payload c)
  unfolding on_data
  on_data-Keeps session seq payload c v =
      if-Holds (Holds (Keeps c))
        (not (session == c.config.session) || ltb (max_payload capacity) (length payload))
        (λ e. (v, refl))
        (λ fits.
          if-Holds (Holds (Keeps c)) (seq == c.rx_next)
            (λ e.
              if-Holds (Holds (Keeps c)) (c.rx_start == c.rx_end)
                (λ e.
                  bind-Holds (λ b. length b ≡ length c.rx_payload) (Keeps c)
                    (copy_at c.rx_payload 0 payload) _
                    (copy_at-Holds c.rx_payload 0 payload (omega (arith, short fits)))
                    (λ b h. (
                      (
                        v.0,
                        record {
                          payload_fits = v.1.payload_fits;
                          rx_buf_length = v.1.rx_buf_length;
                          rx_len_le = v.1.rx_len_le;
                          rx_payload_length = h ∙ v.1.rx_payload_length;
                          rx_start_le = omega arith;
                          rx_end_le = omega (arith, short fits, v.1.rx_payload_length);
                        },
                        v.2,
                      ),
                      refl,
                    )))
                (λ e. (v, refl)))
            (λ e.
              if-Holds (Holds (Keeps c))
                (ltb 0 c.rx_next && (seq == c.rx_next - 1 && is_none c.ack_pending))
                (λ e. (v, refl)) (λ e. (v, refl))))
    where
      short :
          (not (session == c.config.session) || ltb (max_payload capacity) (length payload)) ≡ false
          → length payload ≤ length c.rx_payload
      short fits = omega (
        arith,
        or-false (not (session == c.config.session)) (max_payload capacity) (length payload) fits,
        max_payload-le capacity,
        v.1.rx_payload_length,
      )

  on_packet-Keeps :
      (p : Option Packet) (c : Reliable T C E)
      → IsFilled capacity c
      → Holds (Keeps c) (on_packet capacity p c)
  unfolding on_packet
  on_packet-Keeps none c v = (v, refl)
  on_packet-Keeps (some (ack_packet session seq)) c v = on_ack-Keeps session seq c v
  on_packet-Keeps (some (data_packet session seq payload)) c v =
      on_data-Keeps session seq payload c v

  on_decoded-Keeps :
      (n : ℕ) (dest : Bytes) (r : Decoded) (c : Reliable T C E)
      → Reported n dest c.scratch r
      → length c.scratch ≡ length dest
      → IsFilled capacity c
      → Holds (Keeps c) (on_decoded capacity r c)
  unfolding on_decoded
  on_decoded-Keeps n dest (err e) c h same v = (v, refl)
  on_decoded-Keeps n dest (ok f) c h same v =
      bind-Holds (λ b. b ≡ take f.len c.scratch) (Keeps c) (slice_to c.scratch f.len) _
        (slice_to-Holds c.scratch f.len (omega (arith, h.0.fits)))
        (λ bytes e. on_packet-Keeps (parse bytes) (record c { seen = c.seen ++ bytes ∷ [] }) v)

  process_frame-Keeps :
      (end_idx : ℕ) (c : Reliable T C E)
      → IsFilled capacity c
      → end_idx < c.rx_len
      → Holds (Keeps c) (process_frame capacity end_idx c)
  unfolding process_frame
  process_frame-Keeps end_idx c v h =
      bind-Holds (λ b. b ≡ take (end_idx + 1) c.rx_buf) (Keeps c) (slice_to c.rx_buf (end_idx + 1))
        _ (slice_to-Holds c.rx_buf (end_idx + 1) (omega (arith, v.1.rx_len_le, v.1.rx_buf_length)))
        (λ encoded e.
          let d = decode_to_slice encoded c.scratch in
          let reported = decode_to_slice-Reported encoded c.scratch in
          let same : length d.0 ≡ length c.scratch =
            Reported-length (length encoded) c.scratch d.0 d.1 reported in
          on_decoded-Keeps (length encoded) c.scratch d.1 (record c { scratch = d.0 }) reported same
            (v.0, v.1, same ∙ v.2))

  pub take_frame-Keeps :
      (end_idx : ℕ) (c : Reliable T C E)
      → IsFilled capacity c
      → end_idx < c.rx_len
      → Holds (Keeps c) (take_frame capacity end_idx c)
  unfolding take_frame
  take_frame-Keeps end_idx c v h =
      if-Holds (Holds (Keeps c)) c.rx_discarding (λ e. (v, refl))
        (λ e.
          if-Holds (Holds (Keeps c)) (ltb 0 end_idx) (λ e. process_frame-Keeps end_idx c v h)
            (λ e. (v, refl)))
