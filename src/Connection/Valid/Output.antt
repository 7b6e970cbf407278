-- ===== src/Connection/Valid/Output.antt =====
-- The start of `poll_output`, against the invariant: what is to be written.
use cobs_io_async_rs.Connection.Output.{begin_output, pending_output}
use cobs_io_async_rs.Connection.State.{
  Tx, idle, queued, sending, waiting, Frame, ack, data_frame, Out, out_idle, writing, flushing,
  Reliable, is_queued,
}
use cobs_io_async_rs.Connection.Valid.{IsValid, InFrame, HasFrame}
use cobs_io_async_rs.Prelude.Exec.Holds.{
  Holds, bind-Holds, if-Holds, slice_to-Holds, slice_from-Holds,
}
use cobs_io_async_rs.Prelude.Exec.{ret, ◌>>=◌, slice_to, slice_from}
use cobs_io_async_rs.Prelude.{
  ℕ, ◌-◌, ◌≤◌, ◌<◌, ◌≡◌, refl, sym, subst, ap, Bytes, true, Option, none, some, length, length-take,
  length-drop, take, drop, arith,
}
use cobs_io_async_rs.Protocol.Packet.Encoded.{length-framed, encode_ack_lem}
use cobs_io_async_rs.Protocol.Packet.Wire.{packet_bytes}
use cobs_io_async_rs.Protocol.Packet.{ack_packet, ack_frame_len, encode_ack}
use cobs_io_async_rs.Transport.{Transport, Timer}

queued-HasFrame : (tx : Tx) (tx_len : ℕ) → is_queued tx ≡ true → HasFrame tx tx_len → 0 < tx_len
queued-HasFrame queued tx_len e h = h
queued-HasFrame idle tx_len e h = absurd (cc e)
queued-HasFrame sending tx_len e h = absurd (cc e)
queued-HasFrame waiting tx_len e h = absurd (cc e)

-- The length of a frame.
abbrev pub frame_len : Frame → ℕ → ℕ → ℕ
frame_len ack ack_len tx_len = ack_len
frame_len data_frame ack_len tx_len = tx_len

module _ {T C E : Type 0} (link : Transport T E) (clock : Timer C) (capacity : ℕ) where
  -- Where there is a connection, it is valid.
  abbrev pub Begun : Option (Reliable T C E) → Type 0
  Begun none = Unit
  Begun (some c) = IsValid capacity c

  abbrev Wrote : Bytes × ℕ → Type 0
  Wrote (frame, n) = (length frame ≡ ack_frame_len) × (n ≤ ack_frame_len) × (0 < n)

  encode_ack-Wrote :
      (session seq : ℕ) (frame : Bytes)
      → length frame ≡ ack_frame_len
      → Holds Wrote (encode_ack session seq frame)
  encode_ack-Wrote session seq frame e =
      let packet : Bytes = packet_bytes (ack_packet session seq) in
      let (same, fits) = encode_ack_lem session seq frame e in
      subst (Holds Wrote) (sym same)
        (omega (arith, length-framed packet frame fits), omega arith, omega arith)

  pub begin_output-Begun :
      (out : Out) (ack_pending : Option ℕ) (c : Reliable T C E)
      → c.out ≡ out
      → IsValid capacity c
      → Holds Begun (begin_output link clock out ack_pending c)
  unfolding begin_output
  begin_output-Begun out_idle (some seq) c e ((s, r, l), room) =
      bind-Holds Wrote Begun (encode_ack c.config.session seq c.ack_frame) _
        (encode_ack-Wrote c.config.session seq c.ack_frame s.ack_frame_length)
        (λ w h. (
          (
            record {
              tx_frame_length = s.tx_frame_length;
              tx_len_le = s.tx_len_le;
              ack_frame_length = h.0;
              ack_len_le = h.1;
              in_frame = h.2;
              has_frame = s.has_frame;
            },
            r,
            l,
          ),
          room,
        ))
  begin_output-Begun out_idle none c e ((s, r, l), room) =
      if-Holds (Holds Begun) (is_queued c.tx)
        (λ q.
          let pos = queued-HasFrame c.tx c.tx_len q s.has_frame in
          (
            (
              record {
                tx_frame_length = s.tx_frame_length;
                tx_len_le = s.tx_len_le;
                ack_frame_length = s.ack_frame_length;
                ack_len_le = s.ack_len_le;
                in_frame = pos;
                has_frame = pos;
              },
              r,
              l,
            ),
            room,
          ))
        (λ q. tt)
  begin_output-Begun (writing frame offset) pending_seq c e v = v
  begin_output-Begun (flushing frame) pending_seq c e v = v

  abbrev pub Pending : Frame → ℕ → Reliable T C E → Bytes × ℕ → Type 0
  Pending frame offset c (bytes, len) =
      (len ≡ frame_len frame c.ack_len c.tx_len) × (length bytes ≡ len - offset)

  -- `&frame[offset..len]`
  slice-Pending :
      (frame : Frame) (xs : Bytes) (offset len : ℕ) (c : Reliable T C E)
      → len ≡ frame_len frame c.ack_len c.tx_len
      → len ≤ length xs
      → offset ≤ len
      → Holds
          (Pending frame offset c)
          (do bytes ← slice_to xs len; rest ← slice_from bytes offset; ret (rest, len))
  slice-Pending frame xs offset len c same fits h =
      bind-Holds (λ b. b ≡ take len xs) (Pending frame offset c) (slice_to xs len) _
        (slice_to-Holds xs len fits)
        (λ b e.
          let n : length b ≡ len = omega (arith, ap length e, length-take len xs) in
          bind-Holds (λ r. r ≡ drop offset b) (Pending frame offset c) (slice_from b offset) _
            (slice_from-Holds b offset (omega arith))
            (λ r e'. (same, omega (arith, ap length e', length-drop offset b))))

  pub pending_output-Pending :
      (frame : Frame) (offset : ℕ) (c : Reliable T C E)
      → InFrame (writing frame offset) c.ack_len c.tx_len
      → IsValid capacity c
      → Holds (Pending frame offset c) (pending_output link clock frame offset c)
  unfolding pending_output
  pending_output-Pending ack offset c h ((s, r, l), room) =
      slice-Pending ack c.ack_frame offset c.ack_len c refl
        (omega (arith, s.ack_len_le, s.ack_frame_length)) (omega arith)
  pending_output-Pending data_frame offset c h ((s, r, l), room) =
      slice-Pending data_frame c.tx_frame offset c.tx_len c refl
        (omega (arith, s.tx_len_le, s.tx_frame_length)) (omega arith)
