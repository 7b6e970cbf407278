-- ===== src/Connection/Input/Frames.antt =====
-- What `process_frame` makes of a frame that a peer has sent.
use cobs_io_async_rs.Codec.Decode.RoundTrip.{decode_to_slice-stuff}
use cobs_io_async_rs.Connection.Input.{on_decoded, on_packet, process_frame}
use cobs_io_async_rs.Connection.State.{Reliable}
use cobs_io_async_rs.Prelude.Exec.Laws.{slice_to-append}
use cobs_io_async_rs.Prelude.Exec.{ret, ◌>>=◌, slice_to}
use cobs_io_async_rs.Prelude.{
  ℕ, ◌+◌, ◌≤◌, ◌≡◌, refl, sym, ap, ◌∙◌, [], ◌∷◌, ◌++◌, append_assoc, Bytes, some, ok, length,
  length-append, drop, arith,
}
use cobs_io_async_rs.Protocol.Packet.Parsed.{IsPacket, parse-packet_bytes}
use cobs_io_async_rs.Protocol.Packet.Wire.{packet_bytes}
use cobs_io_async_rs.Protocol.Packet.{Packet}
use cobs_io_async_rs.Sync.Stuffing.{stuff}

module _ {T C E : Type 0} (capacity : ℕ) where
  on_decoded_packet :
      (p : Packet) (tail : Bytes) (consumed : ℕ) (c : Reliable T C E)
      → IsPacket p
      → c.scratch ≡ packet_bytes p ++ tail
      → on_decoded capacity (ok (record { len = length (packet_bytes p); consumed = consumed })) c
        ≡ on_packet capacity (some p) (record c { seen = c.seen ++ packet_bytes p ∷ [] })
  unfolding on_decoded
  on_decoded_packet p tail consumed c v e =
      rw (e, slice_to-append (packet_bytes p) tail _ refl, ◌>>=◌) (rw (parse-packet_bytes p v))

  -- If the input buffer begins with the body of a valid packet and a delimiter, and `scratch` has room
  -- for the packet, then `process_frame` of that frame acts as on that packet, with the packet's
  -- bytes at the front of `scratch` and at the end of `seen`: the bytes behind the delimiter do not
  -- matter.
  pub process_frame_packet :
      (p : Packet) (rest : Bytes) (c : Reliable T C E)
      → IsPacket p
      → c.rx_buf ≡ stuff (packet_bytes p) ++ 0 ∷ rest
      → length (packet_bytes p) ≤ length c.scratch
      → process_frame capacity (length (stuff (packet_bytes p))) c
        ≡ on_packet capacity (some p) (record c {
          scratch = packet_bytes p ++ drop (length (packet_bytes p)) c.scratch;
          seen = c.seen ++ packet_bytes p ∷ [];
        })
  unfolding process_frame
  process_frame_packet p rest c v e room =
      rw (encoded, ◌>>=◌)
        (rw (decode_to_slice-stuff 0 packet [] c.scratch room) (
          on_decoded_packet p (drop (length packet) c.scratch) (0 + length (stuff packet) + 1) _ v
            refl))
    where
      packet : Bytes
      packet = packet_bytes p

      front : stuff packet ++ 0 ∷ rest ≡ (stuff packet ++ 0 ∷ []) ++ rest
      front = sym (append_assoc (stuff packet) (0 ∷ []) rest)

      encoded : slice_to c.rx_buf (length (stuff packet) + 1) ≡ ret (stuff packet ++ 0 ∷ [])
      encoded =
          ap (λ b. slice_to b (length (stuff packet) + 1)) (e ∙ front)
          ∙ slice_to-append (stuff packet ++ 0 ∷ []) rest _
              (omega (arith, length-append (stuff packet) (0 ∷ [])))
