-- ===== src/Protocol/Packet/Encoded.antt =====
-- `encode_data` and `encode_ack` against the layout of packets.
use cobs_io_async_rs.Prelude.Exec.Laws.{sub-ret, slice_to-append, copy_at-extend}
use cobs_io_async_rs.Prelude.Exec.{Exec, ret, ◌>>=◌}
use cobs_io_async_rs.Prelude.{
  ℕ, ◌+◌, ◌^◌, ◌≤◌, ◌<◌, ◌≡◌, refl, sym, ap, ◌∙◌, [], ◌∷◌, ◌++◌, append-nil, append_assoc, Bytes,
  length, length-append, length-drop, drop, replicate, to_be_bytes, length-to_be_bytes, arith,
}
use cobs_io_async_rs.Protocol.Crc.{crc32}
use cobs_io_async_rs.Protocol.Packet.Wire.{body, sealed, packet_bytes, length-body, length-sealed}
use cobs_io_async_rs.Protocol.Packet.{
  data_packet, ack_packet, kind_data, kind_ack, ack_frame_len, seal, header, encode_data,
  encode_ack,
}
use cobs_io_async_rs.Protocol.Payload.{header_len, crc_len, overhead, max_payload}
use cobs_io_async_rs.Protocol.Payload.Largest.{max_payload_largest, max_payload-le}
use cobs_io_async_rs.Sizes.{max_encoding_length}
use cobs_io_async_rs.Sync.Encode.Refines.{encode_from_slice_including_sentinels-stuff}
use cobs_io_async_rs.Sync.Stuffing.Bounds.{length-stuff-le}
use cobs_io_async_rs.Sync.Stuffing.{stuff}

-- The delimited frame of a packet, in front of what the buffer held behind it.
abbrev pub framed : Bytes → Bytes → Bytes
framed packet frame = 0 ∷ (stuff packet ++ 0 ∷ drop (length (stuff packet) + 2) frame)

pub length-framed :
    (packet frame : Bytes)
    → length (stuff packet) + 2 ≤ length frame
    → length (framed packet frame) ≡ length frame
length-framed packet frame h = omega (
  arith,
  length-append (stuff packet) (0 ∷ drop (length (stuff packet) + 2) frame),
  length-drop (length (stuff packet) + 2) frame,
)

header-ret :
    (decoded : Bytes) (kind session seq : ℕ)
    → header_len ≤ length decoded
    → header decoded kind session seq
      ≡ ret (((kind ∷ to_be_bytes 8 session) ++ to_be_bytes 4 seq) ++ drop header_len decoded)
unfolding header
header-ret decoded kind session seq h =
    rw (copy_at-extend [] decoded (kind ∷ []) 0 {k = 1} refl refl (omega arith), ◌>>=◌)
      (rw
        (
          copy_at-extend (kind ∷ []) decoded (to_be_bytes 8 session) 1 {k = 9} refl nine
              (omega arith),
          ◌>>=◌,
        )
        (copy_at-extend (kind ∷ to_be_bytes 8 session) decoded (to_be_bytes 4 seq) 9
          (omega (arith, nine)) (omega (arith, length-to_be_bytes 4 seq)) h))
  where
    nine : 9 ≡ 1 + length (to_be_bytes 8 session)
    nine = omega (arith, length-to_be_bytes 8 session)

-- `seal` on a buffer that begins with the packet's body.
seal-ret :
    (b scratch frame : Bytes) (n len : ℕ)
    → n ≡ length b
    → len ≡ n + crc_len
    → len ≤ length scratch
    → length (stuff (sealed b)) + 2 ≤ length frame
    → seal (b ++ drop n scratch) len frame
      ≡ ret (sealed b ++ drop len scratch, framed (sealed b) frame, length (stuff (sealed b)) + 2)
unfolding seal
seal-ret b scratch frame n len e el h room =
    rw (sub-ret len crc_len {c = n} (omega arith) (omega arith), ◌>>=◌)
      (rw (slice_to-append b (drop n scratch) n e, ◌>>=◌)
        (rw (copy_at-extend b scratch (to_be_bytes 4 (crc32 b)) n {k = len} e four h, ◌>>=◌)
          (rw (slice_to-append (sealed b) (drop len scratch) len whole, ◌>>=◌)
            (rw (encode_from_slice_including_sentinels-stuff (sealed b) frame room)))))
  where
    four : len ≡ n + length (to_be_bytes 4 (crc32 b))
    four = omega (arith, length-to_be_bytes 4 (crc32 b))

    whole : len ≡ length (sealed b)
    whole = omega (arith, length-append b (to_be_bytes 4 (crc32 b)), length-to_be_bytes 4 (crc32 b))

module _ (kind session seq : ℕ) where
  abbrev written : Bytes
  written = (kind ∷ to_be_bytes 8 session) ++ to_be_bytes 4 seq

  thirteen : 13 ≡ length written
  thirteen = omega (
    arith,
    length-append (to_be_bytes 8 session) (to_be_bytes 4 seq),
    length-to_be_bytes 8 session,
    length-to_be_bytes 4 seq,
  )

  body-written : (payload : Bytes) → written ++ payload ≡ body kind session seq payload
  body-written payload =
      ap (λ r. kind ∷ r) (append_assoc (to_be_bytes 8 session) (to_be_bytes 4 seq) payload)

encode_data-framed :
    (session seq : ℕ) (payload scratch frame : Bytes)
    → overhead + length payload ≤ length scratch
    → let packet = packet_bytes (data_packet session seq payload) in
      length (stuff packet) + 2 ≤ length frame
      → encode_data session seq payload scratch frame
        ≡ ret (
          packet ++ drop (overhead + length payload) scratch,
          framed packet frame,
          length (stuff packet) + 2,
        )
unfolding encode_data
encode_data-framed session seq payload scratch frame h room =
    rw (header-ret scratch kind_data session seq (omega arith), ◌>>=◌)
      (rw
        (
          copy_at-extend (written kind_data session seq) scratch payload 13
              {k = 13 + length payload} (thirteen kind_data session seq) refl (omega arith),
          ◌>>=◌,
        )
        (ap (λ b. seal (b ++ drop (13 + length payload) scratch) (overhead + length payload) frame)
            (body-written kind_data session seq payload)
          ∙ seal-ret (body kind_data session seq payload) scratch frame (13 + length payload)
              (overhead + length payload) (omega (arith, length-body kind_data session seq payload))
              (omega arith) h room))

-- The delimited frame of a packet of `len` bytes fits where `max_encoding_length` says so.
stuff_fits :
    (packet frame : Bytes)
    → length packet < 2 ^ 63
    → max_encoding_length (length packet) + 2 ≤ length frame
    → length (stuff packet) + 2 ≤ length frame
stuff_fits packet frame h room = omega (arith, length-stuff-le packet h)

-- With `scratch` and `frame` of one length below 2 ^ 62 and a payload that is not empty and within
-- `max_payload` of that length, `encode_data` does not panic. It leaves the packet at the front of
-- `scratch` and its delimited frame at that of `frame`, the rest of both as it was, and returns the
-- frame's length, which is at most that of `frame`.
pub encode_data_lem :
    (session seq : ℕ) (payload scratch frame : Bytes)
    → length scratch < 2 ^ 62
    → length frame ≡ length scratch
    → 0 < length payload
    → length payload ≤ max_payload (length frame)
    → let packet = packet_bytes (data_packet session seq payload) in
      (encode_data session seq payload scratch frame
        ≡ ret (
          packet ++ drop (overhead + length payload) scratch,
          framed packet frame,
          length (stuff packet) + 2,
        ))
      × (length (stuff packet) + 2 ≤ length frame)
encode_data_lem session seq payload scratch frame small same pos fits = (
  encode_data-framed session seq payload scratch frame
      (omega (arith, max_payload-le (length frame))) room,
  room,
)
  where
    packet : Bytes
    packet = packet_bytes (data_packet session seq payload)

    size : length packet ≡ length payload + 17
    size = omega (arith, length-sealed kind_data session seq payload)

    roomy : max_encoding_length (length packet) + 2 ≤ length frame
    roomy = rw size (
        (max_payload_largest (length frame) (length payload) (omega arith)
            (omega (arith, max_payload-le (length frame))) pos).0
          fits)

    room : length (stuff packet) + 2 ≤ length frame
    room = stuff_fits packet frame (omega (arith, size, max_payload-le (length frame))) roomy

-- Into a buffer of `ack_frame_len` bytes `encode_ack` writes the delimited frame of the ACK without a
-- panic, leaves the rest as it was, and returns the frame's length, which is at most that of the
-- buffer.
pub encode_ack_lem :
    (session seq : ℕ) (frame : Bytes)
    → length frame ≡ ack_frame_len
    → let packet = packet_bytes (ack_packet session seq) in
      (encode_ack session seq frame ≡ ret (framed packet frame, length (stuff packet) + 2))
      × (length (stuff packet) + 2 ≤ length frame)
unfolding encode_ack
encode_ack_lem session seq frame e = (
  rw (header-ret (replicate overhead 0) kind_ack session seq (omega arith), ◌>>=◌)
      (ap finish
          (sym (append-nil (written kind_ack session seq)) ∙ body-written kind_ack session seq [])
        ∙ ap (λ m. m >>= λ r. ret (r.1, r.2))
            (seal-ret (body kind_ack session seq []) (replicate overhead 0) frame 13 overhead
              (omega (arith, length-body kind_ack session seq [])) refl (omega arith) room)),
  room,
)
  where
    packet : Bytes
    packet = packet_bytes (ack_packet session seq)

    finish : Bytes → Exec (Bytes × ℕ)
    finish b = seal (b ++ drop 13 (replicate overhead 0)) overhead frame >>= λ r. ret (r.1, r.2)

    size : length packet ≡ overhead
    size = omega (arith, length-sealed kind_ack session seq [])

    room : length (stuff packet) + 2 ≤ length frame
    room =
        stuff_fits packet frame (omega (arith, size))
          (rw (size, e) (unfold ack_frame_len in omega arith))
