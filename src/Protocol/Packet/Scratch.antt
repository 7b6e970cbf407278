-- ===== src/Protocol/Packet/Scratch.antt =====
-- The scratch space that `encode_data` of src/protocol.rs assembles a packet in.
use cobs_io_async_rs.Prelude.Exec.Ensures.{
  Ensures, bind-Ensures, map-Ensures, Ensures-any, length-copy_at,
}
use cobs_io_async_rs.Prelude.Exec.{sub, slice_to, copy_at}
use cobs_io_async_rs.Prelude.{ℕ, ◌+◌, [], ◌∷◌, Bytes, ◌≡◌, ◌∙◌, length, to_be_bytes}
use cobs_io_async_rs.Protocol.Crc.{crc32}
use cobs_io_async_rs.Protocol.Packet.{expect, seal, header, encode_data, kind_data}
use cobs_io_async_rs.Protocol.Payload.{header_len, crc_len, overhead}
use cobs_io_async_rs.Sync.Encode.{encode_from_slice_including_sentinels}

abbrev Same : Bytes → Bytes → Type 0
Same decoded bytes = length bytes ≡ length decoded

header-Same :
    (decoded : Bytes) (kind session seq : ℕ)
    → Ensures (Same decoded) (header decoded kind session seq)
unfolding header
header-Same decoded kind session seq =
    bind-Ensures (Same decoded) (Same decoded) (copy_at decoded 0 (kind ∷ [])) _
      (length-copy_at decoded 0 (kind ∷ []))
      (λ x e.
        bind-Ensures (Same x) (Same decoded) (copy_at x 1 (to_be_bytes 8 session)) _
          (length-copy_at x 1 (to_be_bytes 8 session))
          (λ y f.
            map-Ensures (Same y) (Same decoded) _ (length-copy_at y 9 (to_be_bytes 4 seq))
              (λ z g. g ∙ f ∙ e)))

seal-Same :
    (decoded : Bytes) (len : ℕ) (frame : Bytes)
    → Ensures (λ r. Same decoded r.0) (seal decoded len frame)
unfolding seal
seal-Same decoded len frame =
    bind-Ensures (λ n. Unit {0}) (λ r. Same decoded r.0) (sub len crc_len) _
      (Ensures-any (sub len crc_len))
      (λ body_len i.
        bind-Ensures (λ n. Unit {0}) (λ r. Same decoded r.0) (slice_to decoded body_len) _
          (Ensures-any (slice_to decoded body_len))
          (λ body j.
            let crc : Bytes = to_be_bytes 4 (crc32 body) in
            bind-Ensures (Same decoded) (λ r. Same decoded r.0) (copy_at decoded body_len crc) _
              (length-copy_at decoded body_len crc)
              (λ x e.
                bind-Ensures (λ n. Unit {0}) (λ r. Same decoded r.0) (slice_to x len) _
                  (Ensures-any (slice_to x len))
                  (λ packet k.
                    let sealed = encode_from_slice_including_sentinels packet frame in
                    bind-Ensures (λ n. Unit {0}) (λ r. Same decoded r.0) (expect sealed) _
                      (Ensures-any (expect sealed)) (λ n l. e)))))

-- `scratch` keeps its length.
pub encode_data-Same :
    (session seq : ℕ) (payload scratch frame : Bytes)
    → Ensures (λ w. length w.0 ≡ length scratch) (encode_data session seq payload scratch frame)
unfolding encode_data
encode_data-Same session seq payload scratch frame =
    bind-Ensures (Same scratch) (λ w. Same scratch w.0) (header scratch kind_data session seq) _
      (header-Same scratch kind_data session seq)
      (λ x e.
        bind-Ensures (Same x) (λ w. Same scratch w.0) (copy_at x header_len payload) _
          (length-copy_at x header_len payload)
          (λ y f.
            map-Ensures (λ w. Same y w.0) (λ w. Same scratch w.0) _
              (seal-Same y (overhead + length payload) frame) (λ w g. g ∙ f ∙ e)))
