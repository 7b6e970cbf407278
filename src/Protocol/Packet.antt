-- ===== src/Protocol/Packet.antt =====
-- Packets of src/protocol.rs: `header`, `seal`, `encode_data`, `encode_ack` and `parse`.
pub mod Wire
pub mod Scratch
pub mod Encoded
pub mod Parsed
pub mod Changed
use cobs_io_async_rs.Error.{SeekableError}
use cobs_io_async_rs.Prelude.Exec.{Exec, ret, panic, ◌>>=◌, ◌>>◌, sub, slice_to, copy_at}
use cobs_io_async_rs.Prelude.{
  ℕ, ◌+◌, ◌-◌, Bool, true, false, not, ◌&&◌, [], ◌∷◌, Bytes, Option, none, some, Result, ok, err,
  length, take, drop, get_or, replicate, to_be_bytes, from_be_bytes, ltb, ◌==◌, if◌then◌else◌,
}
use cobs_io_async_rs.Protocol.Crc.{crc32}
use cobs_io_async_rs.Protocol.Payload.{header_len, crc_len, overhead}
use cobs_io_async_rs.Sizes.{max_encoding_length}
use cobs_io_async_rs.Sync.Encode.{encode_from_slice_including_sentinels}

abbrev pub kind_data : ℕ
kind_data = 1

abbrev pub kind_ack : ℕ
kind_ack = 2

-- 20 bytes.
unfoldable pub ack_frame_len : ℕ
unfolding max_encoding_length
ack_frame_len = max_encoding_length overhead + 2

pub data Packet : Type 0 where
  data_packet : ℕ → ℕ → Bytes → Packet
  ack_packet : ℕ → ℕ → Packet

-- `.expect("frame buffer holds the encoded packet")`
expect : Bytes × Result ℕ SeekableError → Exec (Bytes × ℕ)
expect (frame, ok n) = ret (frame, n)
expect (frame, err e) = panic

-- The buffers that are written to are returned: `decoded`, `frame` and the frame's length.
pub seal : Bytes → ℕ → Bytes → Exec (Bytes × Bytes × ℕ)
unfolding expect sub slice_to copy_at
seal decoded len frame = do
  body_len ← sub len crc_len
  body ← slice_to decoded body_len
  decoded ← copy_at decoded body_len (to_be_bytes 4 (crc32 body))
  packet ← slice_to decoded len
  (frame, n) ← expect (encode_from_slice_including_sentinels packet frame)
  ret (decoded, frame, n)

pub header : Bytes → ℕ → ℕ → ℕ → Exec Bytes
unfolding copy_at
header decoded kind session seq = do
  decoded ← copy_at decoded 0 (kind ∷ [])
  decoded ← copy_at decoded 1 (to_be_bytes 8 session)
  copy_at decoded 9 (to_be_bytes 4 seq)

-- `scratch`, `frame` and the frame's length.
unfoldable pub encode_data : ℕ → ℕ → Bytes → Bytes → Bytes → Exec (Bytes × Bytes × ℕ)
unfolding header seal copy_at
encode_data session seq payload scratch frame = do
  scratch ← header scratch kind_data session seq
  scratch ← copy_at scratch header_len payload
  seal scratch (overhead + length payload) frame

-- `frame` and its length.
unfoldable pub encode_ack : ℕ → ℕ → Bytes → Exec (Bytes × ℕ)
unfolding header seal
encode_ack session seq frame = do
  decoded ← header (replicate overhead 0) kind_ack session seq
  (decoded, frame, n) ← seal decoded overhead frame
  ret (frame, n)

-- `match body[0]`, with its guards.
classify : ℕ → ℕ → ℕ → Bytes → Option Packet
classify kind session seq [] = if kind == kind_ack then some (ack_packet session seq) else none
classify kind session seq (b ∷ payload) =
    if kind == kind_data then some (data_packet session seq (b ∷ payload)) else none

-- `parse` behind the split of the checksum.
parse_body : Bytes → Bytes → Option Packet
unfolding classify
parse_body body crc =
    if not (crc32 body == from_be_bytes crc)
    then none
    else classify (get_or body 0 0) (from_be_bytes (take 8 (drop 1 body)))
        (from_be_bytes (take 4 (drop 9 body))) (drop header_len body)

-- The first test leaves at least 17 bytes, so that no slice is out of range and the conversions to
-- arrays of 8 and 4 bytes succeed.
unfoldable pub parse : Bytes → Option Packet
unfolding parse_body
parse decoded =
    if ltb (length decoded) overhead
    then none
    else (let at = length decoded - crc_len in parse_body (take at decoded) (drop at decoded))
