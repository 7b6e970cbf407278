-- ===== src/Codec/Decode.antt =====
-- `DecoderState` and `decode_slice` of src/codec/decode.rs, and `decode_to_slice` of src/sync.rs,
-- which calls it.
mod Blocks
mod Bodies
pub mod RoundTrip
pub mod Bounds
pub mod Cut
pub mod Alike
use cobs_io_async_rs.Error.{
  SeekableError, out_of_bounds, DecodeError, destination, unexpected_source_eof, empty_frame,
}
use cobs_io_async_rs.Prelude.{
  ℕ, ◌+◌, ◌-◌, ◌≡◌, refl, Bool, true, false, not, ◌&&◌, ◌||◌, [], ◌∷◌, Bytes, Option, none, some,
  Result, ok, err, length, write_at, ltb, leb, ◌==◌, if◌then◌else◌,
}

pub record DecoderState : Type 0 where
  pub next_sentinel_idx : ℕ
  pub current_block_is_full : Bool

pub data PushResult : Type 0 where
  add_single write_sentinel invalid_frame end_of_frame skip : PushResult

abbrev pub new_state : DecoderState
new_state = record { next_sentinel_idx = 0; current_block_is_full = false }

pub push : DecoderState → ℕ → DecoderState × PushResult
push s byte =
    if byte == 0
    then (
      record s { next_sentinel_idx = 0 },
      if ltb 1 s.next_sentinel_idx then invalid_frame else end_of_frame,
    )
    else if leb s.next_sentinel_idx 1
    then (
      record { next_sentinel_idx = byte; current_block_is_full = byte == 255 },
      if s.next_sentinel_idx == 0 || s.current_block_is_full then skip else write_sentinel,
    )
    else (record s { next_sentinel_idx = s.next_sentinel_idx - 1 }, add_single)

-- `DecodedFrame` of src/sync.rs.
pub record DecodedFrame : Type 0 where
  pub len : ℕ
  pub consumed : ℕ

-- `Infallible` is the empty type.
abbrev pub Decoded : Type 0
Decoded = Result DecodedFrame (DecodeError ⊥ SeekableError)

-- The loop's variables; `idx` counts the bytes of `source` that it has passed.
pub record Decoding : Type 0 where
  pub idx : ℕ
  pub state : DecoderState
  pub started : Bool
  pub dest : Bytes
  pub written : ℕ

-- A round of the loop goes on or returns.
pub data Round : Type 0 where
  go_on : Decoding → Round
  return : Bytes → Decoded → Round

-- `*dest.get_mut(written).ok_or(..)? = value; written += 1;`
put_value : Decoding → Option Bytes → Round
put_value d none = return d.dest (err (destination out_of_bounds))
put_value d (some dest) = go_on (record d { dest = dest; written = d.written + 1 })

-- The match on what `push` returned, `idx` past the byte.
handle : PushResult → Decoding → ℕ → Round
unfolding put_value
handle skip d byte = go_on d
handle add_single d byte = put_value d (write_at d.dest d.written byte)
handle write_sentinel d byte = put_value d (write_at d.dest d.written 0)
handle end_of_frame d byte = return d.dest (ok (record { len = d.written; consumed = d.idx }))
handle invalid_frame d byte = return d.dest (
    err (
      DecodeError.invalid_frame
        (record { consumed = d.idx; written = d.written; frame_len = none })))

pub decode_byte : Decoding → ℕ → Round
unfolding push handle
decode_byte d byte =
    if not d.started && byte == 0
    then go_on (record d { idx = d.idx + 1 })
    else (let (state, result) = push d.state byte in
        handle result (record d { idx = d.idx + 1; state = state; started = true }) byte)

-- What follows the loop.
pub decode_end : ℕ → Decoding → Bytes × Decoded
decode_end source_len d =
    if ltb 1 d.state.next_sentinel_idx
    then (d.dest, err unexpected_source_eof)
    else if not d.started
    then (d.dest, err empty_frame)
    else (d.dest, ok (record { len = d.written; consumed = source_len }))

pub decode_loop : ℕ → Bytes → Decoding → Bytes × Decoded
decode_loop source_len [] d = decode_end source_len d
decode_loop source_len (byte ∷ source) d = elim (decode_byte d byte) [
  | go_on d' ↦ decode_loop source_len source d'
  | return dest result ↦ (dest, result)
]

abbrev pub start : Bytes → Decoding
start dest = record { idx = 0; state = new_state; started = false; dest = dest; written = 0 }

unfoldable pub decode_slice : Bytes → Bytes → Bytes × Decoded
unfolding decode_loop decode_byte decode_end
decode_slice source dest = decode_loop (length source) source (start dest)

unfoldable pub decode_to_slice : Bytes → Bytes → Bytes × Decoded
unfolding decode_slice
decode_to_slice source dest = decode_slice source dest
