-- ===== src/Connection/Input.antt =====
-- `poll_input`, `process_input` and `process_frame` of src/connection.rs.
pub mod Frames
use cobs_io_async_rs.Codec.Decode.{Decoded, DecodedFrame, decode_to_slice}
use cobs_io_async_rs.Connection.State.{
  Tx, idle, Work, blocked, progress, yield, Reliable, Outcome, is_idle, is_none,
}
use cobs_io_async_rs.Error.{ConnectionError, transport, unexpected_eof}
use cobs_io_async_rs.Prelude.Exec.{Exec, ret, panic, ◌>>=◌, ◌>>◌, slice_to, slice_from, copy_at}
use cobs_io_async_rs.Prelude.{
  ℕ, zero, suc, ◌+◌, ◌-◌, min, Bool, true, false, not, ◌&&◌, ◌||◌, ◌++◌, [], ◌∷◌, Bytes, Option,
  none, some, Result, ok, err, length, take, drop, ltb, leb, ◌==◌, if◌then◌else◌,
}
use cobs_io_async_rs.Protocol.Packet.{Packet, data_packet, ack_packet, parse}
use cobs_io_async_rs.Protocol.Payload.{max_payload}
use cobs_io_async_rs.Transport.{Waker, Poll, ready, pending, Transport}

-- `.iter().position(|&byte| byte == 0)`
unfoldable pub position_zero : Bytes → Option ℕ
position_zero [] = none
position_zero (b ∷ bs) =
    if b == 0 then some 0 else elim (position_zero bs) [ none ↦ none | some i ↦ some (i + 1) ]

-- `left.saturating_sub(read)` of the final allowance.
unfoldable pub spend_allowance : ℕ → Option ℕ → Option ℕ
spend_allowance read none = none
spend_allowance read (some left) = some (left - read)

module _ {T C E : Type 0} (capacity : ℕ) where
  -- `Some(Packet::Ack { .. })`
  unfoldable pub on_ack : ℕ → ℕ → Reliable T C E → Reliable T C E
  on_ack session seq c =
      if session == c.config.session && (not (is_idle c.tx) && seq + 1 == c.tx_next)
      then record c { tx = idle; tx_retries = 0; final_input = none }
      else c

  -- `Some(Packet::Data { .. })`
  unfoldable pub on_data : ℕ → ℕ → Bytes → Reliable T C E → Exec (Reliable T C E)
  on_data session seq payload c =
      if not (session == c.config.session) || ltb (max_payload capacity) (length payload)
      then ret c
      else if seq == c.rx_next
      then (if c.rx_start == c.rx_end
          then (do
            rx_payload ← copy_at c.rx_payload 0 payload
            ret (record c {
              rx_payload = rx_payload;
              rx_start = 0;
              rx_end = length payload;
              rx_next = c.rx_next + 1;
              ack_pending = some seq;
            }))
          else ret c)
      else if ltb 0 c.rx_next && (seq == c.rx_next - 1 && is_none c.ack_pending)
      then ret (record c { ack_pending = some seq })
      else ret c

  unfoldable pub on_packet : Option Packet → Reliable T C E → Exec (Reliable T C E)
  on_packet none c = ret c
  on_packet (some (ack_packet session seq)) c = ret (on_ack session seq c)
  on_packet (some (data_packet session seq payload)) c = on_data session seq payload c

  -- `let Ok(decoded) = .. else { return; }` and the match; `scratch` is in place.
  unfoldable pub on_decoded : Decoded → Reliable T C E → Exec (Reliable T C E)
  on_decoded (err e) c = ret c
  on_decoded (ok decoded) c = do
    bytes ← slice_to c.scratch decoded.len
    on_packet (parse bytes) (record c { seen = c.seen ++ bytes ∷ [] })

  -- `process_frame`, of the bytes up to and with the delimiter at `end_idx`.
  unfoldable pub process_frame : ℕ → Reliable T C E → Exec (Reliable T C E)
  process_frame end_idx c = do
    encoded ← slice_to c.rx_buf (end_idx + 1)
    let (scratch, decoded) = decode_to_slice encoded c.scratch
    on_decoded decoded (record c { scratch = scratch })

  -- No delimiter is left in the buffer.
  unfoldable pub keep_partial : Reliable T C E → Reliable T C E
  keep_partial c =
      if c.rx_discarding || c.rx_len == capacity
      then record c { rx_discarding = true; rx_len = 0 }
      else c

  -- `copy_within(end + 1..rx_len, 0)` and `rx_len -= end + 1`.
  unfoldable pub remove_frame : ℕ → Reliable T C E → Exec (Reliable T C E)
  remove_frame end_idx c = do
    filled ← slice_to c.rx_buf c.rx_len
    rest ← slice_from filled (end_idx + 1)
    rx_buf ← copy_at c.rx_buf 0 rest
    ret (record c { rx_buf = rx_buf; rx_len = c.rx_len - (end_idx + 1) })

  -- The `if` between the search and the removal.
  unfoldable pub take_frame : ℕ → Reliable T C E → Exec (Reliable T C E)
  take_frame end_idx c =
      if c.rx_discarding
      then ret (record c { rx_discarding = false })
      else if ltb 0 end_idx
      then process_frame end_idx c
      else ret c

  -- The loop, on fuel; to run out counts as a panic.
  unfoldable pub process_loop : ℕ → Reliable T C E → Exec (Reliable T C E)
  process_loop zero c = panic
  process_loop (suc fuel) c = do
    filled ← slice_to c.rx_buf c.rx_len
    elim (position_zero filled) [
      | none ↦ ret (keep_partial c)
      | some end_idx ↦ (do
        c ← take_frame end_idx c
        c ← remove_frame end_idx c
        process_loop fuel c)
    ]

  -- Each round takes at least one of the `rx_len` bytes.
  unfoldable pub process_input : Reliable T C E → Exec (Reliable T C E)
  process_input c = process_loop (c.rx_len + 1) c

  module _ (link : Transport T E) where
    -- The match on what the link's `poll_read` returned, of `n` bytes free.
    unfoldable pub received : ℕ → Reliable T C E → Poll (Result ℕ E) → Exec (Outcome T C E)
    received n c pending = ret (c, ok blocked)
    received n c (ready (err e)) = ret (c, err (transport e))
    received n c (ready (ok zero)) = ret (c, err unexpected_eof)
    received n c (ready (ok (suc k))) = do
      let read = min (suc k) n
      c ←
          process_input (record c {
            rx_len = c.rx_len + read;
            final_input = spend_allowance read c.final_input;
          })
      ret (c, ok progress)

    unfoldable pub poll_input : Waker → ℕ → Reliable T C E → Exec (ℕ × Outcome T C E)
    poll_input cx zero c = ret (zero, (c, ok yield))
    poll_input cx (suc left) c = do
      free ← slice_from c.rx_buf c.rx_len
      let (t, free, polled) = link.poll_read c.transport cx free
      outcome ←
          received (length free)
            (record c { transport = t; rx_buf = take c.rx_len c.rx_buf ++ free }) polled
      ret (left, outcome)
