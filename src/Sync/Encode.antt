-- ===== src/Sync/Encode.antt =====
-- `encode_from_slice` and `encode_from_slice_including_sentinels` of src/sync.rs.
pub mod Rounds
mod Fits
mod Overflows
pub mod Refines
pub mod Sufficient
use cobs_io_async_rs.Error.{SeekableError, out_of_bounds}
use cobs_io_async_rs.Prelude.{
  ℕ, ◌+◌, ◌%◌, Bool, true, false, [], ◌∷◌, Bytes, none, some, Result, ok, err, ◌==◌, ◌≡◌, refl,
  if◌then◌else◌, write_at,
}
use cobs_io_async_rs.Sync.Output.{Out, ◌>>=◌, ◌>>◌, pure, get_len, append, set}

-- The loop's variables beside the output.
pub record Block : Type 0 where
  pub code_idx : ℕ
  pub code : ℕ
  pub needs_code_placeholder : Bool

abbrev pub new_block : ℕ → Block
new_block idx = record { code_idx = idx; code = 1; needs_code_placeholder = false }

-- `if needs_code_placeholder { output.append(0)?; needs_code_placeholder = false; }`
place_code : Block → Out Block
place_code b =
    if b.needs_code_placeholder
    then (do append 0; pure (record b { needs_code_placeholder = false }))
    else pure b

-- The branch of a zero byte.
end_block : Block → Out Block
end_block b = do set b.code_idx b.code; idx ← get_len; append 0; pure (new_block idx)

-- The branches of any other byte, `code += 1` on a `u8` done.
extend_block : Block → ℕ → Out Block
extend_block b byte =
    if b.code == 255
    then (do
      set b.code_idx b.code
      append byte
      idx ← get_len
      pure (record { code_idx = idx; code = 1; needs_code_placeholder = true }))
    else (do append byte; pure b)

pub encode_byte : Block → ℕ → Out Block
unfolding place_code end_block extend_block append set
encode_byte b byte = do
  b ← place_code b
  if byte == 0 then end_block b else extend_block (record b { code = (b.code + 1) % 256 }) byte

pub encode_loop : Block → Bytes → Out Block
encode_loop b [] = pure b
encode_loop b (byte ∷ source) = do b ← encode_byte b byte; encode_loop b source

-- What follows the loop.
pub close_block : Block → Out ℕ
unfolding set
close_block b = if b.needs_code_placeholder then get_len else (do set b.code_idx b.code; get_len)

pub encode_output : Bytes → Out ℕ
unfolding append
encode_output source = do append 0; b ← encode_loop (new_block 0) source; close_block b

unfoldable pub encode_from_slice : Bytes → Bytes → Bytes × Result ℕ SeekableError
unfolding encode_output encode_loop encode_byte close_block
encode_from_slice source dest =
    let (o, result) = encode_output source (record { dest = dest; len = 0 }) in (o.dest, result)

-- `*rest.get_mut(body_len).ok_or(OutOfBounds)? = 0; Ok(body_len + 2)`
put_trailing : ℕ → Bytes × Result ℕ SeekableError → Bytes × Result ℕ SeekableError
put_trailing first (rest, err e) = (first ∷ rest, err e)
put_trailing first (rest, ok body_len) = elim (write_at rest body_len 0) [
  | none ↦ (first ∷ rest, err out_of_bounds)
  | some rest' ↦ (first ∷ rest', ok (body_len + 2))
]

unfoldable pub encode_from_slice_including_sentinels :
    Bytes → Bytes → Bytes × Result ℕ SeekableError
unfolding encode_from_slice put_trailing
encode_from_slice_including_sentinels source [] = ([], err out_of_bounds)
encode_from_slice_including_sentinels source (_ ∷ rest) =
    put_trailing 0 (encode_from_slice source rest)

-- What the delimited form does with the outcome of the undelimited one.
put_trailing-ok :
    (rest : Bytes) (n : ℕ) {rest' : Bytes}
    → write_at rest n 0 ≡ some rest'
    → put_trailing 0 (rest, ok n) ≡ (0 ∷ rest', ok (n + 2))
unfolding put_trailing
put_trailing-ok rest n e = rw (e, put_trailing)

put_trailing_oob :
    (rest : Bytes) (n : ℕ)
    → write_at rest n 0 ≡ none
    → (put_trailing 0 (rest, ok n)).1 ≡ err out_of_bounds
unfolding put_trailing
put_trailing_oob rest n e = rw (e, put_trailing)

put_trailing-err :
    (r : Bytes × Result ℕ SeekableError) {e : SeekableError}
    → r.1 ≡ err e
    → (put_trailing 0 r).1 ≡ err e
unfolding put_trailing
put_trailing-err (rest, ok n) h = cc
put_trailing-err (rest, err e) h = cc
