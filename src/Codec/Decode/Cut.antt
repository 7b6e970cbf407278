-- ===== src/Codec/Decode/Cut.antt =====
-- `decode_to_slice` of frames that end inside a block.
use cobs_io_async_rs.Codec.Decode.Blocks.{
  state, at, NonZero, decode_loop-go_on, decode_byte-skip, decode_run,
}
use cobs_io_async_rs.Codec.Decode.RoundTrip.{decode_pad}
use cobs_io_async_rs.Codec.Decode.{
  return, new_state, start, decode_byte, decode_end, decode_loop, decode_to_slice,
}
use cobs_io_async_rs.Error.{DecodeError, SeekableError, unexpected_source_eof}
use cobs_io_async_rs.Prelude.{
  ℕ, ◌+◌, ◌≤◌, ◌<◌, ◌≡◌, refl, sym, ap, ◌∙◌, Bool, true, false, [], ◌∷◌, ◌++◌, append-nil, Bytes,
  none, err, All, length, length-take, take, drop, take-append-drop, replicate, ltb, ◌==◌, arith,
}

cut_end :
    (n idx written left : ℕ) (f : Bool) (dest : Bytes)
    → 1 < left
    → decode_loop n [] (at idx (state left f) true dest written) ≡ (dest, err unexpected_source_eof)
unfolding decode_loop decode_end
cut_end n idx written left f dest h = let e : ltb 1 left ≡ true = ground arith in rw e refl

abbrev cut_error : ℕ → ℕ → DecodeError ⊥ SeekableError
cut_error consumed written =
    DecodeError.invalid_frame (record { consumed = consumed; written = written; frame_len = none })

cut_byte :
    (idx written left : ℕ) (f : Bool) (dest : Bytes)
    → 1 < left
    → decode_byte (at idx (state left f) true dest written) 0
      ≡ return dest (err (cut_error (idx + 1) written))
unfolding decode_byte
cut_byte idx written left f dest h = let e : ltb 1 left ≡ true = ground arith in rw e refl

cut_delimiter :
    (n idx written left : ℕ) (f : Bool) (rest dest : Bytes)
    → 1 < left
    → decode_loop n (0 ∷ rest) (at idx (state left f) true dest written)
      ≡ (dest, err (cut_error (idx + 1) written))
unfolding decode_loop
cut_delimiter n idx written left f rest dest h =
    rw (cut_byte idx written left f dest h, decode_loop)

-- Zeros, a code byte and the part of its block that is there.
cut_block :
    (n pad left c : ℕ) (run tail dest : Bytes)
    → All NonZero run
    → c ≡ length run + left
    → 1 < left
    → length run ≤ length dest
    → decode_loop n (replicate pad 0 ++ c ∷ (run ++ tail)) (start dest)
      ≡ decode_loop n tail (
          at
            (pad + length run + 1)
            (state left (c == 255))
            true
            (run ++ drop (length run) dest)
            (length run))
cut_block n pad left c run tail dest nz hc hl room =
    decode_pad n pad (c ∷ (run ++ tail)) dest 0 pad (omega arith)
    ∙ decode_loop-go_on n c (run ++ tail) (at pad new_state false dest 0) (
        decode_byte-skip c pad new_state false dest 0 (λ e. absurd (omega arith)) (omega arith)
          refl)
    ∙ decode_run n run tail [] (take (length run) dest) (drop (length run) dest) dest
        (run ++ drop (length run) dest) (pad + 1) (pad + length run + 1) c 0 (length run) left
        (c == 255) (omega arith) nz (omega (arith, length-take (length run) dest))
        (sym (take-append-drop (length run) dest)) refl hc refl (omega arith) (omega arith)

-- If the source, behind zeros, ends or has a delimiter before a first block has as many nonzero bytes
-- as its code byte says, and `dest` has room for those that are there, then these are in `dest`, the
-- rest of it is left alone, and the error is `UnexpectedSourceEof` at the end of the source, and at a
-- delimiter `InvalidFrame` with the bytes consumed, the delimiter included, and those written.
pub decode_to_slice_cut :
    (pad left c : ℕ) (run rest dest : Bytes)
    → All NonZero run
    → c ≡ length run + left
    → 1 < left
    → length run ≤ length dest
    → (decode_to_slice (replicate pad 0 ++ c ∷ run) dest
        ≡ (run ++ drop (length run) dest, err unexpected_source_eof))
      × (decode_to_slice (replicate pad 0 ++ c ∷ (run ++ 0 ∷ rest)) dest ≡ (
        run ++ drop (length run) dest,
        err (
            DecodeError.invalid_frame (record {
              consumed = pad + length run + 1 + 1;
              written = length run;
              frame_len = none;
            })),
      ))
unfolding decode_to_slice
decode_to_slice_cut pad left c run rest dest nz hc hl room = (
  ap (λ r. decode_to_slice (replicate pad 0 ++ c ∷ r) dest) (sym (append-nil run))
      ∙ cut_block _ pad left c run [] dest nz hc hl room
      ∙ cut_end _ (pad + length run + 1) (length run) left (c == 255) _ hl,
  cut_block _ pad left c run (0 ∷ rest) dest nz hc hl room
      ∙ cut_delimiter _ (pad + length run + 1) (length run) left (c == 255) rest _ hl,
)
