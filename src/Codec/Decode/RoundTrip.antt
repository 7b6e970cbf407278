-- ===== src/Codec/Decode/RoundTrip.antt =====
-- `decode_to_slice` on whole frames, and on what `encode_from_slice_including_sentinels` wrote.
use cobs_io_async_rs.Prelude.{
  ℕ, zero, suc, ◌+◌, ◌^◌, ◌≤◌, ◌<◌, ◌≡◌, refl, sym, ap, ◌∙◌, Bool, true, false, [], ◌∷◌, ◌++◌,
  append-nil, Bytes, ok, length, length-append, length-take, take, drop, take-append-drop,
  replicate, length-replicate, arith,
}
use cobs_io_async_rs.Codec.Decode.{
  go_on, DecodedFrame, new_state, start, decode_byte, decode_end, decode_loop, decode_to_slice,
}
use cobs_io_async_rs.Codec.Decode.Blocks.{state, at, decode_loop-go_on}
use cobs_io_async_rs.Codec.Decode.Bodies.{stuff_from-Decodes}
use cobs_io_async_rs.Sync.Encode.{encode_from_slice_including_sentinels}
use cobs_io_async_rs.Sync.Encode.Refines.{encode_from_slice_including_sentinels-stuff}
use cobs_io_async_rs.Sizes.{max_encoding_length}
use cobs_io_async_rs.Sync.Stuffing.Bounds.{length-stuff-le}
use cobs_io_async_rs.Sync.Stuffing.{stuff}

abbrev frame : ℕ → ℕ → DecodedFrame
frame len consumed = record { len = len; consumed = consumed }

decode_pad-byte :
    (idx : ℕ) (dest : Bytes)
    → decode_byte (at idx new_state false dest 0) 0 ≡ go_on (at (idx + 1) new_state false dest 0)
unfolding decode_byte
decode_pad-byte idx dest = refl

-- Zeros before a frame are passed over.
pub decode_pad :
    (n pad : ℕ) (source dest : Bytes) (idx idx' : ℕ)
    → idx' ≡ idx + pad
    → decode_loop n (replicate pad 0 ++ source) (at idx new_state false dest 0)
      ≡ decode_loop n source (at idx' new_state false dest 0)
decode_pad n zero source dest idx idx' e = let e' : idx' ≡ idx = omega arith in rw e'
decode_pad n (suc pad) source dest idx idx' e =
    decode_loop-go_on n 0 _ _ (decode_pad-byte idx dest)
    ∙ decode_pad n pad source dest (idx + 1) idx' (omega arith)

decode_body :
    (n pad : ℕ) (source tail dest : Bytes)
    → length source ≤ length dest
    → (f : Bool) × (decode_loop n (replicate pad 0 ++ (stuff source ++ tail)) (start dest)
        ≡ decode_loop n tail (
            at
              (pad + length (stuff source))
              (state 1 f)
              true
              (source ++ drop (length source) dest)
              (length source)))
decode_body n pad source tail dest h =
    let (f, e) =
      stuff_from-Decodes source [] new_state (omega arith) (omega arith) tt n tail []
        (take (length source) dest) (drop (length source) dest) dest _ pad _ 0 (length source) false
        (omega (arith, took)) (sym (take-append-drop (length source) dest)) refl refl refl
        (omega (arith, took)) in
    (f, decode_pad n pad (stuff source ++ tail) dest 0 pad (omega arith) ∙ e)
  where
    took : length (take (length source) dest) ≡ length source
    took = omega (arith, length-take (length source) dest)

decode_delimiter :
    (n idx written : ℕ) (f : Bool) (rest dest : Bytes)
    → decode_loop n (0 ∷ rest) (at idx (state 1 f) true dest written)
      ≡ (dest, ok (frame written (idx + 1)))
unfolding decode_loop decode_byte
decode_delimiter n idx written f rest dest = refl

decode_stop :
    (n idx written : ℕ) (f : Bool) (dest : Bytes)
    → decode_loop n [] (at idx (state 1 f) true dest written) ≡ (dest, ok (frame written n))
unfolding decode_loop decode_end
decode_stop n idx written f dest = refl

-- If `dest` has room for the payload, then zeros, its body and a delimiter decode to it, whatever
-- follows. The rest of `dest` is left alone, and `consumed` counts up to and with the delimiter.
pub decode_to_slice-stuff :
    (pad : ℕ) (source rest dest : Bytes)
    → length source ≤ length dest
    → decode_to_slice (replicate pad 0 ++ (stuff source ++ 0 ∷ rest)) dest ≡ (
      source ++ drop (length source) dest,
      ok (record { len = length source; consumed = pad + length (stuff source) + 1 }),
    )
unfolding decode_to_slice
decode_to_slice-stuff pad source rest dest h =
    let (f, e) = decode_body n pad source (0 ∷ rest) dest h in
    e ∙ decode_delimiter n (pad + length (stuff source)) (length source) f rest _
  where
    n : ℕ
    n = length (replicate pad 0 ++ (stuff source ++ 0 ∷ rest))

-- If `dest` has room for the payload, then zeros and its body at the end of the input, without a
-- delimiter, decode to it. The rest of `dest` is left alone, and all of the source is consumed.
pub decode_to_slice_undelimited :
    (pad : ℕ) (source dest : Bytes)
    → length source ≤ length dest
    → decode_to_slice (replicate pad 0 ++ stuff source) dest ≡ (
      source ++ drop (length source) dest,
      ok (record { len = length source; consumed = pad + length (stuff source) }),
    )
unfolding decode_to_slice
decode_to_slice_undelimited pad source dest h =
    let (f, e) = decode_body n pad source [] dest h in
    ap (λ b. decode_loop n (replicate pad 0 ++ b) (start dest)) (sym (append-nil (stuff source)))
    ∙ e
    ∙ decode_stop n (pad + length (stuff source)) (length source) f _
    ∙ ap (λ k. (source ++ drop (length source) dest, ok (frame (length source) k))) whole
  where
    n : ℕ
    n = length (replicate pad 0 ++ stuff source)

    whole : n ≡ pad + length (stuff source)
    whole =
        omega
          (arith, length-append (replicate pad 0) (stuff source), length-replicate {A = ℕ} pad 0)

-- A source of fewer than 2 ^ 63 bytes is encoded by `encode_from_slice_including_sentinels` without
-- error into a buffer of `max_encoding_length` plus two bytes or more, and `decode_to_slice` of that
-- buffer, into a destination with room for the source, yields the source, leaves the rest of the
-- destination alone, and returns as `consumed` the length that the encoder returned.
pub decode_to_slice-encode_from_slice :
    (source buf dest : Bytes)
    → length source < 2 ^ 63
    → max_encoding_length (length source) + 2 ≤ length buf
    → length source ≤ length dest
    → let (wire, encoded) = encode_from_slice_including_sentinels source buf in
      (n : ℕ) × (encoded ≡ ok n)
      × (decode_to_slice wire dest ≡ (
        source ++ drop (length source) dest,
        ok (record { len = length source; consumed = n }),
      ))
decode_to_slice-encode_from_slice source buf dest small room h = (
  length (stuff source) + 2,
  ap (λ r. r.1) written,
  ap (λ r. decode_to_slice r.0 dest) written
      ∙ decode_to_slice-stuff 1 source _ dest h
      ∙ ap (λ k. (source ++ drop (length source) dest, ok (frame (length source) k))) count,
)
  where
    written : encode_from_slice_including_sentinels source buf ≡ (
      0 ∷ (stuff source ++ 0 ∷ drop (length (stuff source) + 2) buf),
      ok (length (stuff source) + 2),
    )
    written =
        encode_from_slice_including_sentinels-stuff source buf
          (omega (arith, length-stuff-le source small))

    count : 1 + length (stuff source) + 1 ≡ length (stuff source) + 2
    count = omega arith
