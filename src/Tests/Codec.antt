-- ===== src/Tests/Codec.antt =====
-- Runs of the COBS codec, and its theorems at concrete inputs.
use cobs_io_async_rs.Codec.Decode.Alike.{decode_to_slice-Alike}
use cobs_io_async_rs.Codec.Decode.Cut.{decode_to_slice_cut}
use cobs_io_async_rs.Codec.Decode.Bounds.{Reported, decode_to_slice-Reported}
use cobs_io_async_rs.Codec.Decode.RoundTrip.{
  decode_to_slice-stuff, decode_to_slice_undelimited, decode_to_slice-encode_from_slice,
}
use cobs_io_async_rs.Codec.Decode.{decode_to_slice}
use Prim.Native.String.{String}
use cobs_io_async_rs.Error.Display.Distinct.{connection_error_inj, in_text}
use cobs_io_async_rs.Error.Display.{decode_error, seekable_error, config_error, connection_error}
use cobs_io_async_rs.Error.{
  DecodeError, out_of_bounds, destination, buffer_too_small, transport, unexpected_source_eof,
  empty_frame,
}
use cobs_io_async_rs.Prelude.{
  ◌==◌, if◌then◌else◌, ℕ, ◌≤◌, ◌≡◌, ◌≢◌, refl, [], ◌∷◌, Bytes, none, ok, err, All, take, drop,
  replicate, write_at, arith,
}
use cobs_io_async_rs.Sizes.{max_encoding_length}
use cobs_io_async_rs.Sync.Encode.Refines.{
  encode_from_slice-stuff, encode_from_slice_overflow, encode_from_slice_including_sentinels-stuff,
  encode_from_slice_including_sentinels_overflow,
}
use cobs_io_async_rs.Sync.Encode.Sufficient.{encode_from_slice_sufficient}
use cobs_io_async_rs.Sync.Encode.{encode_from_slice, encode_from_slice_including_sentinels}
use cobs_io_async_rs.Sync.Stuffing.{stuff_from}

abbrev payload : Bytes
payload = 7 ∷ 0 ∷ 8 ∷ []

abbrev six : Bytes
six = 9 ∷ 9 ∷ 9 ∷ 9 ∷ 9 ∷ 9 ∷ []

encode_zeros : encode_from_slice payload six ≡ (2 ∷ 7 ∷ 2 ∷ 8 ∷ 9 ∷ 9 ∷ [], ok 4)
unfolding encode_from_slice write_at
encode_zeros = refl

-- A full block at the end has no code byte behind it.
encode_full_block : (encode_from_slice (replicate 254 1) (replicate 300 0)).1 ≡ ok 255
unfolding encode_from_slice write_at
encode_full_block = refl

decode_zeros :
    decode_to_slice (0 ∷ 2 ∷ 7 ∷ 2 ∷ 8 ∷ 0 ∷ 2 ∷ 9 ∷ 0 ∷ []) (1 ∷ 1 ∷ 1 ∷ 1 ∷ [])
    ≡ (7 ∷ 0 ∷ 8 ∷ 1 ∷ [], ok (record { len = 3; consumed = 6 }))
unfolding decode_to_slice write_at
decode_zeros = refl

decode_truncated : (decode_to_slice (3 ∷ 1 ∷ []) six).1 ≡ err unexpected_source_eof
unfolding decode_to_slice write_at
decode_truncated = refl

decode_padding : (decode_to_slice (0 ∷ 0 ∷ []) six).1 ≡ err empty_frame
unfolding decode_to_slice
decode_padding = refl

encode_from_slice-stuff_example : encode_from_slice payload six ≡ (2 ∷ 7 ∷ 2 ∷ 8 ∷ 9 ∷ 9 ∷ [], ok 4)
unfolding stuff_from
encode_from_slice-stuff_example = encode_from_slice-stuff payload six (omega arith)

encode_from_slice_overflow_example : (encode_from_slice payload (1 ∷ 2 ∷ [])).1 ≡ err out_of_bounds
unfolding stuff_from
encode_from_slice_overflow_example = encode_from_slice_overflow payload (1 ∷ 2 ∷ []) (omega arith)

encode_from_slice_including_sentinels-stuff_example :
    encode_from_slice_including_sentinels payload six ≡ (0 ∷ 2 ∷ 7 ∷ 2 ∷ 8 ∷ 0 ∷ [], ok 6)
unfolding stuff_from
encode_from_slice_including_sentinels-stuff_example =
    encode_from_slice_including_sentinels-stuff payload six (omega arith)

encode_from_slice_including_sentinels_overflow_example :
    (encode_from_slice_including_sentinels payload (1 ∷ 2 ∷ 3 ∷ [])).1 ≡ err out_of_bounds
unfolding stuff_from
encode_from_slice_including_sentinels_overflow_example =
    encode_from_slice_including_sentinels_overflow payload (1 ∷ 2 ∷ 3 ∷ []) (omega arith)

encode_from_slice_sufficient_example :
    let (dest', r) = encode_from_slice payload six in
    (n : ℕ) × (r ≡ ok n)
    × (n ≤ max_encoding_length 3)
    × All (λ b. b ≢ 0) (take n dest')
    × (drop n dest' ≡ drop n six)
unfolding max_encoding_length
encode_from_slice_sufficient_example =
    encode_from_slice_sufficient payload six (omega arith) (omega arith)

decode_to_slice-stuff_example :
    decode_to_slice (0 ∷ 0 ∷ 2 ∷ 7 ∷ 2 ∷ 8 ∷ 0 ∷ 5 ∷ []) six
    ≡ (7 ∷ 0 ∷ 8 ∷ 9 ∷ 9 ∷ 9 ∷ [], ok (record { len = 3; consumed = 7 }))
unfolding stuff_from
decode_to_slice-stuff_example = decode_to_slice-stuff 2 payload (5 ∷ []) six (omega arith)

decode_to_slice_undelimited_example :
    decode_to_slice (0 ∷ 2 ∷ 7 ∷ 2 ∷ 8 ∷ []) six
    ≡ (7 ∷ 0 ∷ 8 ∷ 9 ∷ 9 ∷ 9 ∷ [], ok (record { len = 3; consumed = 5 }))
unfolding stuff_from
decode_to_slice_undelimited_example = decode_to_slice_undelimited 1 payload six (omega arith)

decode_to_slice-encode_from_slice_example :
    let (wire, encoded) = encode_from_slice_including_sentinels payload six in
    (n : ℕ) × (encoded ≡ ok n)
    × (decode_to_slice wire (1 ∷ 1 ∷ 1 ∷ 1 ∷ [])
        ≡ (7 ∷ 0 ∷ 8 ∷ 1 ∷ [], ok (record { len = 3; consumed = n })))
unfolding max_encoding_length
decode_to_slice-encode_from_slice_example =
    decode_to_slice-encode_from_slice payload six (1 ∷ 1 ∷ 1 ∷ 1 ∷ []) (omega arith) (omega arith)
      (omega arith)

decode_to_slice-Reported_example :
    let (dest', r) = decode_to_slice (3 ∷ 1 ∷ 0 ∷ []) six in Reported 3 six dest' r
decode_to_slice-Reported_example = decode_to_slice-Reported (3 ∷ 1 ∷ 0 ∷ []) six

decode_to_slice_cut_example :
    (decode_to_slice (0 ∷ 4 ∷ 7 ∷ []) six ≡ (7 ∷ 9 ∷ 9 ∷ 9 ∷ 9 ∷ 9 ∷ [], err unexpected_source_eof))
    × (decode_to_slice (0 ∷ 4 ∷ 7 ∷ 0 ∷ 5 ∷ []) six ≡ (
      7 ∷ 9 ∷ 9 ∷ 9 ∷ 9 ∷ 9 ∷ [],
      err (DecodeError.invalid_frame (record { consumed = 4; written = 1; frame_len = none })),
    ))
decode_to_slice_cut_example =
    decode_to_slice_cut 1 3 4 (7 ∷ []) (5 ∷ []) six ((λ e. absurd (omega arith)), tt) (omega arith)
      (omega arith) (omega arith)

decode_to_slice-Alike_example :
    (ok (record { len = 3; consumed = 5 })
      ≡ (decode_to_slice (2 ∷ 7 ∷ 2 ∷ 8 ∷ 0 ∷ []) (replicate 6 0)).1)
    × (7 ∷ 0 ∷ 8 ∷ [] ≡ take 3 (decode_to_slice (2 ∷ 7 ∷ 2 ∷ 8 ∷ 0 ∷ []) (replicate 6 0)).0)
unfolding decode_to_slice write_at
decode_to_slice-Alike_example =
    decode_to_slice-Alike (2 ∷ 7 ∷ 2 ∷ 8 ∷ 0 ∷ []) six (replicate 6 0) refl

too_small_text :
    decode_error seekable_error seekable_error (λ p. "") (destination out_of_bounds)
    ≡ "Destination error: Out of bounds"
unfolding decode_error seekable_error
too_small_text = refl

too_small_config : config_error buffer_too_small ≡ "Buffer cannot hold a protocol packet"
unfolding config_error
too_small_config = refl

text_of_digit : ℕ → String
text_of_digit n = if n == 0 then "0" else "1"

connection_error_inj_example :
    in_text text_of_digit (transport 1) ≡ in_text text_of_digit (transport 2)
unfolding connection_error text_of_digit
connection_error_inj_example = connection_error_inj text_of_digit (transport 1) (transport 2) refl
