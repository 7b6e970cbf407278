-- ===== src/Sync/Encode/Refines.antt =====
-- `encode_from_slice` and its delimited form against the body that `Stuffing.stuff` describes.
use cobs_io_async_rs.Error.{SeekableError, out_of_bounds}
use cobs_io_async_rs.Prelude.{
  ℕ, suc, ◌+◌, ◌≤◌, ◌<◌, ◌≡◌, refl, sym, ap, ◌∙◌, [], ◌∷◌, ◌++◌, Bytes, Result, ok, err, write_at,
  ◌-◌, length, length-append, length-take, length-drop, take, drop, take-append-drop,
  write_at-append, write_at-drop, write_at_oob, drop-cons, dec_lt, arith,
}
use cobs_io_async_rs.Sync.Encode.{
  encode_from_slice, encode_from_slice_including_sentinels, put_trailing, put_trailing-ok,
  put_trailing_oob, put_trailing-err,
}
use cobs_io_async_rs.Sync.Encode.Fits.{encode_rest-Writes}
use cobs_io_async_rs.Sync.Encode.Overflows.{encode_rest-Overflows}
use cobs_io_async_rs.Sync.Encode.Rounds.{encode_rest, block, output}
use cobs_io_async_rs.Sync.Output.{SliceOutput}
use cobs_io_async_rs.Sync.Stuffing.{stuff, length-stuff_from}

-- The first placeholder.
encode_from_slice-cons :
    (source : Bytes) (d : ℕ) (dest : Bytes)
    → encode_from_slice source (d ∷ dest)
      ≡ (let (o, r) = encode_rest (block 0 1) source (output (0 ∷ dest) 1) in (o.dest, r))
unfolding encode_from_slice encode_rest write_at
encode_from_slice-cons source d dest = refl

-- With room for the body, `encode_from_slice` writes it to the front of `dest`, leaves the rest of
-- `dest` alone and returns the body's length.
pub encode_from_slice-stuff :
    (source dest : Bytes)
    → length (stuff source) ≤ length dest
    → encode_from_slice source dest
      ≡ (stuff source ++ drop (length (stuff source)) dest, ok (length (stuff source)))
encode_from_slice-stuff source [] h = absurd (omega (arith, length-stuff_from [] source))
encode_from_slice-stuff source (d ∷ dest) h =
    encode_from_slice-cons source d dest
    ∙ ap (λ (r : SliceOutput × Result ℕ SeekableError). (r.0.dest, r.1)) run
    ∙ ap (λ b. (stuff source ++ b, ok (length (stuff source))))
        (sym (drop-cons (length (stuff source)) d dest (length-stuff_from [] source)))
  where
    k : ℕ
    k = length (stuff source) - 1

    run :
        encode_rest (block 0 1) source (output (0 ∷ dest) 1)
        ≡ (output (stuff source ++ drop k dest) (length (stuff source)), ok (length (stuff source)))
    run =
        encode_rest-Writes source [] (omega arith) [] 0 (take k dest) (drop k dest) _ _ 0 1 1 _ refl
          refl refl (omega arith) (omega (arith, length-take k dest, length-stuff_from [] source))
          (ap (λ r. 0 ∷ r) (sym (take-append-drop k dest))) refl

-- With less room than the body needs, `encode_from_slice` fails with `OutOfBounds`.
pub encode_from_slice_overflow :
    (source dest : Bytes)
    → length dest < length (stuff source)
    → (encode_from_slice source dest).1 ≡ err out_of_bounds
encode_from_slice_overflow source [] h = unfold encode_from_slice write_at in refl
encode_from_slice_overflow source (d ∷ dest) h =
    ap (λ r. r.1) (encode_from_slice-cons source d dest)
    ∙ encode_rest-Overflows source [] (omega arith) [] 0 dest _ 0 1 1 refl refl refl (omega arith)
        refl

encode_from_slice_including_sentinels-cons :
    (source : Bytes) (d : ℕ) (rest : Bytes)
    → encode_from_slice_including_sentinels source (d ∷ rest)
      ≡ put_trailing 0 (encode_from_slice source rest)
unfolding encode_from_slice_including_sentinels
encode_from_slice_including_sentinels-cons source d rest = refl

-- With room for the body and two bytes, `encode_from_slice_including_sentinels` writes the body
-- between two zeros to the front of `dest`, leaves the rest alone and returns the length of the whole.
pub encode_from_slice_including_sentinels-stuff :
    (source dest : Bytes)
    → length (stuff source) + 2 ≤ length dest
    → encode_from_slice_including_sentinels source dest ≡ (
      0 ∷ (stuff source ++ 0 ∷ drop (length (stuff source) + 2) dest),
      ok (length (stuff source) + 2),
    )
encode_from_slice_including_sentinels-stuff source [] h = absurd (omega arith)
encode_from_slice_including_sentinels-stuff source (d ∷ rest) h =
    encode_from_slice_including_sentinels-cons source d rest
    ∙ ap (put_trailing 0) (encode_from_slice-stuff source rest (omega arith))
    ∙ put_trailing-ok _ n (
        write_at-append (stuff source) (drop n rest) 0 0 (omega arith)
          (write_at-drop n rest 0 (omega arith)))
    ∙ ap (λ b. (0 ∷ (stuff source ++ 0 ∷ b), ok (n + 2))) last
  where
    n : ℕ
    n = length (stuff source)

    last : drop (suc n) rest ≡ drop (n + 2) (d ∷ rest)
    last = let e : suc (suc n) ≡ n + 2 = omega arith in ap (λ k. drop k (d ∷ rest)) e

-- With less room than the body and two bytes, `encode_from_slice_including_sentinels` fails with
-- `OutOfBounds`.
pub encode_from_slice_including_sentinels_overflow :
    (source dest : Bytes)
    → length dest < length (stuff source) + 2
    → (encode_from_slice_including_sentinels source dest).1 ≡ err out_of_bounds
encode_from_slice_including_sentinels_overflow source [] h =
    unfold encode_from_slice_including_sentinels in refl
encode_from_slice_including_sentinels_overflow source (d ∷ rest) h =
    ap (λ r. r.1) (encode_from_slice_including_sentinels-cons source d rest)
    ∙ elim (dec_lt (length rest) n) [
      | yes short ↦ put_trailing-err _ (encode_from_slice_overflow source rest short)
      | no fits ↦
          ap (λ r. (put_trailing 0 r).1) (encode_from_slice-stuff source rest (omega arith))
          ∙ put_trailing_oob _ n (
              write_at_oob (stuff source ++ drop n rest) n 0
                (omega (arith, length-append (stuff source) (drop n rest), length-drop n rest)))
    ]
  where
    n : ℕ
    n = length (stuff source)
