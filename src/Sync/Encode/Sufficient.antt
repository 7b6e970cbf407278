-- ===== src/Sync/Encode/Sufficient.antt =====
-- `encode_from_slice` with the buffer size that src/sync.rs documents.
use cobs_io_async_rs.Prelude.{
  ℕ, ◌^◌, ◌≤◌, ◌<◌, ◌≡◌, ◌≢◌, refl, sym, ap, subst, ◌∙◌, ◌++◌, Bytes, ok, All, length, take, drop,
  take-append, drop-append, arith,
}
use cobs_io_async_rs.Sizes.{max_encoding_length}
use cobs_io_async_rs.Sync.Encode.Refines.{encode_from_slice-stuff}
use cobs_io_async_rs.Sync.Encode.{encode_from_slice}
use cobs_io_async_rs.Sync.Stuffing.Bounds.{length-stuff-le, stuff_ne_zero}
use cobs_io_async_rs.Sync.Stuffing.{stuff}

-- For a source of fewer than 2 ^ 63 bytes and a destination of at least
-- `max_encoding_length(source.len())` bytes `encode_from_slice` succeeds: the length that it returns is
-- within that bound, the bytes up to it are all nonzero, and those behind it are as they were.
pub encode_from_slice_sufficient :
    (source dest : Bytes)
    → length source < 2 ^ 63
    → max_encoding_length (length source) ≤ length dest
    → let (dest', r) = encode_from_slice source dest in
      (n : ℕ) × (r ≡ ok n)
      × (n ≤ max_encoding_length (length source))
      × All (λ b. b ≢ 0) (take n dest')
      × (drop n dest' ≡ drop n dest)
encode_from_slice_sufficient source dest small room = (
  n,
  ap (λ r. r.1) encoded,
  length-stuff-le source small,
  subst (All (λ b. b ≢ 0)) (sym (ap (λ r. take n r.0) encoded ∙ take-append body rest refl))
      (stuff_ne_zero source),
  ap (λ r. drop n r.0) encoded ∙ drop-append body rest refl,
)
  where
    body : Bytes
    body = stuff source

    n : ℕ
    n = length body

    rest : Bytes
    rest = drop n dest

    encoded : encode_from_slice source dest ≡ (body ++ rest, ok n)
    encoded = encode_from_slice-stuff source dest (omega (arith, length-stuff-le source small))
