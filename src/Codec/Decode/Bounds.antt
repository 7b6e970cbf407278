-- ===== src/Codec/Decode/Bounds.antt =====
-- What `decode_to_slice` keeps to on every input: the lengths it reports, and the part of `dest` it
-- does not touch.
use native.Mathlib.Numerals.{add-one}
use cobs_io_async_rs.Prelude.{
  ℕ, ◌+◌, ◌≤◌, ◌≡◌, refl, subst, ltb, ◌∙◌, ◌⊎◌, inl, inr, [], ◌∷◌, Bytes, none, ok, err, length,
  drop, write_at, length-write_at, drop-write_at, write_at-lt, drop-suc, not, ◌&&◌, ◌==◌,
  Bool-cases, Option-cases, arith,
}
use cobs_io_async_rs.Error.{
  DecodeError, invalid_frame, destination, unexpected_source_eof, empty_frame,
}
use cobs_io_async_rs.Codec.Decode.{
  Decoding, Decoded, PushResult, Round, go_on, return, put_value, handle, start, push, decode_byte,
  decode_end, decode_loop, decode_to_slice,
}

-- `written` bytes of `dest` may differ from the buffer `dest0` that the call was given.
pub record Within (dest0 dest : Bytes) (written : ℕ) : Type 0 where
  pub same_length : length dest ≡ length dest0
  pub fits : written ≤ length dest0
  pub untouched : drop written dest ≡ drop written dest0

-- What the caller gets, of `n` bytes of source: on success, and in the progress of an invalid frame,
-- the counts stay within source and destination.
abbrev pub Reported : ℕ → Bytes → Bytes → Decoded → Type 0
Reported n dest0 dest (ok f) = Within dest0 dest f.len × (f.consumed ≤ n)
Reported n dest0 dest (err (DecodeError.source e)) = ⊥
Reported n dest0 dest (err (destination e)) = length dest ≡ length dest0
Reported n dest0 dest (err unexpected_source_eof) = length dest ≡ length dest0
Reported n dest0 dest (err empty_frame) = length dest ≡ length dest0
Reported n dest0 dest (err (invalid_frame p)) =
    Within dest0 dest p.written × (p.consumed ≤ n) × (p.frame_len ≡ none)

abbrev Outcome : ℕ → ℕ → Bytes → Round → Type 0
Outcome idx n dest0 (go_on d) = (d.idx ≡ idx) × Within dest0 d.dest d.written
Outcome idx n dest0 (return dest r) = Reported n dest0 dest r

put_value-Outcome :
    (n v : ℕ) (dest0 : Bytes) (d : Decoding)
    → Within dest0 d.dest d.written
    → Outcome d.idx n dest0 (put_value d (write_at d.dest d.written v))
unfolding put_value
put_value-Outcome n v dest0 d w = elim (Option-cases (write_at d.dest d.written v)) [
  | inl e ↦ rw (e, put_value) w.same_length
  | inr (ys, e) ↦
      rw (e, put_value)
        (
          refl,
          record {
            same_length = length-write_at d.dest d.written v e ∙ w.same_length;
            fits = omega (arith, write_at-lt d.dest d.written v e, w);
            untouched =
                rw add-one (
                  drop-write_at d.dest d.written v e ∙ drop-suc d.written d.dest dest0 w.untouched);
          },
        )
]

handle-Outcome :
    (p : PushResult) (n byte : ℕ) (dest0 : Bytes) (d : Decoding)
    → Within dest0 d.dest d.written
    → d.idx ≤ n
    → Outcome d.idx n dest0 (handle p d byte)
unfolding handle
handle-Outcome PushResult.skip n byte dest0 d w h = (refl, w)
handle-Outcome PushResult.add_single n byte dest0 d w h = put_value-Outcome n byte dest0 d w
handle-Outcome PushResult.write_sentinel n byte dest0 d w h = put_value-Outcome n 0 dest0 d w
handle-Outcome PushResult.end_of_frame n byte dest0 d w h = (w, h)
handle-Outcome PushResult.invalid_frame n byte dest0 d w h = (w, h, refl)

-- One round, on a byte of the source.
decode_byte-Outcome :
    (n byte : ℕ) (dest0 : Bytes) (d : Decoding)
    → Within dest0 d.dest d.written
    → d.idx + 1 ≤ n
    → Outcome (d.idx + 1) n dest0 (decode_byte d byte)
unfolding decode_byte
decode_byte-Outcome n byte dest0 d w h = elim (Bool-cases (not d.started && byte == 0)) [
  | inl e ↦ rw e (refl, w)
  | inr e ↦ rw e (handle-Outcome (push d.state byte).1 n byte dest0 _ w h)
]

decode_end-Reported :
    (n : ℕ) (dest0 : Bytes) (d : Decoding)
    → Within dest0 d.dest d.written
    → let (dest, r) = decode_end n d in Reported n dest0 dest r
unfolding decode_end
decode_end-Reported n dest0 d w = elim (Bool-cases (ltb 1 d.state.next_sentinel_idx)) [
  | inl e ↦ rw e w.same_length
  | inr e ↦ elim (Bool-cases (not d.started)) [
    | inl e' ↦ rw (e, e') w.same_length
    | inr e' ↦ rw (e, e') (w, omega arith)
  ]
]

Round-cases :
    (r : Round)
    → ((d : Decoding) × (r ≡ go_on d)) ⊎ ((dest : Bytes) × (res : Decoded) × (r ≡ return dest res))
Round-cases (go_on d) = inl (d, refl)
Round-cases (return dest res) = inr (dest, res, refl)

decode_loop-Reported :
    (n : ℕ) (source dest0 : Bytes) (d : Decoding)
    → Within dest0 d.dest d.written
    → d.idx + length source ≤ n
    → let (dest, r) = decode_loop n source d in Reported n dest0 dest r
unfolding decode_loop
decode_loop-Reported n [] dest0 d w h = decode_end-Reported n dest0 d w
decode_loop-Reported n (byte ∷ source) dest0 d w h = elim (Round-cases (decode_byte d byte)) [
  | inl (d', e) ↦
      let next : Outcome (d.idx + 1) n dest0 (go_on d') =
        subst (Outcome (d.idx + 1) n dest0) e
          (decode_byte-Outcome n byte dest0 d w (omega arith)) in
      rw (e, decode_loop) (decode_loop-Reported n source dest0 d' next.1 (omega (arith, next.0)))
  | inr (dest, res, e) ↦
      rw (e, decode_loop)
        (subst (Outcome (d.idx + 1) n dest0) e (decode_byte-Outcome n byte dest0 d w (omega arith)))
]

-- Whatever the source, `decode_to_slice` reports no more than was read and written: `len` is at most
-- the length of `dest` and `consumed` at most that of the source, the bytes of `dest` behind `len`
-- are as before, the progress of an invalid frame has the same bounds and no `frame_len`, and no
-- source error is returned.
pub decode_to_slice-Reported :
    (encoded dest : Bytes)
    → let (dest', r) = decode_to_slice encoded dest in Reported (length encoded) dest dest' r
unfolding decode_to_slice
decode_to_slice-Reported encoded dest =
    decode_loop-Reported (length encoded) encoded dest (start dest)
      (record { same_length = refl; fits = omega arith; untouched = refl }) (omega arith)

pub Reported-length :
    (n : ℕ) (dest0 dest : Bytes) (r : Decoded)
    → Reported n dest0 dest r
    → length dest ≡ length dest0
Reported-length n dest0 dest (ok f) h = h.0.same_length
Reported-length n dest0 dest (err (DecodeError.source e)) h = absurd h
Reported-length n dest0 dest (err (destination e)) h = h
Reported-length n dest0 dest (err unexpected_source_eof) h = h
Reported-length n dest0 dest (err empty_frame) h = h
Reported-length n dest0 dest (err (invalid_frame p)) h = h.0.same_length

pub length-decode_to_slice :
    (encoded dest : Bytes) → length (decode_to_slice encoded dest).0 ≡ length dest
length-decode_to_slice encoded dest =
    let (x, r) = decode_to_slice encoded dest in
    Reported-length (length encoded) dest x r (decode_to_slice-Reported encoded dest)
