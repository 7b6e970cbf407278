-- ===== src/Connection/Stream/Unsent.antt =====
-- What is left of a frame that is being written.
use cobs_io_async_rs.Connection.State.{Frame, ack, data_frame, writing, flushing}
use cobs_io_async_rs.Connection.Stream.{unsent_of}
use cobs_io_async_rs.Prelude.Exec.Holds.{if-Holds}
use cobs_io_async_rs.Prelude.{
  ℕ, zero, suc, ◌+◌, ◌≤◌, ◌≡◌, refl, sym, ap, ◌∙◌, min, [], ◌∷◌, ◌++◌, append-nil, append_assoc,
  List, Bytes, concat, concat_last, length, length-take, length-drop, take, drop, drop-drop,
  drop-nil, take-append-drop, ◌==◌, if◌then◌else◌, arith,
}

drop-min : (n : ℕ) (xs : Bytes) → drop (min n (length xs)) xs ≡ drop n xs
drop-min zero [] = refl
drop-min zero (x ∷ xs) = let e : min 0 (suc (length xs)) ≡ 0 = omega arith in rw e refl
drop-min (suc n) [] = sym (drop-nil (min (suc n) 0))
drop-min (suc n) (x ∷ xs) =
    let e : min (suc n) (suc (length xs)) ≡ suc (min n (length xs)) = omega arith in
    rw e (drop-min n xs)

drop_short : (n : ℕ) (xs : Bytes) → length xs ≤ n → drop n xs ≡ []
drop_short zero [] h = refl
drop_short zero (x ∷ xs) h = absurd (omega arith)
drop_short (suc n) [] h = refl
drop_short (suc n) (x ∷ xs) h = drop_short n xs (omega arith)

-- The frame that `out` is about, and its length.
abbrev pub frame_bytes : Frame → Bytes → ℕ → Bytes → ℕ → Bytes × ℕ
frame_bytes ack ack_frame ack_len tx_frame tx_len = (ack_frame, ack_len)
frame_bytes data_frame ack_frame ack_len tx_frame tx_len = (tx_frame, tx_len)

pub unsent-writing :
    (frame : Frame) (offset : ℕ) (ack_frame tx_frame : Bytes) (ack_len tx_len : ℕ)
    → let (bytes, len) = frame_bytes frame ack_frame ack_len tx_frame tx_len in
      unsent_of (writing frame offset) ack_frame ack_len tx_frame tx_len
      ≡ drop offset (take len bytes)
unsent-writing ack offset ack_frame tx_frame ack_len tx_len = refl
unsent-writing data_frame offset ack_frame tx_frame ack_len tx_len = refl

-- A frame is begun.
pub extended :
    (sent before : Bytes) (begun : List Bytes) (frame : Bytes)
    → sent ++ [] ≡ before ++ concat begun
    → sent ++ frame ≡ before ++ concat (begun ++ frame ∷ [])
extended sent before begun frame e =
    ap (λ r. r ++ frame) (sym (append-nil sent) ∙ e)
    ∙ append_assoc before (concat begun) frame
    ∙ ap (λ r. before ++ r) (sym (concat_last begun frame))

-- Some of what was left is accepted.
pub rest :
    (sent : Bytes) (k : ℕ) (bytes : Bytes) → (sent ++ take k bytes) ++ drop k bytes ≡ sent ++ bytes
rest sent k bytes =
    append_assoc sent (take k bytes) (drop k bytes) ∙ ap (λ r. sent ++ r) (take-append-drop k bytes)

pub unsent-advance :
    (frame : Frame) (offset k : ℕ) (ack_frame tx_frame bytes : Bytes) (ack_len tx_len : ℕ)
    → let (buf, len) = frame_bytes frame ack_frame ack_len tx_frame tx_len in
      let offset' = offset + min k (length bytes) in
      bytes ≡ drop offset (take len buf)
      → unsent_of
          (if offset' == len then flushing frame else writing frame offset')
          ack_frame
          ack_len
          tx_frame
          tx_len
        ≡ drop k bytes
unsent-advance frame offset k ack_frame tx_frame bytes ack_len tx_len e =
    let buf : Bytes = (frame_bytes frame ack_frame ack_len tx_frame tx_len).0 in
    let len : ℕ = (frame_bytes frame ack_frame ack_len tx_frame tx_len).1 in
    let m : ℕ = min k (length bytes) in
    if-Holds (λ o. unsent_of o ack_frame ack_len tx_frame tx_len ≡ drop k bytes) (offset + m == len)
      (λ all. sym (
        drop_short k bytes
          (ground (arith, ap length e, length-drop offset (take len buf), length-take len buf))))
      (λ more.
        unsent-writing frame (offset + m) ack_frame tx_frame ack_len tx_len
        ∙ sym (drop-drop m offset (take len buf) refl)
        ∙ ap (drop m) (sym e)
        ∙ drop-min k bytes)
