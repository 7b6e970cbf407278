-- ===== src/Codec/Decode/Blocks.antt =====
-- What the loop of `decode_slice` does with the body that `Stuffing.stuff` describes, block by block.
use cobs_io_async_rs.Prelude.{
  ℕ, ◌+◌, ◌-◌, ◌≤◌, ◌<◌, ◌≡◌, ◌≢◌, ap, ◌∙◌, ◌⊎◌, inl, inr, Bool, true, ◌||◌, [], ◌∷◌, ◌++◌,
  append_assoc, Bytes, some, All, length, length-append, write_at, write_at_here, ◌==◌,
  if◌then◌else◌, arith,
}
use cobs_io_async_rs.Codec.Decode.{DecoderState, Decoding, go_on, decode_byte, decode_loop}

abbrev pub state : ℕ → Bool → DecoderState
state next is_full = record { next_sentinel_idx = next; current_block_is_full = is_full }

abbrev pub at : ℕ → DecoderState → Bool → Bytes → ℕ → Decoding
at idx s started dest written = record {
  idx = idx;
  state = s;
  started = started;
  dest = dest;
  written = written;
}

-- The payload zero that a code byte stands for, in the state before it: none at the start of a
-- frame and none behind a full block.
abbrev pub gap : DecoderState → Bytes
gap s = if s.next_sentinel_idx == 0 || s.current_block_is_full then [] else 0 ∷ []

pub decode_loop-go_on :
    (n byte : ℕ) (source : Bytes) (d : Decoding) {d' : Decoding}
    → decode_byte d byte ≡ go_on d'
    → decode_loop n (byte ∷ source) d ≡ decode_loop n source d'
unfolding decode_loop
decode_loop-go_on n byte source d e = rw (e, decode_loop)

-- A code byte, in a state between two blocks.
module _ (c idx : ℕ) (s : DecoderState) (started : Bool) (dest : Bytes) (written : ℕ) where
  pub decode_byte-skip :
      c ≢ 0
      → s.next_sentinel_idx ≤ 1
      → gap s ≡ []
      → decode_byte (at idx s started dest written) c
        ≡ go_on (at (idx + 1) (state c (c == 255)) true dest written)
  unfolding decode_byte
  decode_byte-skip nz h g = ground arith

  decode_byte-gap :
      {dest' : Bytes}
      → c ≢ 0
      → s.next_sentinel_idx ≤ 1
      → gap s ≡ 0 ∷ []
      → write_at dest written 0 ≡ some dest'
      → decode_byte (at idx s started dest written) c
        ≡ go_on (at (idx + 1) (state c (c == 255)) true dest' (written + 1))
  unfolding decode_byte
  decode_byte-gap nz h g w = ground arith

  -- A byte of the block's run.
  decode_byte-single :
      {dest' : Bytes}
      → c ≢ 0
      → 1 < s.next_sentinel_idx
      → write_at dest written c ≡ some dest'
      → decode_byte (at idx s started dest written) c
        ≡ go_on (
            at
              (idx + 1)
              (state (s.next_sentinel_idx - 1) s.current_block_is_full)
              true
              dest'
              (written + 1))
  unfolding decode_byte
  decode_byte-single nz h w = ground arith

gap-cases : (s : DecoderState) → (gap s ≡ []) ⊎ (gap s ≡ 0 ∷ [])
gap-cases s = ground arith

abbrev pub NonZero : ℕ → Type 0
NonZero x = x ≢ 0

-- The run of a block, or a part of it that leaves `left`, with space `used` for it.
pub decode_run :
    (n : ℕ) (run tail pre used unused dest out : Bytes) (idx idx' next written written' left : ℕ)
    (f : Bool)
    → 0 < left
    → All NonZero run
    → length used ≡ length run
    → dest ≡ pre ++ (used ++ unused)
    → out ≡ pre ++ (run ++ unused)
    → next ≡ length run + left
    → written ≡ length pre
    → idx' ≡ idx + length run
    → written' ≡ written + length run
    → decode_loop n (run ++ tail) (at idx (state next f) true dest written)
      ≡ decode_loop n tail (at idx' (state left f) true out written')
decode_run n [] tail pre [] unused dest out idx idx' next written written' left f pos nz hu hd ho hn
      hw hi hv =
    let e1 : next ≡ left = omega arith in
    let e2 : idx' ≡ idx = omega arith in
    let e3 : written' ≡ written = omega arith in rw (e1, e2, e3, hd, ho)
decode_run n [] tail pre (u ∷ us) unused dest out idx idx' next written written' left f pos nz hu hd
      ho hn hw hi hv =
    absurd (omega arith)
decode_run n (x ∷ run) tail pre [] unused dest out idx idx' next written written' left f pos nz hu
      hd ho hn hw hi hv =
    absurd (omega arith)
decode_run n (x ∷ run) tail pre (u ∷ us) unused dest out idx idx' next written written' left f pos
      nz hu hd ho hn hw hi hv =
    decode_loop-go_on n x (run ++ tail) _
      (decode_byte-single x idx (state next f) true dest written nz.0 (omega arith) put)
    ∙ decode_run n run tail (pre ++ x ∷ []) us unused _ out (idx + 1) idx' (next - 1) (written + 1)
        written' left f pos nz.1 (omega arith) (simp append_assoc) (ho ∙ simp append_assoc)
        (omega arith) (omega (arith, length-append pre (x ∷ []))) (omega arith) (omega arith)
  where
    put : write_at dest written x ≡ some (pre ++ x ∷ (us ++ unused))
    put = rw hd (write_at_here pre (us ++ unused) u x hw)

-- A whole block: its code byte and its run.
abbrev pub Block : DecoderState → Bytes → Type 0
Block s run =
    (n : ℕ) (tail pre used unused dest out : Bytes) (c idx idx' written written' : ℕ)
    (started : Bool)
    → s.next_sentinel_idx ≤ 1
    → All NonZero run
    → c ≡ length run + 1
    → length used ≡ length (gap s) + length run
    → dest ≡ pre ++ (used ++ unused)
    → out ≡ pre ++ ((gap s ++ run) ++ unused)
    → written ≡ length pre
    → idx' ≡ idx + (length run + 1)
    → written' ≡ written + length used
    → decode_loop n (c ∷ (run ++ tail)) (at idx s started dest written)
      ≡ decode_loop n tail (at idx' (state 1 (c == 255)) true out written')

decode_block-skip : (s : DecoderState) (run : Bytes) → gap s ≡ [] → Block s run
decode_block-skip s run g n tail pre used unused dest out c idx idx' written written' started hs nz
      hc hu hd ho hw hi hv =
    decode_loop-go_on n c (run ++ tail) _
      (decode_byte-skip c idx s started dest written (omega arith) hs g)
    ∙ decode_run n run tail pre used unused dest out (idx + 1) idx' c written written' 1 (c == 255)
        (omega arith) nz (omega (arith, ap length g)) hd (ho ∙ rw g) hc hw (omega arith)
        (omega (arith, ap length g))

decode_block-gap : (s : DecoderState) (run : Bytes) → gap s ≡ 0 ∷ [] → Block s run
decode_block-gap s run g n tail pre [] unused dest out c idx idx' written written' started hs nz hc
      hu hd ho hw hi hv =
    absurd (omega (arith, ap length g))
decode_block-gap s run g n tail pre (u ∷ us) unused dest out c idx idx' written written' started hs
      nz hc hu hd ho hw hi hv =
    decode_loop-go_on n c (run ++ tail) _
      (decode_byte-gap c idx s started dest written (omega arith) hs g put)
    ∙ decode_run n run tail (pre ++ 0 ∷ []) us unused _ out (idx + 1) idx' c (written + 1) written'
        1 (c == 255) (omega arith) nz (omega (arith, ap length g)) (simp append_assoc)
        (ho ∙ rw g (simp append_assoc)) hc (omega (arith, length-append pre (0 ∷ []))) (omega arith)
        (omega (arith, ap length g))
  where
    put : write_at dest written 0 ≡ some (pre ++ 0 ∷ (us ++ unused))
    put = rw hd (write_at_here pre (us ++ unused) u 0 hw)

pub decode_block : (s : DecoderState) (run : Bytes) → Block s run
decode_block s run = elim (gap-cases s) [
  | inl g ↦ decode_block-skip s run g
  | inr g ↦ decode_block-gap s run g
]
