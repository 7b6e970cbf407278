-- ===== src/Protocol/Crc/Detection.antt =====
-- Bytes of which one is changed, against the checksum.
use cobs_io_async_rs.Prelude.Xor.{
  bit_xor_self, bit_xor_cancel, bit_xor-lt, bit_xor_comm, bit_xor_assoc, zero-bit_xor,
}
use cobs_io_async_rs.Prelude.{
  ℕ, zero, suc, ◌-◌, ◌/◌, ◌%◌, ◌^◌, ◌<◌, ◌≡◌, refl, sym, ap, ◌∙◌, subst, [], ◌∷◌, ◌++◌, Bytes, All,
  All-append, IsByte, bit_xor, arith,
}
use cobs_io_async_rs.Protocol.Crc.Division.{
  divisor, by_bytes, crc32-by_bytes, crc_bit_lem, crc_bits-bit_xor,
}
use cobs_io_async_rs.Protocol.Crc.{crc_bit, crc_bits, crc32}

divisor-lt : (b : ℕ) → divisor b < 2 ^ 32
divisor-lt zero = omega arith
divisor-lt (suc b) = omega arith

crc_bit-lt : (x : ℕ) → x < 2 ^ 32 → crc_bit x < 2 ^ 32
crc_bit-lt x h =
    subst (λ r. r < 2 ^ 32) (sym (crc_bit_lem x))
      (bit_xor-lt 32 (x / 2) (divisor (x % 2)) (omega arith) (divisor-lt (x % 2)))

crc_bits-lt : (n x : ℕ) → x < 2 ^ 32 → crc_bits n x < 2 ^ 32
unfolding crc_bits
crc_bits-lt zero x h = h
crc_bits-lt (suc n) x h = crc_bits-lt n (crc_bit x) (crc_bit-lt x h)

-- The polynomial has its highest digit, so that a step loses nothing.
crc_bit_zero : (x : ℕ) → x < 2 ^ 32 → crc_bit x ≡ 0 → x ≡ 0
crc_bit_zero x h e = by_low (x % 2) refl
  where
    by_low : (low : ℕ) → x % 2 ≡ low → x ≡ 0
    by_low zero f =
        let g =
          bit_xor_cancel (x / 2) 0
            (ap (λ r. bit_xor (x / 2) (divisor r)) (sym f) ∙ sym (crc_bit_lem x) ∙ e) in
        omega arith
    by_low (suc zero) f =
        let g =
          bit_xor_cancel (x / 2) 0xEDB88320
            (ap (λ r. bit_xor (x / 2) (divisor r)) (sym f) ∙ sym (crc_bit_lem x) ∙ e) in
        omega arith
    by_low (suc (suc low)) f = absurd (omega arith)

crc_bits_zero : (n x : ℕ) → x < 2 ^ 32 → crc_bits n x ≡ 0 → x ≡ 0
unfolding crc_bits
crc_bits_zero zero x h e = e
crc_bits_zero (suc n) x h e = crc_bit_zero x h (crc_bits_zero n (crc_bit x) (crc_bit-lt x h) e)

-- Registers that a byte takes to the same one are the same.
crc_bits_inj : (n x y : ℕ) → x < 2 ^ 32 → y < 2 ^ 32 → crc_bits n x ≡ crc_bits n y → x ≡ y
crc_bits_inj n x y hx hy e = bit_xor_cancel x y (
    crc_bits_zero n (bit_xor x y) (bit_xor-lt 32 x y hx hy)
      (crc_bits-bit_xor n x y ∙ ap (λ r. bit_xor r (crc_bits n y)) e ∙ bit_xor_self (crc_bits n y)))

bit_xor_left : (r a b : ℕ) → bit_xor r a ≡ bit_xor r b → a ≡ b
bit_xor_left r a b e = sym (cancelled a) ∙ ap (bit_xor r) e ∙ cancelled b
  where
    cancelled : (x : ℕ) → bit_xor r (bit_xor r x) ≡ x
    cancelled x =
        sym (bit_xor_assoc r r x) ∙ ap (λ z. bit_xor z x) (bit_xor_self r) ∙ zero-bit_xor x

bit_xor_right : (r s a : ℕ) → bit_xor r a ≡ bit_xor s a → r ≡ s
bit_xor_right r s a e = bit_xor_left a r s (bit_xor_comm a r ∙ e ∙ bit_xor_comm s a)

by_bytes_inj :
    (ys : Bytes) (r s : ℕ)
    → All IsByte ys
    → r < 2 ^ 32
    → s < 2 ^ 32
    → by_bytes r ys ≡ by_bytes s ys
    → r ≡ s
unfolding by_bytes
by_bytes_inj [] r s h hr hs e = e
by_bytes_inj (y ∷ ys) r s h hr hs e =
    let a = bit_xor-lt 32 r y hr (omega (arith, h.0)) in
    let b = bit_xor-lt 32 s y hs (omega (arith, h.0)) in
    bit_xor_right r s y (
      crc_bits_inj 8 (bit_xor r y) (bit_xor s y) a b
        (by_bytes_inj ys _ _ h.1 (crc_bits-lt 8 (bit_xor r y) a) (crc_bits-lt 8 (bit_xor s y) b) e))

by_bytes_changed :
    (xs ys : Bytes) (a b r : ℕ)
    → All IsByte xs
    → All IsByte ys
    → a < 256
    → b < 256
    → r < 2 ^ 32
    → by_bytes r (xs ++ a ∷ ys) ≡ by_bytes r (xs ++ b ∷ ys)
    → a ≡ b
unfolding by_bytes
by_bytes_changed [] ys a b r hx hy ha hb hr e =
    let p = bit_xor-lt 32 r a hr (omega arith) in
    let q = bit_xor-lt 32 r b hr (omega arith) in
    bit_xor_left r a b (
      crc_bits_inj 8 (bit_xor r a) (bit_xor r b) p q
        (by_bytes_inj ys _ _ hy (crc_bits-lt 8 (bit_xor r a) p) (crc_bits-lt 8 (bit_xor r b) q) e))
by_bytes_changed (x ∷ xs) ys a b r hx hy ha hb hr e =
    by_bytes_changed xs ys a b _ hx.1 hy ha hb
      (crc_bits-lt 8 (bit_xor r x) (bit_xor-lt 32 r x hr (omega (arith, hx.0)))) e

by_bytes-lt : (bytes : Bytes) (r : ℕ) → All IsByte bytes → r < 2 ^ 32 → by_bytes r bytes < 2 ^ 32
unfolding by_bytes
by_bytes-lt [] r h k = k
by_bytes-lt (b ∷ bytes) r h k =
    by_bytes-lt bytes _ h.1 (crc_bits-lt 8 (bit_xor r b) (bit_xor-lt 32 r b k (omega (arith, h.0))))

-- If `crc32` does not tell apart bytes that differ in one place at most, then they are the same.
pub crc32_changed :
    (xs ys : Bytes) (a b : ℕ)
    → All IsByte xs
    → All IsByte ys
    → a < 256
    → b < 256
    → crc32 (xs ++ a ∷ ys) ≡ crc32 (xs ++ b ∷ ys)
    → a ≡ b
crc32_changed xs ys a b hx hy ha hb e =
    let ones : 2 ^ 32 - 1 < 2 ^ 32 = omega arith in
    let all_a = All-append IsByte xs (a ∷ ys) hx (ha, hy) in
    let all_b = All-append IsByte xs (b ∷ ys) hx (hb, hy) in
    by_bytes_changed xs ys a b (2 ^ 32 - 1) hx hy ha hb ones (
      omega (
        arith,
        crc32-by_bytes (xs ++ a ∷ ys) all_a,
        crc32-by_bytes (xs ++ b ∷ ys) all_b,
        by_bytes-lt (xs ++ a ∷ ys) (2 ^ 32 - 1) all_a ones,
        by_bytes-lt (xs ++ b ∷ ys) (2 ^ 32 - 1) all_b ones,
        e,
      ))
