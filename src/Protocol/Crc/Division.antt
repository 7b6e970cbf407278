-- ===== src/Protocol/Crc/Division.antt =====
-- The table-driven checksum against the division by the polynomial, bit by bit.
use cobs_io_async_rs.Prelude.Xor.{
  bit_xor-zero, bit_xor-half, bit_xor-low, bit_xor_comm, bit_xor_assoc, bit_xor_swap, bit_xor-lt,
  bit_xor-split,
}
use cobs_io_async_rs.Prelude.{
  ℕ, zero, suc, ◌+◌, ◌-◌, ◌*◌, ◌/◌, ◌%◌, ◌^◌, ◌<◌, ◌≡◌, refl, sym, ap, ◌∙◌, [], ◌∷◌, Bytes, All,
  IsByte, get_or, bit_xor, arith,
}
use cobs_io_async_rs.Protocol.Crc.{
  crc_bit, crc_bits, crc_entry, crc_entries, crc_table, crc_byte, complement, crc32,
}
use mathlib.Core.List.{foldl}
use native.Mathlib.Nat.{pow-suc}

-- The polynomial, or nothing.
abbrev pub divisor : ℕ → ℕ
divisor zero = 0
divisor (suc bit) = 0xEDB88320

pub crc_bit_lem : (x : ℕ) → crc_bit x ≡ bit_xor (x / 2) (divisor (x % 2))
unfolding crc_bit
crc_bit_lem x = by_low (x % 2) refl
  where
    by_low : (low : ℕ) → x % 2 ≡ low → crc_bit x ≡ bit_xor (x / 2) (divisor low)
    by_low zero e = rw e (sym (bit_xor-zero (x / 2)))
    by_low (suc zero) e = rw e refl
    by_low (suc (suc low)) e = absurd (omega arith)

divisor_xor : (x y : ℕ) → divisor ((x + y) % 2) ≡ bit_xor (divisor (x % 2)) (divisor (y % 2))
divisor_xor x y = by_digits (x % 2) (y % 2) refl refl
  where
    by_digits :
        (p q : ℕ) → x % 2 ≡ p → y % 2 ≡ q → divisor ((x + y) % 2) ≡ bit_xor (divisor p) (divisor q)
    by_digits zero zero e f = ap divisor (let z : (x + y) % 2 ≡ 0 = omega arith in z)
    by_digits zero (suc zero) e f = ap divisor (let z : (x + y) % 2 ≡ 1 = omega arith in z)
    by_digits (suc zero) zero e f = ap divisor (let z : (x + y) % 2 ≡ 1 = omega arith in z)
    by_digits (suc zero) (suc zero) e f = ap divisor (let z : (x + y) % 2 ≡ 0 = omega arith in z)
    by_digits (suc (suc p)) q e f = absurd (omega arith)
    by_digits zero (suc (suc q)) e f = absurd (omega arith)
    by_digits (suc zero) (suc (suc q)) e f = absurd (omega arith)

-- A step of the division is linear.
crc_bit-bit_xor : (x y : ℕ) → crc_bit (bit_xor x y) ≡ bit_xor (crc_bit x) (crc_bit y)
crc_bit-bit_xor x y =
    crc_bit_lem (bit_xor x y)
    ∙ rw (bit_xor-half x y, bit_xor-low x y, divisor_xor x y) refl
    ∙ bit_xor_swap (x / 2) (y / 2) (divisor (x % 2)) (divisor (y % 2))
    ∙ sym (rw (crc_bit_lem x, crc_bit_lem y) refl)

pub crc_bits-bit_xor :
    (n x y : ℕ) → crc_bits n (bit_xor x y) ≡ bit_xor (crc_bits n x) (crc_bits n y)
unfolding crc_bits
crc_bits-bit_xor zero x y = refl
crc_bits-bit_xor (suc n) x y =
    ap (crc_bits n) (crc_bit-bit_xor x y) ∙ crc_bits-bit_xor n (crc_bit x) (crc_bit y)

crc_bit_even : (k : ℕ) → crc_bit (k * 2) ≡ k
crc_bit_even k =
    let low : (k * 2) % 2 ≡ 0 = omega arith in
    let half : (k * 2) / 2 ≡ k = omega arith in
    crc_bit_lem (k * 2) ∙ rw (low, half) (bit_xor-zero k)

crc_bits-zero : (x : ℕ) → crc_bits 0 x ≡ x
unfolding crc_bits
crc_bits-zero x = refl

crc_bits_even : (n k : ℕ) → crc_bits (suc n) (k * 2) ≡ crc_bits n k
unfolding crc_bits
crc_bits_even n k = ap (crc_bits n) (crc_bit_even k)

-- Steps on a number whose low digits are zero.
crc_bits_shift : (n h : ℕ) → crc_bits n (h * 2 ^ n) ≡ h
crc_bits_shift zero h = crc_bits-zero (h * 2 ^ 0) ∙ omega arith
crc_bits_shift (suc n) h =
    let e : h * 2 ^ suc n ≡ (h * 2 ^ n) * 2 = omega (arith, ap (λ x. h * x) (pow-suc 2 n)) in
    ap (crc_bits (suc n)) e ∙ crc_bits_even n (h * 2 ^ n) ∙ crc_bits_shift n h

get_or-crc_entries : (n s i : ℕ) → i < n → get_or (crc_entries n s) i 0 ≡ crc_entry (s + i)
unfolding crc_entries
get_or-crc_entries zero s i h = absurd (omega arith)
get_or-crc_entries (suc n) s zero h = ap crc_entry (omega arith)
get_or-crc_entries (suc n) s (suc i) h =
    get_or-crc_entries n (s + 1) i (omega arith) ∙ ap crc_entry (omega arith)

-- A byte by the table is eight steps of the division.
crc_byte_lem : (crc byte : ℕ) → byte < 256 → crc_byte crc byte ≡ crc_bits 8 (bit_xor crc byte)
unfolding crc_byte crc_table crc_entry
crc_byte_lem crc byte h =
    let low : ℕ = crc % 256 in
    let high : ℕ = crc / 256 in
    ap (λ x. bit_xor x high)
      (get_or-crc_entries 256 0 (bit_xor low byte) (bit_xor-lt 8 low byte (omega arith) h))
    ∙ ap (λ x. bit_xor (crc_entry x) high) (omega arith)
    ∙ ap (bit_xor (crc_bits 8 (bit_xor low byte))) (sym (crc_bits_shift 8 high))
    ∙ sym (crc_bits-bit_xor 8 (bit_xor low byte) (high * 2 ^ 8))
    ∙ ap (crc_bits 8) (
        bit_xor_assoc low byte (high * 2 ^ 8)
        ∙ ap (bit_xor low) (bit_xor_comm byte (high * 2 ^ 8))
        ∙ sym (bit_xor_assoc low (high * 2 ^ 8) byte)
        ∙ ap (λ x. bit_xor x byte) (bit_xor-split crc))

-- The register after the bytes, from `crc` on, each added to it before the eight steps.
unfoldable pub by_bytes : ℕ → Bytes → ℕ
unfolding crc_bits
by_bytes crc [] = crc
by_bytes crc (byte ∷ bytes) = by_bytes (crc_bits 8 (bit_xor crc byte)) bytes

foldl-by_bytes :
    (crc : ℕ) (bytes : Bytes) → All IsByte bytes → foldl crc_byte crc bytes ≡ by_bytes crc bytes
unfolding by_bytes
foldl-by_bytes crc [] h = refl
foldl-by_bytes crc (byte ∷ bytes) h =
    ap (λ x. foldl crc_byte x bytes) (crc_byte_lem crc byte h.0)
    ∙ foldl-by_bytes (crc_bits 8 (bit_xor crc byte)) bytes h.1

pub crc32-by_bytes :
    (bytes : Bytes) → All IsByte bytes → crc32 bytes ≡ complement (by_bytes (2 ^ 32 - 1) bytes)
unfolding crc32
crc32-by_bytes bytes h = ap complement (foldl-by_bytes (2 ^ 32 - 1) bytes h)

-- The `n` low digits of a number, in the other order.
abbrev pub reflected : ℕ → ℕ → ℕ
reflected zero x = 0
reflected (suc n) x = (x % 2) * 2 ^ n + reflected n (x / 2)

-- The polynomial of CRC-32/ISO-HDLC without its leading term.
abbrev pub polynomial : ℕ
polynomial = 0x04C11DB7

abbrev pub subtracted : ℕ → ℕ
subtracted zero = 0
subtracted (suc odd) = reflected 32 polynomial

-- One digit of the message goes in: the digit that it takes out of the register tells whether the
-- polynomial is subtracted.
abbrev pub take_in : ℕ → ℕ → ℕ
take_in crc digit = bit_xor (crc / 2) (subtracted ((crc + digit) % 2))

-- `n` digits of a byte, the lowest one first.
abbrev pub divide_byte : ℕ → ℕ → ℕ → ℕ
divide_byte zero crc byte = crc
divide_byte (suc n) crc byte = divide_byte n (take_in crc (byte % 2)) (byte / 2)

-- The register after a message, from `crc` on.
abbrev pub divide : ℕ → Bytes → ℕ
divide crc [] = crc
divide crc (byte ∷ bytes) = divide (divide_byte 8 crc byte) bytes

divisor-subtracted : (digit : ℕ) → divisor digit ≡ subtracted digit
divisor-subtracted zero = refl
divisor-subtracted (suc odd) = refl

crc_bit-take_in : (crc x : ℕ) → crc_bit (bit_xor crc x) ≡ bit_xor (take_in crc (x % 2)) (x / 2)
crc_bit-take_in crc x =
    let digit : (crc + x) % 2 ≡ (crc + x % 2) % 2 = omega arith in
    crc_bit_lem (bit_xor crc x)
    ∙ rw (bit_xor-half crc x, bit_xor-low crc x, digit, divisor-subtracted ((crc + x % 2) % 2)) refl
    ∙ bit_xor_assoc (crc / 2) (x / 2) (subtracted ((crc + x % 2) % 2))
    ∙ ap (bit_xor (crc / 2)) (bit_xor_comm (x / 2) (subtracted ((crc + x % 2) % 2)))
    ∙ sym (bit_xor_assoc (crc / 2) (subtracted ((crc + x % 2) % 2)) (x / 2))

crc_bits-divide_byte : (n crc x : ℕ) → x < 2 ^ n → crc_bits n (bit_xor crc x) ≡ divide_byte n crc x
unfolding crc_bits
crc_bits-divide_byte zero crc x h =
    let e : x ≡ 0 = omega arith in ap (bit_xor crc) e ∙ bit_xor-zero crc
crc_bits-divide_byte (suc n) crc x h =
    ap (crc_bits n) (crc_bit-take_in crc x)
    ∙ crc_bits-divide_byte n (take_in crc (x % 2)) (x / 2) (omega (arith, pow-suc 2 n))

by_bytes-divide :
    (bytes : Bytes) (crc : ℕ) → All IsByte bytes → by_bytes crc bytes ≡ divide crc bytes
unfolding by_bytes
by_bytes-divide [] crc h = refl
by_bytes-divide (byte ∷ bytes) crc h =
    ap (λ x. by_bytes x bytes) (crc_bits-divide_byte 8 crc byte h.0)
    ∙ by_bytes-divide bytes (divide_byte 8 crc byte) h.1

-- Of bytes, the table-driven `crc32` is the complement of what remains of a register of ones after the
-- division by the polynomial 0x04C11DB7, reflected, into which the bytes go one digit at a time, the
-- lowest digit of each byte first.
pub crc32-divide :
    (bytes : Bytes) → All IsByte bytes → crc32 bytes ≡ complement (divide (2 ^ 32 - 1) bytes)
crc32-divide bytes h = crc32-by_bytes bytes h ∙ ap complement (by_bytes-divide bytes (2 ^ 32 - 1) h)
