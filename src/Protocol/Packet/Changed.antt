-- ===== src/Protocol/Packet/Changed.antt =====
-- `parse` of bytes of which one is changed.
use cobs_io_async_rs.Prelude.{
  ℕ, zero, suc, ◌+◌, ◌-◌, ◌≤◌, ◌<◌, ◌≡◌, refl, sym, ap, ◌∙◌, [], ◌∷◌, ◌++◌, Bytes, Option, none,
  some, All, All-append, All-drop, All-take, subst, IsByte, length, length-append, length-drop,
  take, drop, from_be_bytes, to_be_bytes, to_be_bytes-from_be_bytes, dec_lt, arith,
}
use cobs_io_async_rs.Protocol.Crc.Detection.{crc32_changed}
use cobs_io_async_rs.Protocol.Crc.{crc32}
use cobs_io_async_rs.Protocol.Packet.Parsed.{parse_checked}
use cobs_io_async_rs.Protocol.Packet.{Packet, parse}
use cobs_io_async_rs.Protocol.Payload.{crc_len}

take_past :
    (xs ys : Bytes) (a n k : ℕ)
    → n ≡ length xs + suc k
    → take n (xs ++ a ∷ ys) ≡ xs ++ a ∷ take k ys
take_past [] ys a zero k e = absurd (omega arith)
take_past [] ys a (suc n) k e = ap (λ m. a ∷ take m ys) (omega arith)
take_past (x ∷ xs) ys a zero k e = absurd (omega arith)
take_past (x ∷ xs) ys a (suc n) k e = ap (λ r. x ∷ r) (take_past xs ys a n k (omega arith))

drop_past : (xs ys : Bytes) (a n k : ℕ) → n ≡ length xs + suc k → drop n (xs ++ a ∷ ys) ≡ drop k ys
drop_past [] ys a zero k e = absurd (omega arith)
drop_past [] ys a (suc n) k e = ap (λ m. drop m ys) (omega arith)
drop_past (x ∷ xs) ys a zero k e = absurd (omega arith)
drop_past (x ∷ xs) ys a (suc n) k e = drop_past xs ys a n k (omega arith)

take_within : (xs ys : Bytes) (n : ℕ) → n ≤ length xs → take n (xs ++ ys) ≡ take n xs
take_within xs ys zero h = refl
take_within [] ys (suc n) h = absurd (omega arith)
take_within (x ∷ xs) ys (suc n) h = ap (λ r. x ∷ r) (take_within xs ys n (omega arith))

drop_within : (xs ys : Bytes) (n : ℕ) → n ≤ length xs → drop n (xs ++ ys) ≡ drop n xs ++ ys
drop_within xs ys zero h = refl
drop_within [] ys (suc n) h = absurd (omega arith)
drop_within (x ∷ xs) ys (suc n) h = drop_within xs ys n (omega arith)

-- What follows the same bytes.
same_head : (xs ys : Bytes) (a b : ℕ) → xs ++ a ∷ ys ≡ xs ++ b ∷ ys → a ≡ b
same_head [] ys a b e = cc e
same_head (x ∷ xs) ys a b e = same_head xs ys a b (ap (drop 1) e)

four_bytes :
    (xs ys : Bytes)
    → 4 ≡ length xs
    → 4 ≡ length ys
    → All IsByte xs
    → All IsByte ys
    → from_be_bytes xs ≡ from_be_bytes ys
    → xs ≡ ys
four_bytes xs ys m n h k e =
    sym (to_be_bytes-from_be_bytes 4 xs m h)
    ∙ ap (to_be_bytes 4) e
    ∙ to_be_bytes-from_be_bytes 4 ys n k

parse_same :
    (xs ys : Bytes) (a b : ℕ) {p q : Packet}
    → All IsByte xs
    → All IsByte ys
    → a < 256
    → b < 256
    → parse (xs ++ a ∷ ys) ≡ some p
    → parse (xs ++ b ∷ ys) ≡ some q
    → a ≡ b
parse_same xs ys a b hx hy ha hb e f =
    let (long, c) = parse_checked (xs ++ a ∷ ys) e in
    let (long', d) = parse_checked (xs ++ b ∷ ys) f in
    let pa : Bytes = xs ++ a ∷ ys in
    let pb : Bytes = xs ++ b ∷ ys in
    let n : ℕ = length (xs ++ a ∷ ys) - crc_len in
    let m : ℕ = length (xs ++ b ∷ ys) - crc_len in
    let nm : m ≡ n = omega (arith, length-append xs (a ∷ ys), length-append xs (b ∷ ys)) in
    let d' : crc32 (take n pb) ≡ from_be_bytes (drop n pb) =
      subst (λ i. crc32 (take i pb) ≡ from_be_bytes (drop i pb)) nm d in
    elim (dec_lt (length xs) n) [
      | yes in_body ↦
          let k : ℕ = n - length xs - 1 in
          let at : n ≡ length xs + suc k = omega arith in
          crc32_changed xs (take k ys) a b hx (All-take IsByte k ys hy) ha hb (
            ap crc32 (sym (take_past xs ys a n k at))
            ∙ c
            ∙ ap from_be_bytes (drop_past xs ys a n k at ∙ sym (drop_past xs ys b n k at))
            ∙ sym d'
            ∙ ap crc32 (take_past xs ys b n k at))
      | no in_crc ↦
          let le : n ≤ length xs = omega arith in
          same_head (drop n xs) ys a b (
            four_bytes (drop n xs ++ a ∷ ys) (drop n xs ++ b ∷ ys)
              (omega (
                arith,
                length-append xs (a ∷ ys),
                length-append (drop n xs) (a ∷ ys),
                length-drop n xs,
              ))
              (omega (
                arith,
                length-append xs (a ∷ ys),
                length-append (drop n xs) (b ∷ ys),
                length-drop n xs,
              ))
              (All-append IsByte (drop n xs) (a ∷ ys) (All-drop IsByte n xs hx) (ha, hy))
              (All-append IsByte (drop n xs) (b ∷ ys) (All-drop IsByte n xs hx) (hb, hy))
              (ap from_be_bytes (sym (drop_within xs (a ∷ ys) n le))
                ∙ sym c
                ∙ ap crc32 (take_within xs (a ∷ ys) n le ∙ sym (take_within xs (b ∷ ys) n le))
                ∙ d'
                ∙ ap from_be_bytes (drop_within xs (b ∷ ys) n le)))
    ]

-- If `parse` accepts a sequence of bytes, then it rejects what another byte in one of its places
-- makes of it.
pub parse_changed :
    (xs ys : Bytes) (a b : ℕ) {p : Packet}
    → All IsByte xs
    → All IsByte ys
    → a < 256
    → b < 256
    → parse (xs ++ a ∷ ys) ≡ some p
    → (a ≡ b → ⊥)
    → parse (xs ++ b ∷ ys) ≡ none
parse_changed xs ys a b hx hy ha hb e other = by_result (parse (xs ++ b ∷ ys)) refl
  where
    by_result : (r : Option Packet) → parse (xs ++ b ∷ ys) ≡ r → parse (xs ++ b ∷ ys) ≡ none
    by_result none f = f
    by_result (some q) f = absurd (other (parse_same xs ys a b hx hy ha hb e f))
