-- ===== src/Sync/Stuffing/Bounds.antt =====
-- The length of a COBS body, and the bytes that it is made of.
use Prim.Native.Nat.{max}
use cobs_io_async_rs.Prelude.{
  ℕ, ◌+◌, ◌/◌, ◌^◌, ◌≤◌, ◌<◌, ◌≢◌, ap, [], ◌∷◌, ◌++◌, Bytes, All, All-append, length, length-append,
  arith, ℕ_discrete,
}
use cobs_io_async_rs.Sizes.Bounds.{max_encoding_overhead_formula, max_encoding_length_exact}
use cobs_io_async_rs.Sizes.{max_encoding_length}
use cobs_io_async_rs.Sync.Stuffing.{
  stuff, stuff_from, stuff_after, stuff_from-nil, stuff_from-zero, stuff_from-full, stuff_from-more,
}

-- The bound for a payload of `n` bytes, whose current block is counted in.
abbrev most : ℕ → ℕ
most n = n + max 1 ((n + 253) / 254)

abbrev IsShort : Bytes → Type 0
IsShort source =
    (run : Bytes)
    → length run ≤ 253
    → length (stuff_from run source) ≤ most (length run + length source)

stuff_after-le :
    (xs : Bytes) → IsShort xs → length (stuff_after xs) ≤ length xs + (length xs + 253) / 254
stuff_after-le [] s = omega arith
stuff_after-le (x ∷ xs) s = omega (arith, s [] (omega arith))

stuff_from-IsShort : (source : Bytes) → IsShort source
stuff_from-IsShort [] run h = omega (arith, ap length (stuff_from-nil run))
stuff_from-IsShort (x ∷ xs) run h = elim (ℕ_discrete x 0) [
  | yes z ↦ omega (
    arith,
    ap length (stuff_from-zero run x xs z),
    length-append run (stuff_from [] xs),
    stuff_from-IsShort xs [] (omega arith),
  )
  | no nz ↦ elim (ℕ_discrete (length run) 253) [
    | yes f ↦ omega (
      arith,
      ap length (stuff_from-full run x xs nz f),
      length-append run (x ∷ stuff_after xs),
      stuff_after-le xs (stuff_from-IsShort xs),
    )
    | no nf ↦ omega (
      arith,
      ap length (stuff_from-more run x xs nz nf),
      length-append run (x ∷ []),
      stuff_from-IsShort xs (run ++ x ∷ []) (omega (arith, length-append run (x ∷ []))),
    )
  ]
]

abbrev IsLong : Bytes → Type 0
IsLong source = (run : Bytes) → length run + length source < length (stuff_from run source)

length-stuff_after : (xs : Bytes) → IsLong xs → length xs ≤ length (stuff_after xs)
length-stuff_after [] s = omega arith
length-stuff_after (x ∷ xs) s = omega (arith, s [])

stuff_from-IsLong : (source : Bytes) → IsLong source
stuff_from-IsLong [] run = omega (arith, ap length (stuff_from-nil run))
stuff_from-IsLong (x ∷ xs) run = elim (ℕ_discrete x 0) [
  | yes z ↦ omega (
    arith,
    ap length (stuff_from-zero run x xs z),
    length-append run (stuff_from [] xs),
    stuff_from-IsLong xs [],
  )
  | no nz ↦ elim (ℕ_discrete (length run) 253) [
    | yes f ↦ omega (
      arith,
      ap length (stuff_from-full run x xs nz f),
      length-append run (x ∷ stuff_after xs),
      length-stuff_after xs (stuff_from-IsLong xs),
    )
    | no nf ↦ omega (
      arith,
      ap length (stuff_from-more run x xs nz nf),
      length-append run (x ∷ []),
      stuff_from-IsLong xs (run ++ x ∷ []),
    )
  ]
]

-- A body is longer than its payload.
pub length-stuff-lt : (source : Bytes) → length source < length (stuff source)
length-stuff-lt source = omega (arith, stuff_from-IsLong source [])

-- `max_encoding_length` bytes are enough for the body of any payload.
pub length-stuff-le :
    (source : Bytes)
    → length source < 2 ^ 63
    → length (stuff source) ≤ max_encoding_length (length source)
length-stuff-le source h = omega (
  arith,
  stuff_from-IsShort source [] (omega arith),
  max_encoding_overhead_formula (length source),
  max_encoding_length_exact (length source) h,
)

-- What holds of every code byte and every nonzero payload byte holds of the whole body.
module _ (P : ℕ → Type 0) (code : (n : ℕ) → n < 255 → P (n + 1)) where
  abbrev Holds : Bytes → Type 0
  Holds source = (run : Bytes) → length run ≤ 253 → All P run → All P (stuff_from run source)

  stuff_after-All : (xs : Bytes) → Holds xs → All P (stuff_after xs)
  stuff_after-All [] h = tt
  stuff_after-All (x ∷ xs) h = h [] (omega arith) tt

  stuff_from-All : (source : Bytes) → All (λ x. x ≢ 0 → P x) source → Holds source
  stuff_from-All [] hs run h hr = rw stuff_from-nil (code (length run) (omega arith), hr)
  stuff_from-All (x ∷ xs) hs run h hr = elim (ℕ_discrete x 0) [
    | yes z ↦ rw (stuff_from-zero run x xs z) (
      code (length run) (omega arith),
      All-append P run _ hr (stuff_from-All xs hs.1 [] (omega arith) tt),
    )
    | no nz ↦ elim (ℕ_discrete (length run) 253) [
      | yes f ↦ rw (stuff_from-full run x xs nz f) (
        code 254 (omega arith),
        All-append P run _ hr (hs.0 nz, stuff_after-All xs (stuff_from-All xs hs.1)),
      )
      | no nf ↦ rw (stuff_from-more run x xs nz nf) (
          stuff_from-All xs hs.1 (run ++ x ∷ []) (omega (arith, length-append run (x ∷ [])))
            (All-append P run _ hr (hs.0 nz, tt)))
    ]
  ]

trivially : (source : Bytes) → All (λ x. x ≢ 0 → x ≢ 0) source
trivially [] = tt
trivially (x ∷ xs) = (λ h. h, trivially xs)

-- A body holds no zero, so that a zero can delimit it.
pub stuff_ne_zero : (source : Bytes) → All (λ b. b ≢ 0) (stuff source)
stuff_ne_zero source =
    stuff_from-All (λ b. b ≢ 0) (λ n h. omega arith) source (trivially source) [] (omega arith) tt
