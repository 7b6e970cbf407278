-- ===== src/Protocol/Payload/Largest.antt =====
-- `max_payload` against `max_encoding_length`.
use cobs_io_async_rs.Prelude.{
  ℕ, zero, suc, ◌+◌, ◌-◌, ◌^◌, ◌≤◌, ◌<◌, ◌≡◌, ◌⊎◌, inl, inr, ◌↔◌, ◌&&◌, ltb, Bool-cases, dec_lt,
  arith,
}
use cobs_io_async_rs.Protocol.Payload.{overhead, shrink, max_payload}
use cobs_io_async_rs.Sizes.Bounds.{max_encoding_overhead_formula, max_encoding_length_exact}
use cobs_io_async_rs.Sizes.{max_encoding_length}

max_encoding_length_mono :
    (m n : ℕ) → m ≤ n → n < 2 ^ 63 → max_encoding_length m ≤ max_encoding_length n
max_encoding_length_mono m n h k = omega (
  arith,
  max_encoding_length_exact m (omega arith),
  max_encoding_length_exact n k,
  max_encoding_overhead_formula m,
  max_encoding_overhead_formula n,
)

lt-max_encoding_length : (n : ℕ) → n < 2 ^ 63 → n < max_encoding_length n
lt-max_encoding_length n h =
    omega (arith, max_encoding_length_exact n h, max_encoding_overhead_formula n)

-- The loop stops at the first length that fits, or that leaves no payload.
record Shrunk (body len r : ℕ) : Type 0 where
  bound : r ≤ len
  skipped : (m : ℕ) → r < m → m ≤ len → body < max_encoding_length m
  stopped : (r ≤ overhead) ⊎ (max_encoding_length r ≤ body)

shrink-Shrunk : (body len : ℕ) → Shrunk body len (shrink body len)
unfolding shrink
shrink-Shrunk body zero = record {
  bound = omega arith;
  skipped = λ m a b. absurd (omega arith);
  stopped = inl (omega arith);
}
shrink-Shrunk body (suc len) =
    elim (Bool-cases (ltb overhead (suc len) && ltb body (max_encoding_length (suc len)))) [
      | inl e ↦
          let ih = shrink-Shrunk body len in
          rw (e, shrink)
            (record {
              bound = omega (arith, ih.bound);
              skipped = λ m a b. elim (dec_lt len m) [
                | yes last ↦ let m' : m ≡ suc len = omega arith in rw m' (ground arith)
                | no before ↦ ih.skipped m a (omega arith)
              ];
              stopped = ih.stopped;
            })
      | inr e ↦
          rw (e, shrink)
            (record {
              bound = omega arith;
              skipped = λ m a b. absurd (omega arith);
              stopped = ground arith;
            })
    ]

-- The loop's result, less the overhead, against the sizes that fit.
Shrunk-fits :
    (body payload r : ℕ)
    → body < 2 ^ 63
    → 0 < payload
    → Shrunk body body r
    → payload ≤ r - overhead
    → max_encoding_length (payload + overhead) ≤ body
Shrunk-fits body payload r h pos s p = elim s.stopped [
  | inl none_left ↦ absurd (omega arith)
  | inr fits ↦ omega (
    arith,
    s.bound,
    max_encoding_length_mono (payload + overhead) r (omega arith) (omega (arith, s.bound)),
  )
]

Shrunk-le :
    (body payload r : ℕ)
    → payload < 2 ^ 62
    → Shrunk body body r
    → max_encoding_length (payload + overhead) ≤ body
    → payload ≤ r - overhead
Shrunk-le body payload r k s fits = elim (dec_lt r (payload + overhead)) [
  | yes less ↦ absurd (
      omega (
        arith,
        s.skipped (payload + overhead) less
            (omega (arith, lt-max_encoding_length (payload + overhead) (omega arith))),
      ))
  | no enough ↦ omega arith
]

-- For a capacity below 2 ^ 63, a nonempty payload of fewer than 2 ^ 62 bytes is within `max_payload`
-- exactly when `max_encoding_length` of its packet, plus two delimiters, is at most the capacity.
pub max_payload_largest :
    (capacity payload : ℕ)
    → capacity < 2 ^ 63
    → payload < 2 ^ 62
    → 0 < payload
    → (payload ≤ max_payload capacity) ↔ (max_encoding_length (payload + overhead) + 2 ≤ capacity)
unfolding max_payload
max_payload_largest capacity payload h k pos = elim (Bool-cases (ltb capacity 2)) [
  | inl small ↦ rw small ((λ p. absurd (omega arith)), λ p. absurd (ground arith))
  | inr large ↦
      let s = shrink-Shrunk (capacity - 2) (capacity - 2) in
      let room : 2 ≤ capacity = ground arith in
      rw large (
        (λ p. omega (arith, Shrunk-fits (capacity - 2) payload _ (omega arith) pos s p)),
        λ p. Shrunk-le (capacity - 2) payload _ k s (omega arith),
      )
]

pub max_payload-le : (capacity : ℕ) → max_payload capacity ≤ capacity - 2 - overhead
unfolding max_payload
max_payload-le capacity = elim (Bool-cases (ltb capacity 2)) [
  | inl small ↦ rw small (omega arith)
  | inr large ↦ rw large (omega (arith, (shrink-Shrunk (capacity - 2) (capacity - 2)).bound))
]
