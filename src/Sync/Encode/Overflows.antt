-- ===== src/Sync/Encode/Overflows.antt =====
-- The loop of `encode_from_slice` where there is too little space for the whole body.
use cobs_io_async_rs.Error.{out_of_bounds}
use cobs_io_async_rs.Prelude.{
  ℕ, suc, ◌+◌, ◌≤◌, ◌<◌, ◌≡◌, ◌≢◌, refl, sym, ap, ◌∙◌, [], ◌∷◌, ◌++◌, append_assoc, Bytes, none,
  some, err, length, length-append, write_at, write_at_here, write_at_oob, arith, ℕ_discrete,
}
use cobs_io_async_rs.Sync.Encode.{new_block}
use cobs_io_async_rs.Sync.Encode.Rounds.{
  encode_rest, encode_rest-cons, after-err, output, block, full_block, layout, encode_byte-zero,
  encode_byte-zero_oob, encode_byte-full, encode_byte-full_oob, encode_byte-more,
  encode_byte-more_oob, encode_byte-place, encode_byte-place_oob, write_code, write_next,
  write_next_oob,
}
use cobs_io_async_rs.Sync.Output.{after}
use cobs_io_async_rs.Sync.Stuffing.{
  stuff_from, stuff_after, stuff_from-nil, stuff_from-zero, stuff_from-full, stuff_from-more,
}

-- From inside a block, with too little space for the rest of the body.
abbrev OverflowsFrom : Bytes → Bytes → Type 0
OverflowsFrom run source =
    (pre : Bytes) (ph : ℕ) (space dest : Bytes) (idx code len : ℕ)
    → idx ≡ length pre
    → code ≡ length run + 1
    → len ≡ length pre + (length run + 1)
    → suc (length run) + length space < length (stuff_from run source)
    → dest ≡ layout pre ph run space
    → (encode_rest (block idx code) source (output dest len)).1 ≡ err out_of_bounds

abbrev pub Overflows : Bytes → Type 0
Overflows source = (run : Bytes) → length run ≤ 253 → OverflowsFrom run source

-- The same behind a full block.
abbrev OverflowsAfter : Bytes → Type 0
OverflowsAfter source =
    (pre space dest : Bytes) (len : ℕ)
    → len ≡ length pre
    → length space < length (stuff_after source)
    → dest ≡ pre ++ space
    → (encode_rest (full_block len) source (output dest len)).1 ≡ err out_of_bounds

Overflows-zero :
    (x : ℕ) (xs : Bytes) → x ≡ 0 → Overflows xs → (run : Bytes) → OverflowsFrom run (x ∷ xs)
Overflows-zero x xs z ih run pre ph [] dest idx code len hi hc hl e hd =
    ap (λ r. r.1) (encode_rest-cons (block idx code) x xs (output dest len))
    ∙ after-err _ _ (encode_byte-zero_oob dest len idx code x z put next)
  where
    put : write_at dest idx code ≡ some (layout pre code run [])
    put = rw (hd, hi) (write_code pre ph code run [])

    next : write_at (layout pre code run []) len 0 ≡ none
    next = rw hl (write_next_oob pre code run 0)
Overflows-zero x xs z ih run pre ph (u ∷ us) dest idx code len hi hc hl e hd =
    ap (λ r. r.1)
      (encode_rest-cons (block idx code) x xs (output dest len)
        ∙ ap (λ r. after r (λ b. encode_rest b xs))
            (encode_byte-zero dest len idx code x z put next))
    ∙ ih [] (omega arith) (pre ++ code ∷ run) 0 us _ len 1 (len + 1)
        (omega (arith, length-append pre (code ∷ run))) refl
        (omega (arith, length-append pre (code ∷ run)))
        (omega
          (arith, ap length (stuff_from-zero run x xs z), length-append run (stuff_from [] xs)))
        (simp append_assoc)
  where
    put : write_at dest idx code ≡ some (layout pre code run (u ∷ us))
    put = rw (hd, hi) (write_code pre ph code run (u ∷ us))

    next : write_at (layout pre code run (u ∷ us)) len 0 ≡ some (layout pre code run (0 ∷ us))
    next = rw hl (write_next pre code run u 0 us)

Overflows-more :
    (x : ℕ) (xs : Bytes)
    → x ≢ 0
    → Overflows xs
    → (run : Bytes) → length run < 253
    → OverflowsFrom run (x ∷ xs)
Overflows-more x xs nz ih run h pre ph [] dest idx code len hi hc hl e hd =
    ap (λ r. r.1) (encode_rest-cons (block idx code) x xs (output dest len))
    ∙ after-err _ _ (
        encode_byte-more_oob dest len idx code x nz (omega arith)
          (rw (hd, hl) (write_next_oob pre ph run x)))
Overflows-more x xs nz ih run h pre ph (u ∷ us) dest idx code len hi hc hl e hd =
    ap (λ r. r.1)
      (encode_rest-cons (block idx code) x xs (output dest len)
        ∙ ap (λ r. after r (λ b. encode_rest b xs))
            (encode_byte-more dest len idx code x nz (omega arith) next))
    ∙ ih (run ++ x ∷ []) (omega (arith, one)) pre ph us _ idx (code + 1) (len + 1) hi
        (omega (arith, one)) (omega (arith, one))
        (omega (arith, one, ap length (stuff_from-more run x xs nz (omega arith))))
        (simp append_assoc)
  where
    one : length (run ++ x ∷ []) ≡ length run + 1
    one = length-append run (x ∷ [])

    next : write_at dest len x ≡ some (layout pre ph run (x ∷ us))
    next = rw (hd, hl) (write_next pre ph run u x us)

Overflows-full :
    (x : ℕ) (xs : Bytes)
    → x ≢ 0
    → OverflowsAfter xs
    → (run : Bytes) → length run ≡ 253
    → OverflowsFrom run (x ∷ xs)
Overflows-full x xs nz ih run h pre ph [] dest idx code len hi hc hl e hd =
    ap (λ r. r.1) (encode_rest-cons (block idx code) x xs (output dest len))
    ∙ after-err _ _ (encode_byte-full_oob dest len idx code x nz (omega arith) put next)
  where
    put : write_at dest idx 255 ≡ some (layout pre 255 run [])
    put = rw (hd, hi) (write_code pre ph 255 run [])

    next : write_at (layout pre 255 run []) len x ≡ none
    next = rw hl (write_next_oob pre 255 run x)
Overflows-full x xs nz ih run h pre ph (u ∷ us) dest idx code len hi hc hl e hd =
    ap (λ r. r.1)
      (encode_rest-cons (block idx code) x xs (output dest len)
        ∙ ap (λ r. after r (λ b. encode_rest b xs))
            (encode_byte-full dest len idx code x nz (omega arith) put next))
    ∙ ih (pre ++ 255 ∷ (run ++ x ∷ [])) us _ (len + 1)
        (omega (arith, length-append pre (255 ∷ (run ++ x ∷ [])), length-append run (x ∷ [])))
        (omega (
          arith,
          ap length (stuff_from-full run x xs nz h),
          length-append run (x ∷ stuff_after xs),
        ))
        (simp append_assoc)
  where
    put : write_at dest idx 255 ≡ some (layout pre 255 run (u ∷ us))
    put = rw (hd, hi) (write_code pre ph 255 run (u ∷ us))

    next : write_at (layout pre 255 run (u ∷ us)) len x ≡ some (layout pre 255 run (x ∷ us))
    next = rw hl (write_next pre 255 run u x us)

OverflowsAfter-Overflows : (xs : Bytes) → Overflows xs → OverflowsAfter xs
OverflowsAfter-Overflows [] w pre space dest len hl e hd = absurd (omega arith)
OverflowsAfter-Overflows (x ∷ xs) w pre [] dest len hl e hd =
    ap (λ r. r.1) (encode_rest-cons (full_block len) x xs (output dest len))
    ∙ after-err _ _ (
        encode_byte-place_oob dest len len 1 x
          (write_at_oob dest len 0 (omega (arith, ap length hd, length-append pre []))))
OverflowsAfter-Overflows (x ∷ xs) w pre (u ∷ us) dest len hl e hd =
    ap (λ r. r.1)
      (encode_rest-cons (full_block len) x xs (output dest len)
        ∙ ap (λ r. after r (λ b. encode_rest b xs))
            (encode_byte-place dest len len 1 x (rw hd (write_at_here pre us u 0 hl)))
        ∙ sym (encode_rest-cons (new_block len) x xs _))
    ∙ w [] (omega arith) pre 0 us _ len 1 (len + 1) hl refl (omega arith) (omega arith) refl

Overflows-nil : (run : Bytes) → OverflowsFrom run []
Overflows-nil run pre ph space dest idx code len hi hc hl e hd =
    absurd (omega (arith, ap length (stuff_from-nil run)))

pub encode_rest-Overflows : (source : Bytes) → Overflows source
encode_rest-Overflows [] run h = Overflows-nil run
encode_rest-Overflows (x ∷ xs) run h = elim (ℕ_discrete x 0) [
  | yes z ↦ Overflows-zero x xs z (encode_rest-Overflows xs) run
  | no nz ↦ elim (ℕ_discrete (length run) 253) [
    | yes f ↦ Overflows-full x xs nz (OverflowsAfter-Overflows xs (encode_rest-Overflows xs)) run f
    | no nf ↦ Overflows-more x xs nz (encode_rest-Overflows xs) run (omega arith)
  ]
]
