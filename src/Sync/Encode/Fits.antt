-- ===== src/Sync/Encode/Fits.antt =====
-- The loop of `encode_from_slice` where there is space for the whole body.
use cobs_io_async_rs.Prelude.{
  ℕ, suc, ◌+◌, ◌≤◌, ◌<◌, ◌≡◌, ◌≢◌, refl, sym, ap, ◌∙◌, [], ◌∷◌, ◌++◌, append_assoc, Bytes, some, ok,
  length, length-append, write_at, write_at_here, arith, ℕ_discrete,
}
use cobs_io_async_rs.Sync.Encode.{new_block, encode_loop, close_block}
use cobs_io_async_rs.Sync.Encode.Rounds.{
  encode_rest, encode_rest-cons, output, block, full_block, layout, encode_byte-zero,
  encode_byte-full, encode_byte-more, encode_byte-place, write_code, write_next,
}
use cobs_io_async_rs.Sync.Output.{after}
use cobs_io_async_rs.Sync.Stuffing.{
  stuff_from, stuff_after, stuff_from-nil, stuff_from-zero, stuff_from-full, stuff_from-more,
  length-stuff_from,
}

-- From inside a block, with space for exactly the rest of the body before `unused`.
abbrev pub WritesFrom : Bytes → Bytes → Type 0
WritesFrom run source =
    (pre : Bytes) (ph : ℕ) (used unused dest out : Bytes) (idx code len n : ℕ)
    → idx ≡ length pre
    → code ≡ length run + 1
    → len ≡ length pre + (length run + 1)
    → n ≡ length pre + length (stuff_from run source)
    → length (stuff_from run source) ≡ suc (length run) + length used
    → dest ≡ layout pre ph run (used ++ unused)
    → out ≡ pre ++ (stuff_from run source ++ unused)
    → encode_rest (block idx code) source (output dest len) ≡ (output out n, ok n)

abbrev pub Writes : Bytes → Type 0
Writes source = (run : Bytes) → length run ≤ 253 → WritesFrom run source

-- The same behind a full block.
abbrev pub WritesAfter : Bytes → Type 0
WritesAfter source =
    (pre used unused dest out : Bytes) (len n : ℕ)
    → len ≡ length pre
    → n ≡ length pre + length (stuff_after source)
    → length (stuff_after source) ≡ length used
    → dest ≡ pre ++ (used ++ unused)
    → out ≡ pre ++ (stuff_after source ++ unused)
    → encode_rest (full_block len) source (output dest len) ≡ (output out n, ok n)

Writes-nil : (run : Bytes) → WritesFrom run []
unfolding encode_rest encode_loop close_block
Writes-nil run pre ph [] unused dest out idx code len n hi hc hl hn e hd ho =
    rw (hd, hi, write_code pre ph code run unused)
      (cc (
        ho ∙ ap (λ b. pre ++ (b ++ unused)) (stuff_from-nil run ∙ ap (λ c. c ∷ run) (sym hc)),
        len_eq,
      ))
  where
    len_eq : len ≡ n
    len_eq = omega (arith, ap length (stuff_from-nil run))
Writes-nil run pre ph (u ∷ us) unused dest out idx code len n hi hc hl hn e hd ho =
    absurd (omega (arith, ap length (stuff_from-nil run)))

Writes-zero : (x : ℕ) (xs : Bytes) → x ≡ 0 → Writes xs → (run : Bytes) → WritesFrom run (x ∷ xs)
Writes-zero x xs z ih run pre ph [] unused dest out idx code len n hi hc hl hn e hd ho = absurd (
    omega (
      arith,
      ap length (stuff_from-zero run x xs z),
      length-append run (stuff_from [] xs),
      length-stuff_from [] xs,
    ))
Writes-zero x xs z ih run pre ph (u ∷ us) unused dest out idx code len n hi hc hl hn e hd ho =
    encode_rest-cons (block idx code) x xs (output dest len)
    ∙ ap (λ r. after r (λ b. encode_rest b xs)) (encode_byte-zero dest len idx code x z put next)
    ∙ ih [] (omega arith) (pre ++ code ∷ run) 0 us unused _ out len 1 (len + 1) n
        (omega (arith, length-append pre (code ∷ run))) refl
        (omega (arith, length-append pre (code ∷ run)))
        (omega (arith, length-append pre (code ∷ run), body, length-append run (stuff_from [] xs)))
        (omega (arith, body, length-append run (stuff_from [] xs))) (simp append_assoc)
        (ho ∙ rw (stuff_from-zero run x xs z, hc) (simp append_assoc))
  where
    body : length (stuff_from run (x ∷ xs)) ≡ suc (length (run ++ stuff_from [] xs))
    body = ap length (stuff_from-zero run x xs z)

    put : write_at dest idx code ≡ some (layout pre code run (u ∷ (us ++ unused)))
    put = rw (hd, hi) (write_code pre ph code run (u ∷ (us ++ unused)))

    next :
        write_at (layout pre code run (u ∷ (us ++ unused))) len 0
        ≡ some (layout pre code run (0 ∷ (us ++ unused)))
    next = rw hl (write_next pre code run u 0 (us ++ unused))

Writes-more :
    (x : ℕ) (xs : Bytes)
    → x ≢ 0
    → Writes xs
    → (run : Bytes) → length run < 253
    → WritesFrom run (x ∷ xs)
Writes-more x xs nz ih run h pre ph [] unused dest out idx code len n hi hc hl hn e hd ho = absurd (
    omega (
      arith,
      ap length (stuff_from-more run x xs nz (omega arith)),
      length-append run (x ∷ []),
      length-stuff_from (run ++ x ∷ []) xs,
    ))
Writes-more x xs nz ih run h pre ph (u ∷ us) unused dest out idx code len n hi hc hl hn e hd ho =
    encode_rest-cons (block idx code) x xs (output dest len)
    ∙ ap (λ r. after r (λ b. encode_rest b xs))
        (encode_byte-more dest len idx code x nz (omega arith) next)
    ∙ ih (run ++ x ∷ []) (omega (arith, one)) pre ph us unused _ out idx (code + 1) (len + 1) n hi
        (omega (arith, one)) (omega (arith, one)) (omega (arith, ap length body))
        (omega (arith, ap length body, one)) (simp append_assoc) (ho ∙ rw body)
  where
    body : stuff_from run (x ∷ xs) ≡ stuff_from (run ++ x ∷ []) xs
    body = stuff_from-more run x xs nz (omega arith)

    one : length (run ++ x ∷ []) ≡ length run + 1
    one = length-append run (x ∷ [])

    next : write_at dest len x ≡ some (layout pre ph run (x ∷ (us ++ unused)))
    next = rw (hd, hl) (write_next pre ph run u x (us ++ unused))

Writes-full :
    (x : ℕ) (xs : Bytes)
    → x ≢ 0
    → WritesAfter xs
    → (run : Bytes) → length run ≡ 253
    → WritesFrom run (x ∷ xs)
Writes-full x xs nz ih run h pre ph [] unused dest out idx code len n hi hc hl hn e hd ho = absurd (
    omega
      (arith, ap length (stuff_from-full run x xs nz h), length-append run (x ∷ stuff_after xs)))
Writes-full x xs nz ih run h pre ph (u ∷ us) unused dest out idx code len n hi hc hl hn e hd ho =
    encode_rest-cons (block idx code) x xs (output dest len)
    ∙ ap (λ r. after r (λ b. encode_rest b xs))
        (encode_byte-full dest len idx code x nz (omega arith) put next)
    ∙ ih (pre ++ 255 ∷ (run ++ x ∷ [])) us unused _ out (len + 1) n (omega (arith, front))
        (omega (arith, front, body)) (omega (arith, body)) (simp append_assoc)
        (ho ∙ rw (stuff_from-full run x xs nz h) (simp append_assoc))
  where
    body : length (stuff_from run (x ∷ xs)) ≡ suc (length run) + suc (length (stuff_after xs))
    body =
        omega
          (arith, ap length (stuff_from-full run x xs nz h), length-append run (x ∷ stuff_after xs))

    front : length (pre ++ 255 ∷ (run ++ x ∷ [])) ≡ length pre + suc (length run + 1)
    front = omega (arith, length-append pre (255 ∷ (run ++ x ∷ [])), length-append run (x ∷ []))

    put : write_at dest idx 255 ≡ some (layout pre 255 run (u ∷ (us ++ unused)))
    put = rw (hd, hi) (write_code pre ph 255 run (u ∷ (us ++ unused)))

    next :
        write_at (layout pre 255 run (u ∷ (us ++ unused))) len x
        ≡ some (layout pre 255 run (x ∷ (us ++ unused)))
    next = rw hl (write_next pre 255 run u x (us ++ unused))

WritesAfter-Writes : (xs : Bytes) → Writes xs → WritesAfter xs
WritesAfter-Writes [] w pre [] unused dest out len n hl hn e hd ho =
    unfold encode_rest encode_loop close_block in cc (hd, ho, the_len)
  where
    the_len : len ≡ n
    the_len = omega arith
WritesAfter-Writes [] w pre (u ∷ us) unused dest out len n hl hn e hd ho = absurd (omega arith)
WritesAfter-Writes (x ∷ xs) w pre [] unused dest out len n hl hn e hd ho =
    absurd (omega (arith, length-stuff_from [] (x ∷ xs)))
WritesAfter-Writes (x ∷ xs) w pre (u ∷ us) unused dest out len n hl hn e hd ho =
    encode_rest-cons (full_block len) x xs (output dest len)
    ∙ ap (λ r. after r (λ b. encode_rest b xs)) (encode_byte-place dest len len 1 x next)
    ∙ sym (encode_rest-cons (new_block len) x xs _)
    ∙ w [] (omega arith) pre 0 us unused _ out len 1 (len + 1) n hl refl (omega arith) hn
        (omega arith) refl ho
  where
    next : write_at dest len 0 ≡ some (pre ++ 0 ∷ (us ++ unused))
    next = rw hd (write_at_here pre (us ++ unused) u 0 hl)

pub encode_rest-Writes : (source : Bytes) → Writes source
encode_rest-Writes [] run h = Writes-nil run
encode_rest-Writes (x ∷ xs) run h = elim (ℕ_discrete x 0) [
  | yes z ↦ Writes-zero x xs z (encode_rest-Writes xs) run
  | no nz ↦ elim (ℕ_discrete (length run) 253) [
    | yes f ↦ Writes-full x xs nz (WritesAfter-Writes xs (encode_rest-Writes xs)) run f
    | no nf ↦ Writes-more x xs nz (encode_rest-Writes xs) run (omega arith)
  ]
]
