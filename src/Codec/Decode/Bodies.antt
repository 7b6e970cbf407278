-- ===== src/Codec/Decode/Bodies.antt =====
-- The loop of `decode_slice` on a whole body.
use cobs_io_async_rs.Prelude.{
  ℕ, ◌+◌, ◌≤◌, ◌<◌, ◌≡◌, ◌≢◌, refl, sym, ap, subst, ◌∙◌, Bool, true, [], ◌∷◌, ◌++◌, append_assoc,
  append-nil, Bytes, All, All-append, length, length-append, length-take, length-drop, take, drop,
  take-append-drop, ◌==◌, arith, ℕ_discrete,
}
use cobs_io_async_rs.Codec.Decode.{DecoderState, decode_loop}
use cobs_io_async_rs.Codec.Decode.Blocks.{state, at, gap, NonZero, decode_block}
use cobs_io_async_rs.Sync.Stuffing.{
  stuff_from, stuff_from-nil, stuff_from-zero, stuff_from-full, stuff_from-more,
}

-- From a state between blocks, over `body`, which stands for the payload bytes `payload`.
abbrev Reads : Bytes → Bytes → DecoderState → Type 0
Reads body payload s =
    (n : ℕ) (tail pre used unused dest out : Bytes) (idx idx' written written' : ℕ) (started : Bool)
    → length used ≡ length (gap s) + length payload
    → dest ≡ pre ++ (used ++ unused)
    → out ≡ pre ++ ((gap s ++ payload) ++ unused)
    → written ≡ length pre
    → idx' ≡ idx + length body
    → written' ≡ written + length used
    → (f : Bool) × (decode_loop n (body ++ tail) (at idx s started dest written)
        ≡ decode_loop n tail (at idx' (state 1 f) true out written'))

-- A block and a body behind it.
Reads-append :
    (run body payload : Bytes) (c : ℕ) (s : DecoderState)
    → s.next_sentinel_idx ≤ 1
    → All NonZero run
    → c ≡ length run + 1
    → Reads body payload (state 1 (c == 255))
    → Reads (c ∷ (run ++ body)) (run ++ (gap (state 1 (c == 255)) ++ payload)) s
Reads-append run body payload c s hs nz hc ih n tail pre used unused dest out idx idx' written
      written' started hu hd ho hw hi hv =
    let (f, e) =
      ih n tail (pre ++ (gap s ++ run)) (drop k used) unused _ out (idx + (length run + 1)) idx'
        (written + k) written' true (omega (arith, total, length-drop k used)) (simp append_assoc)
        (ho ∙ simp append_assoc)
        (omega (arith, length-append pre (gap s ++ run), length-append (gap s) run))
        (omega (arith, length-append run body)) (omega (arith, total, length-drop k used)) in
    (
      f,
      ap (λ b. decode_loop n (c ∷ b) (at idx s started dest written)) (append_assoc run body tail)
          ∙ decode_block s run n (body ++ tail) pre (take k used) (drop k used ++ unused) dest _ c
              idx _ written (written + k) started hs nz hc took split refl hw refl
              (omega (arith, took))
          ∙ e,
    )
  where
    k : ℕ
    k = length (gap s) + length run

    g : Bytes
    g = gap (state 1 (c == 255))

    total : length (run ++ (g ++ payload)) ≡ length run + (length g + length payload)
    total = omega (arith, length-append run (g ++ payload), length-append g payload)

    took : length (take k used) ≡ length (gap s) + length run
    took = omega (arith, length-take k used, total)

    split : dest ≡ pre ++ (take k used ++ (drop k used ++ unused))
    split =
        hd
        ∙ ap (λ u. pre ++ (u ++ unused)) (sym (take-append-drop k used))
        ∙ ap (λ u. pre ++ u) (append_assoc (take k used) (drop k used) unused)

-- The last block of a body.
Reads-last :
    (run : Bytes) (c : ℕ) (s : DecoderState)
    → s.next_sentinel_idx ≤ 1
    → All NonZero run
    → c ≡ length run + 1
    → Reads (c ∷ run) run s
Reads-last run c s hs nz hc n tail pre used unused dest out idx idx' written written' started hu hd
      ho hw hi hv =
    (
      c == 255,
      decode_block s run n tail pre used unused dest out c idx idx' written written' started hs nz
          hc hu hd ho hw (omega arith) hv,
    )

abbrev Decodes : Bytes → Type 0
Decodes source =
    (run : Bytes) (s : DecoderState)
    → length run ≤ 253
    → s.next_sentinel_idx ≤ 1
    → All NonZero run
    → Reads (stuff_from run source) (run ++ source) s

Decodes-nil : Decodes []
Decodes-nil run s h hs nz =
    rw (stuff_from-nil, append-nil) (Reads-last run (length run + 1) s hs nz refl)

Decodes-zero : (x : ℕ) (xs : Bytes) → x ≡ 0 → Decodes xs → Decodes (x ∷ xs)
Decodes-zero x xs z ih run s h hs nz = rw (stuff_from-zero run x xs z) (
    subst (λ p. Reads (c ∷ (run ++ stuff_from [] xs)) p s) payload
      (Reads-append run (stuff_from [] xs) xs c s hs nz refl
        (ih [] (state 1 (c == 255)) (omega arith) (omega arith) tt)))
  where
    c : ℕ
    c = length run + 1

    payload : run ++ (gap (state 1 (c == 255)) ++ xs) ≡ run ++ x ∷ xs
    payload = ap (λ r. run ++ r) (ground arith)

Decodes-full :
    (x : ℕ) (xs : Bytes) (run : Bytes) (s : DecoderState)
    → x ≢ 0
    → Decodes xs
    → length run ≡ 253
    → s.next_sentinel_idx ≤ 1
    → All NonZero run
    → Reads (stuff_from run (x ∷ xs)) (run ++ x ∷ xs) s
Decodes-full x [] run s nz ih h hs hr = rw (stuff_from-full run x [] nz h) (
    Reads-last (run ++ x ∷ []) 255 s hs (All-append NonZero run (x ∷ []) hr (nz, tt))
      (omega (arith, length-append run (x ∷ []))))
Decodes-full x (y ∷ ys) run s nz ih h hs hr =
    rw
      (
        stuff_from-full run x (y ∷ ys) nz h,
        ← append_assoc run (x ∷ []) (y ∷ ys),
        ← append_assoc run (x ∷ []) (stuff_from [] (y ∷ ys)),
      )
      (Reads-append (run ++ x ∷ []) (stuff_from [] (y ∷ ys)) (y ∷ ys) 255 s hs
        (All-append NonZero run (x ∷ []) hr (nz, tt)) (omega (arith, length-append run (x ∷ [])))
        (ih [] (state 1 true) (omega arith) (omega arith) tt))

Decodes-more :
    (x : ℕ) (xs : Bytes) (run : Bytes) (s : DecoderState)
    → x ≢ 0
    → Decodes xs
    → length run < 253
    → s.next_sentinel_idx ≤ 1
    → All NonZero run
    → Reads (stuff_from run (x ∷ xs)) (run ++ x ∷ xs) s
Decodes-more x xs run s nz ih h hs hr =
    rw (stuff_from-more run x xs nz (omega arith), ← append_assoc run (x ∷ []) xs)
      (ih (run ++ x ∷ []) s (omega (arith, length-append run (x ∷ []))) hs
        (All-append NonZero run (x ∷ []) hr (nz, tt)))

pub stuff_from-Decodes : (source : Bytes) → Decodes source
stuff_from-Decodes [] run s h hs nz = Decodes-nil run s h hs nz
stuff_from-Decodes (x ∷ xs) run s h hs nz = elim (ℕ_discrete x 0) [
  | yes z ↦ Decodes-zero x xs z (stuff_from-Decodes xs) run s h hs nz
  | no nx ↦ elim (ℕ_discrete (length run) 253) [
    | yes f ↦ Decodes-full x xs run s nx (stuff_from-Decodes xs) f hs nz
    | no nf ↦ Decodes-more x xs run s nx (stuff_from-Decodes xs) (omega arith) hs nz
  ]
]
