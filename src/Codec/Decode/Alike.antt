-- ===== src/Codec/Decode/Alike.antt =====
-- Two runs of the decoder on the same source, into destinations of the same length.
use cobs_io_async_rs.Codec.Decode.{
  PushResult, add_single, write_sentinel, invalid_frame, end_of_frame, skip, Decoded, Decoding,
  Round, go_on, return, push, put_value, handle, decode_byte, decode_end, decode_loop,
  decode_to_slice, decode_slice, start,
}
use cobs_io_async_rs.Prelude.{
  ℕ, zero, suc, ◌+◌, ◌≡◌, refl, Bool, true, false, not, ◌&&◌, ltb, ◌==◌, if◌then◌else◌, [], ◌∷◌,
  Bytes, Option, none, some, ok, err, length, take, write_at, subst, arith,
}

-- The same report, and the same payload.
abbrev pub SameResult : Bytes × Decoded → Bytes × Decoded → Type 0
SameResult (x, ok f) (y, r) = (ok f ≡ r) × (take f.len x ≡ take f.len y)
SameResult (x, err e) (y, r) = err e ≡ r

-- The same payload so far, in destinations of the same length.
abbrev Agrees : ℕ → Bytes → Bytes → Type 0
Agrees written x y = (length x ≡ length y) × (take written x ≡ take written y)

-- The same variables of the loop, but for the destination.
abbrev Alike : Decoding → Decoding → Type 0
Alike d d' = (record d { dest = d'.dest } ≡ d') × Agrees d.written d.dest d'.dest

abbrev AlikeRound : Round → Round → Type 0
AlikeRound (go_on d) (go_on d') = Alike d d'
AlikeRound (return x r) (return y r') = SameResult (x, r) (y, r')
AlikeRound (go_on d) (return y r') = ⊥
AlikeRound (return x r) (go_on d') = ⊥

both {ℓ} :
    {A : Type ℓ} (P : A → A → Type 0) (b : Bool) {x y x' y' : A}
    → P x x'
    → P y y'
    → P (if b then x else y) (if b then x' else y')
both P true h k = h
both P false h k = k

-- Writes at the end of what is written.
abbrev AlikeWrite : ℕ → Option Bytes → Option Bytes → Type 0
AlikeWrite w none none = Unit
AlikeWrite w none (some y) = ⊥
AlikeWrite w (some x) none = ⊥
AlikeWrite w (some x) (some y) = (length x ≡ length y) × (take w x ≡ take w y)

write_at-cons :
    (w x y : ℕ) (xs ys : Option Bytes)
    → x ≡ y
    → AlikeWrite w xs ys
    → AlikeWrite
        (suc w)
        (elim xs [ none ↦ none | some zs ↦ some (x ∷ zs) ])
        (elim ys [ none ↦ none | some zs ↦ some (y ∷ zs) ])
write_at-cons w x y none none e h = tt
write_at-cons w x y none (some ys) e h = h
write_at-cons w x y (some xs) none e h = h
write_at-cons w x y (some xs) (some ys) e h = (omega arith, cc (e, h.1))

write_at-Alike :
    (xs ys : Bytes) (w v : ℕ)
    → Agrees w xs ys
    → AlikeWrite (suc w) (write_at xs w v) (write_at ys w v)
unfolding write_at
write_at-Alike [] [] w v (e, h) = tt
write_at-Alike [] (y ∷ ys) w v (e, h) = absurd (omega arith)
write_at-Alike (x ∷ xs) [] w v (e, h) = absurd (omega arith)
write_at-Alike (x ∷ xs) (y ∷ ys) zero v (e, h) = (e, refl)
write_at-Alike (x ∷ xs) (y ∷ ys) (suc w) v (e, h) =
    let same : x ≡ y = cc h in
    let tails : take w xs ≡ take w ys = cc h in
    write_at-cons (suc w) x y (write_at xs w v) (write_at ys w v) same
      (write_at-Alike xs ys w v (omega arith, tails))

put_value-Alike :
    (d : Decoding) (y : Bytes) (o p : Option Bytes)
    → AlikeWrite (suc d.written) o p
    → AlikeRound (put_value d o) (put_value (record d { dest = y }) p)
unfolding put_value
put_value-Alike d y none none h = refl
put_value-Alike d y none (some q) h = h
put_value-Alike d y (some o) none h = h
put_value-Alike d y (some o) (some q) h =
    let e : d.written + 1 ≡ suc d.written = omega arith in (refl, (h.0, rw e h.1))

handle-Alike :
    (result : PushResult) (d : Decoding) (y : Bytes) (byte : ℕ)
    → Agrees d.written d.dest y
    → AlikeRound (handle result d byte) (handle result (record d { dest = y }) byte)
unfolding handle
handle-Alike skip d y byte a = (refl, a)
handle-Alike add_single d y byte a =
    put_value-Alike d y (write_at d.dest d.written byte) (write_at y d.written byte)
      (write_at-Alike d.dest y d.written byte a)
handle-Alike write_sentinel d y byte a =
    put_value-Alike d y (write_at d.dest d.written 0) (write_at y d.written 0)
      (write_at-Alike d.dest y d.written 0 a)
handle-Alike end_of_frame d y byte a = (refl, a.1)
handle-Alike invalid_frame d y byte a = refl

decode_byte-Alike :
    (d : Decoding) (y : Bytes) (byte : ℕ)
    → Agrees d.written d.dest y
    → AlikeRound (decode_byte d byte) (decode_byte (record d { dest = y }) byte)
unfolding decode_byte
decode_byte-Alike d y byte a =
    both AlikeRound (not d.started && byte == 0) (refl, a)
      (handle-Alike (push d.state byte).1
        (record d { idx = d.idx + 1; state = (push d.state byte).0; started = true }) y byte a)

decode_end-Alike :
    (n : ℕ) (d : Decoding) (y : Bytes)
    → Agrees d.written d.dest y
    → SameResult (decode_end n d) (decode_end n (record d { dest = y }))
unfolding decode_end
decode_end-Alike n d y a =
    both SameResult (ltb 1 d.state.next_sentinel_idx) refl
      (both SameResult (not d.started) refl (refl, a.1))

decode_loop-Alike :
    (n : ℕ) (source : Bytes) (d : Decoding) (y : Bytes)
    → Agrees d.written d.dest y
    → SameResult (decode_loop n source d) (decode_loop n source (record d { dest = y }))
unfolding decode_loop
decode_loop-Alike n [] d y a = decode_end-Alike n d y a
decode_loop-Alike n (byte ∷ source) d y a =
    next (decode_byte d byte) (decode_byte (record d { dest = y }) byte)
      (decode_byte-Alike d y byte a) (decode_loop-Alike n source)
  where
    next :
        (r q : Round)
        → AlikeRound r q
        → ((d : Decoding) (y : Bytes)
            → Agrees d.written d.dest y
            → SameResult (decode_loop n source d) (decode_loop n source (record d { dest = y })))
        → SameResult
            (elim r [ go_on d' ↦ decode_loop n source d' | return dest result ↦ (dest, result) ])
            (elim q [ go_on d' ↦ decode_loop n source d' | return dest result ↦ (dest, result) ])
    next (go_on d) (go_on d') (e, a) ih =
        subst (λ x. SameResult (decode_loop n source d) (decode_loop n source x)) e (ih d d'.dest a)
    next (return x r) (return y q) h ih = h
    next (go_on d) (return y q) h ih = absurd h
    next (return x r) (go_on d) h ih = absurd h

-- With two destinations of the same length `decode_to_slice` reports the same of a source, and on
-- success leaves the same payload in both, whatever they held before.
pub decode_to_slice-Alike :
    (source x y : Bytes)
    → length x ≡ length y
    → SameResult (decode_to_slice source x) (decode_to_slice source y)
unfolding decode_to_slice decode_slice
decode_to_slice-Alike source x y e = decode_loop-Alike (length source) source (start x) y (e, refl)
