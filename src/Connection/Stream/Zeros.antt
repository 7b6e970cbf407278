-- ===== src/Connection/Stream/Zeros.antt =====
-- Stretches of bytes without zeros, and the first zero of a stretch.
use cobs_io_async_rs.Connection.Input.{position_zero}
use cobs_io_async_rs.Prelude.{
  ℕ, suc, ◌+◌, ◌≤◌, ◌<◌, ◌≡◌, ◌≢◌, refl, sym, ap, ◌∙◌, Bool, true, false, ◌||◌, Bool-cases, inl,
  inr, ◌==◌, if◌then◌else◌, [], ◌∷◌, ◌++◌, append-nil, append_assoc, List, Bytes, Option, none,
  some, All, length, length-append, arith,
}
use cobs_io_async_rs.Prelude.Exec.Holds.{if-Holds}
use cobs_io_async_rs.Connection.Stream.Assembly.{
  Assembly, feed, feed_over, feed_full, feed_more, feed_zero, ended,
}
use mathlib.Core.List.{foldl, foldl-append}

-- A stretch without zeros.
abbrev pub Zeroless : Bytes → Type 0
Zeroless bytes = All (λ b. b ≢ 0) bytes

-- What the bytes behind the latest zero come to, if `n` more bytes are fed.
abbrev pub rest_of : ℕ → Bytes → List Bytes → Assembly
rest_of capacity bytes frames =
    if length bytes == capacity
    then record { partial = []; discarding = true; frames = frames }
    else record { partial = bytes; discarding = false; frames = frames }

-- The byte that fills the frame is the last one there is room for.
feed_last :
    (capacity : ℕ) (partial : Bytes) (b : ℕ) (bytes : Bytes) (frames : List Bytes)
    → length partial + 1 ≡ capacity
    → length partial + suc (length bytes) ≤ capacity
    → foldl (feed capacity) (record { partial = []; discarding = true; frames = frames }) bytes
      ≡ rest_of capacity (partial ++ b ∷ bytes) frames
feed_last capacity partial b [] frames full k =
    let e : (length (partial ++ b ∷ []) == capacity) ≡ true =
      ground (arith, length-append partial (b ∷ [])) in
    rw e refl
feed_last capacity partial b (x ∷ bytes) frames full k = absurd (omega arith)

pub feed_plain :
    (capacity : ℕ) (bytes partial : Bytes) (frames : List Bytes)
    → Zeroless bytes
    → length partial < capacity
    → length partial + length bytes ≤ capacity
    → foldl
        (feed capacity)
        (record { partial = partial; discarding = false; frames = frames })
        bytes
      ≡ rest_of capacity (partial ++ bytes) frames
feed_plain capacity [] partial frames z h k =
    let a : Assembly = record { partial = partial; discarding = false; frames = frames } in
    let less : (length partial == capacity) ≡ false = ground arith in
    sym (ap (λ p. rest_of capacity p frames) (append-nil partial) ∙ rw less refl)
feed_plain capacity (b ∷ bytes) partial frames z h k =
    let a : Assembly = record { partial = partial; discarding = false; frames = frames } in
    elim (Bool-cases (length partial + 1 == capacity)) [
      | inl full ↦
          ap (λ x. foldl (feed capacity) x bytes) (feed_full capacity a b z.0 refl (ground arith))
          ∙ feed_last capacity partial b bytes frames (ground arith) k
      | inr more ↦
          ap (λ x. foldl (feed capacity) x bytes)
            (feed_more capacity a b z.0 refl (λ e. absurd (ground arith)))
          ∙ feed_plain capacity bytes (partial ++ b ∷ []) frames z.1
              (ground (arith, length-append partial (b ∷ [])))
              (omega (arith, length-append partial (b ∷ [])))
          ∙ ap (λ p. rest_of capacity p frames) (append_assoc partial (b ∷ []) bytes)
    ]

pub feed_discarding :
    (capacity : ℕ) (bytes : Bytes) (a : Assembly)
    → Zeroless bytes
    → a.discarding ≡ true
    → foldl (feed capacity) a bytes ≡ a
feed_discarding capacity [] a z d = refl
feed_discarding capacity (b ∷ bytes) a z d =
    ap (λ x. foldl (feed capacity) x bytes) (feed_over capacity a b z.0 d)
    ∙ feed_discarding capacity bytes a z.1 d

-- What is kept of the bytes behind the latest zero, unless they are passed over.
abbrev pub kept_of : List Bytes → Bytes → Bool → Bool → Assembly
kept_of frames held discarding over =
    if over
    then record { partial = []; discarding = true; frames = frames }
    else record { partial = held; discarding = discarding; frames = frames }

pub feed_held :
    (capacity : ℕ) (held : Bytes) (discarding : Bool) (frames : List Bytes)
    → Zeroless held
    → 0 < capacity
    → length held ≤ capacity
    → foldl (feed capacity) (record { partial = []; discarding = discarding; frames = frames }) held
      ≡ kept_of frames held discarding (discarding || length held == capacity)
feed_held capacity held true frames z h k =
    feed_discarding capacity held (record { partial = []; discarding = true; frames = frames }) z
      refl
feed_held capacity held false frames z h k = feed_plain capacity held [] frames z h (omega arith)

-- Where the first zero is.
abbrev pub Split : Bytes → Option ℕ → Type 0
Split bytes none = Zeroless bytes
Split bytes (some i) =
    (pre post : Bytes) × (bytes ≡ pre ++ 0 ∷ post) × (length pre ≡ i) × Zeroless pre

Split-cons :
    (b : ℕ) (bytes : Bytes) (p : Option ℕ)
    → b ≢ 0
    → Split bytes p
    → Split (b ∷ bytes) (elim p [ none ↦ none | some i ↦ some (i + 1) ])
Split-cons b bytes none z s = (z, s)
Split-cons b bytes (some i) z (pre, post, e, h, zs) =
    (b ∷ pre, post, ap (λ r. b ∷ r) e, omega arith, (z, zs))

pub position_zero-Split : (bytes : Bytes) → Split bytes (position_zero bytes)
unfolding position_zero
position_zero-Split [] = tt
position_zero-Split (b ∷ bytes) =
    if-Holds (Split (b ∷ bytes)) (b == 0)
      (λ z. ([], bytes, ap (λ x. x ∷ bytes) (let e : b ≡ 0 = ground arith in e), refl, tt))
      (λ n.
        Split-cons b bytes (position_zero bytes) (λ e. absurd (ground arith))
          (position_zero-Split bytes))

-- A frame, up to and with its zero: it is kept, or passed over.
pub feed-frame :
    (capacity : ℕ) (pre post : Bytes) (frames : List Bytes)
    → Zeroless pre
    → length pre < capacity
    → foldl
        (feed capacity)
        (record { partial = []; discarding = false; frames = frames })
        (pre ++ 0 ∷ post)
      ≡ foldl
          (feed capacity)
          (ended (record { partial = pre; discarding = false; frames = frames }))
          post
feed-frame capacity pre post frames z h =
    let start : Assembly = record { partial = []; discarding = false; frames = frames } in
    let a : Assembly = record { partial = pre; discarding = false; frames = frames } in
    let short : (length pre == capacity) ≡ false = ground arith in
    foldl-append (feed capacity) start pre (0 ∷ post)
    ∙ ap (λ x. foldl (feed capacity) (feed capacity x 0) post)
        (feed_plain capacity pre [] frames z (omega arith) (omega arith) ∙ rw short refl)
    ∙ ap (λ x. foldl (feed capacity) x post) (feed_zero capacity a 0 refl)

pub feed-passed :
    (capacity : ℕ) (pre post : Bytes) (frames : List Bytes)
    → Zeroless pre
    → foldl
        (feed capacity)
        (record { partial = []; discarding = true; frames = frames })
        (pre ++ 0 ∷ post)
      ≡ foldl (feed capacity) (record { partial = []; discarding = false; frames = frames }) post
feed-passed capacity pre post frames z =
    let start : Assembly = record { partial = []; discarding = true; frames = frames } in
    foldl-append (feed capacity) start pre (0 ∷ post)
    ∙ ap (λ x. foldl (feed capacity) (feed capacity x 0) post)
        (feed_discarding capacity pre start z refl)
    ∙ ap (λ x. foldl (feed capacity) x post) (feed_zero capacity start 0 refl)
