-- ===== src/Connection/Stream/Framed.antt =====
-- The frames of a stream that begins a sequence of delimited frames.
use cobs_io_async_rs.Codec.Decode.RoundTrip.{decode_to_slice-stuff}
use cobs_io_async_rs.Codec.Decode.{decode_to_slice}
use cobs_io_async_rs.Connection.History.{frame_of}
use cobs_io_async_rs.Connection.Stream.Assembly.{
  Assembly, feed, feed_full, feed_more, feed_over, feed_zero, ended, onward, assemble, nothing,
  payload_of, contents,
}
use cobs_io_async_rs.Connection.Stream.Zeros.{Zeroless, feed_discarding}
use cobs_io_async_rs.Prelude.Exec.Holds.{if-Holds}
use cobs_io_async_rs.Prelude.{
  ℕ, ◌+◌, ◌≤◌, ◌<◌, ◌≡◌, refl, sym, ap, ◌∙◌, subst, true, false, Bool-cases, inl, inr, ◌⊎◌, ◌||◌,
  [], ◌∷◌, ◌++◌, append-nil, append_assoc, List, Bytes, All, All-append, Has, Has-append, All-Has,
  length, length-append, length-replicate, replicate, drop, take-append, concat, ◌==◌,
  if◌then◌else◌, arith,
}
use cobs_io_async_rs.Sync.Stuffing.Bounds.{length-stuff-lt, stuff_ne_zero}
use cobs_io_async_rs.Sync.Stuffing.{stuff}
use mathlib.Core.List.{foldl, foldl-append}

-- A stretch without zeros fits, or fills the frame.
feed_stretch :
    (capacity : ℕ) (bytes partial : Bytes) (frames : List Bytes)
    → Zeroless bytes
    → length partial < capacity
    → ((foldl
            (feed capacity)
            (record { partial = partial; discarding = false; frames = frames })
            bytes
          ≡ record { partial = partial ++ bytes; discarding = false; frames = frames })
        × (length (partial ++ bytes) < capacity))
      ⊎ (foldl
            (feed capacity)
            (record { partial = partial; discarding = false; frames = frames })
            bytes
          ≡ record { partial = []; discarding = true; frames = frames })
feed_stretch capacity [] partial frames z h =
    let e = append-nil partial in
    inl (
      ap (λ p. record { partial = p; discarding = false; frames = frames }) (sym e),
      omega (arith, ap length e),
    )
feed_stretch capacity (b ∷ bytes) partial frames z h =
    let a : Assembly = record { partial = partial; discarding = false; frames = frames } in
    elim (Bool-cases (length partial + 1 == capacity)) [
      | inl full ↦ inr (
          ap (λ x. foldl (feed capacity) x bytes) (feed_full capacity a b z.0 refl (ground arith))
          ∙ feed_discarding capacity bytes
              (record { partial = []; discarding = true; frames = frames }) z.1 refl)
      | inr more ↦
          let one =
            ap (λ x. foldl (feed capacity) x bytes)
              (feed_more capacity a b z.0 refl (λ e. absurd (ground arith))) in
          let same = append_assoc partial (b ∷ []) bytes in
          elim (feed_stretch capacity bytes (partial ++ b ∷ []) frames z.1
            (ground (arith, length-append partial (b ∷ [])))) [
              | inl (e, k) ↦ inl (
                one
                    ∙ e
                    ∙ ap (λ p. record { partial = p; discarding = false; frames = frames }) same,
                omega (arith, ap length same),
              )
              | inr e ↦ inr (one ∙ e)
            ]
    ]

-- What stands between the zeros of a frame.
abbrev pub Delimited : List Bytes → Bytes → Type 0
Delimited sent frame =
    (source : Bytes) × (frame ≡ stuff source ++ 0 ∷ []) × Has (frame_of source) sent

-- The frames so far are whole frames of those that were sent, and fit.
abbrev pub Whole : ℕ → List Bytes → Bytes → Type 0
Whole capacity sent frame = Delimited sent frame × (length frame ≤ capacity)

abbrev pub Framed : List Bytes → Bytes → Type 0
Framed sent frame = (source : Bytes) × (frame ≡ frame_of source) × Has frame sent

-- One delimited frame more.
feed-Framed :
    (capacity : ℕ) (sent frames : List Bytes) (frame : Bytes)
    → 0 < capacity
    → Framed sent frame
    → All (Whole capacity sent) frames
    → (frames' : List Bytes) × (onward capacity frames false frame
        ≡ record { partial = []; discarding = false; frames = frames' })
      × All (Whole capacity sent) frames'
feed-Framed capacity sent frames frame pos (source, e, has) w =
    let start : Assembly = record { partial = []; discarding = false; frames = frames } in
    let body = stuff source in
    let first : onward capacity frames false frame
        ≡ feed capacity (onward capacity frames false body) 0 =
      ap (onward capacity frames false) e
      ∙ ap (λ a. foldl (feed capacity) a (body ++ 0 ∷ [])) (feed_zero capacity start 0 refl)
      ∙ foldl-append (feed capacity) start body (0 ∷ []) in
    let last : (a : Assembly)
        → onward capacity frames false body ≡ a
        → onward capacity frames false frame ≡ ended a =
      λ a e. first ∙ ap (λ x. feed capacity x 0) e ∙ feed_zero capacity a 0 refl in
    elim (feed_stretch capacity body [] frames (stuff_ne_zero source) pos) [
      | inl (e', fits) ↦
          let full : (length body == 0) ≡ false = ground (arith, length-stuff-lt source) in
          (
            frames ++ (body ++ 0 ∷ []) ∷ [],
            last _ e'
                ∙ ap
                    (λ b. record {
                      partial = [];
                      discarding = false;
                      frames = if b then frames else frames ++ (body ++ 0 ∷ []) ∷ [];
                    })
                    full,
            All-append (Whole capacity sent) frames _ w (
              (
                (source, refl, subst (λ f. Has f sent) e has),
                omega (arith, fits, length-append body (0 ∷ [])),
              ),
              tt,
            ),
          )
      | inr e' ↦ (frames, last _ e', w)
    ]

feed-Whole :
    (capacity : ℕ) (sent frames begun : List Bytes)
    → 0 < capacity
    → All (Framed sent) begun
    → All (Whole capacity sent) frames
    → All (Whole capacity sent) (onward capacity frames false (concat begun)).frames
feed-Whole capacity sent frames [] pos f w = w
feed-Whole capacity sent frames (frame ∷ begun) pos f w =
    let (frames', e, w') = feed-Framed capacity sent frames frame pos f.0 w in
    subst (λ a. All (Whole capacity sent) a.frames)
      (sym (
        foldl-append (feed capacity) (record { partial = []; discarding = false; frames = frames })
          frame (concat begun)
        ∙ ap (λ a. foldl (feed capacity) a (concat begun)) e))
      (feed-Whole capacity sent frames' begun pos f.1 w')

-- Frames stay.
feed-Has :
    (capacity : ℕ) (a : Assembly) (b : ℕ) (frame : Bytes)
    → Has frame a.frames
    → Has frame (feed capacity a b).frames
feed-Has capacity a b frame h = elim (Bool-cases (b == 0)) [
  | inl z ↦
      subst (λ a'. Has frame a'.frames) (sym (feed_zero capacity a b z))
        (if-Holds (Has frame) (a.discarding || length a.partial == 0) (λ e. h)
          (λ e. Has-append frame a.frames ((a.partial ++ 0 ∷ []) ∷ []) h))
  | inr n ↦ elim (Bool-cases a.discarding) [
    | inl d ↦
        subst (λ a'. Has frame a'.frames)
          (sym (feed_over capacity a b (λ e. absurd (ground arith)) d)) h
    | inr d ↦ elim (Bool-cases (length a.partial + 1 == capacity)) [
      | inl f ↦
          subst (λ a'. Has frame a'.frames)
            (sym (feed_full capacity a b (λ e. absurd (ground arith)) d (ground arith))) h
      | inr m ↦
          subst (λ a'. Has frame a'.frames)
            (sym
              (feed_more capacity a b (λ e. absurd (ground arith)) d (λ e. absurd (ground arith))))
            h
    ]
  ]
]

foldl-Has :
    (capacity : ℕ) (bytes : Bytes) (a : Assembly) (frame : Bytes)
    → Has frame a.frames
    → Has frame (foldl (feed capacity) a bytes).frames
foldl-Has capacity [] a frame h = h
foldl-Has capacity (b ∷ bytes) a frame h =
    foldl-Has capacity bytes (feed capacity a b) frame (feed-Has capacity a b frame h)

-- The frames of a stream that begins the frames that were sent.
prefix-Whole :
    (capacity : ℕ) (sent : List Bytes) (stream rest frame : Bytes)
    → 0 < capacity
    → All (Framed sent) sent
    → stream ++ rest ≡ concat sent
    → Has frame (assemble capacity stream).frames
    → Whole capacity sent frame
unfolding assemble
prefix-Whole capacity sent stream rest frame pos f e h =
    All-Has (Whole capacity sent) frame _ (feed-Whole capacity sent [] sent pos f tt) (
      subst (λ a. Has frame a.frames)
        (sym (foldl-append (feed capacity) nothing stream rest)
          ∙ ap (foldl (feed capacity) nothing) e)
        (foldl-Has capacity rest (foldl (feed capacity) nothing stream) frame h))

-- A whole frame decodes to what was framed.
contents-Has :
    (capacity : ℕ) (sent frames : List Bytes) (bytes : Bytes)
    → ((frame : Bytes) → Has frame frames → Whole capacity sent frame)
    → Has bytes (contents capacity frames)
    → Has (frame_of bytes) sent
contents-Has capacity sent [] bytes w h = absurd h
contents-Has capacity sent (frame ∷ frames) bytes w h =
    let ((source, e, has), fits) = w frame (inl refl) in
    let dest : Bytes = replicate capacity 0 in
    let whole : payload_of (decode_to_slice frame dest) ≡ source ∷ [] =
      ap (λ f. payload_of (decode_to_slice f dest)) e
      ∙ ap payload_of (
          decode_to_slice-stuff 0 source [] dest (
            omega (
              arith,
              ap length e,
              fits,
              length-stuff-lt source,
              length-append (stuff source) (0 ∷ []),
              length-replicate {A = ℕ} capacity 0,
            )))
      ∙ ap (λ x. x ∷ []) (take-append source (drop (length source) dest) refl) in
    elim (let h' : Has bytes (source ∷ contents capacity frames) =
        subst (λ p. Has bytes (p ++ contents capacity frames)) whole h in
      h') [
        | inl same ↦ subst (λ x. Has (frame_of x) sent) (sym same) has
        | inr later ↦ contents-Has capacity sent frames bytes (λ f k. w f (inr k)) later
      ]

-- Whatever is decoded of a stream that begins the frames that were sent, is in one of these.
pub prefix-contents :
    (capacity : ℕ) (sent : List Bytes) (stream rest bytes : Bytes)
    → 0 < capacity
    → All (Framed sent) sent
    → stream ++ rest ≡ concat sent
    → Has bytes (contents capacity (assemble capacity stream).frames)
    → Has (frame_of bytes) sent
prefix-contents capacity sent stream rest bytes pos f e h =
    contents-Has capacity sent (assemble capacity stream).frames bytes
      (λ frame k. prefix-Whole capacity sent stream rest frame pos f e k) h
