-- ===== src/Connection/Stream/Assembly.antt =====
-- The frames of a stream of bytes: what lies between its zeros, if it fits.
use cobs_io_async_rs.Codec.Decode.{Decoded, decode_to_slice}
use cobs_io_async_rs.Prelude.{
  ℕ, ◌+◌, ◌≡◌, ◌≢◌, refl, sym, ap, ◌∙◌, subst, Bool, true, false, ◌||◌, Bool-cases, inl, inr, ◌==◌,
  if◌then◌else◌, [], ◌∷◌, ◌++◌, append-nil, append_assoc, List, Bytes, ok, err, length, take,
  replicate, arith,
}
use mathlib.Core.List.{foldl, foldl-append}

-- The bytes behind the latest zero, whether they are passed over, and the frames before, each with the
-- zero that ends it.
pub record Assembly : Type 0 where
  pub partial : Bytes
  pub discarding : Bool
  pub frames : List Bytes

abbrev pub nothing : Assembly
nothing = record { partial = []; discarding = false; frames = [] }

-- One byte more: a zero ends the frame, unless it is empty or passed over. A frame that has `capacity`
-- bytes and no zero is passed over.
unfoldable pub feed : ℕ → Assembly → ℕ → Assembly
feed capacity a b =
    if b == 0
    then record {
      partial = [];
      discarding = false;
      frames =
          if a.discarding || length a.partial == 0
          then a.frames
          else a.frames ++ (a.partial ++ 0 ∷ []) ∷ [];
    }
    else if a.discarding
    then a
    else if length a.partial + 1 == capacity
    then record { partial = []; discarding = true; frames = a.frames }
    else record a { partial = a.partial ++ b ∷ [] }

-- What comes of bytes behind a zero, or behind what is passed over.
abbrev pub onward : ℕ → List Bytes → Bool → Bytes → Assembly
onward capacity frames discarding bytes =
    foldl (feed capacity) (record { partial = []; discarding = discarding; frames = frames }) bytes

unfoldable pub assemble : ℕ → Bytes → Assembly
unfolding feed
assemble capacity stream = foldl (feed capacity) nothing stream

abbrev pub payload_of : Bytes × Decoded → List Bytes
payload_of (dest, ok f) = take f.len dest ∷ []
payload_of (dest, err e) = []

-- What the frames decode to in `capacity` bytes, those left out that do not decode.
abbrev pub contents : ℕ → List Bytes → List Bytes
contents capacity [] = []
contents capacity (frame ∷ frames) =
    payload_of (decode_to_slice frame (replicate capacity 0)) ++ contents capacity frames

pub contents_last :
    (capacity : ℕ) (frames : List Bytes) (frame : Bytes)
    → contents capacity (frames ++ frame ∷ [])
      ≡ contents capacity frames ++ payload_of (decode_to_slice frame (replicate capacity 0))
contents_last capacity [] frame = append-nil _
contents_last capacity (f ∷ frames) frame =
    ap (λ r. payload_of (decode_to_slice f (replicate capacity 0)) ++ r)
      (contents_last capacity frames frame)
    ∙ sym (append_assoc _ (contents capacity frames) _)

-- A zero.
abbrev pub ended : Assembly → Assembly
ended a = record {
  partial = [];
  discarding = false;
  frames =
      if a.discarding || length a.partial == 0
      then a.frames
      else a.frames ++ (a.partial ++ 0 ∷ []) ∷ [];
}

pub feed_zero :
    (capacity : ℕ) (a : Assembly) (b : ℕ) → (b == 0) ≡ true → feed capacity a b ≡ ended a
unfolding feed
feed_zero capacity a b z = rw z refl

-- A byte that is passed over, that fills the frame, or that belongs to it.
pub feed_over :
    (capacity : ℕ) (a : Assembly) (b : ℕ) → b ≢ 0 → a.discarding ≡ true → feed capacity a b ≡ a
unfolding feed
feed_over capacity a b z d = ground arith

pub feed_full :
    (capacity : ℕ) (a : Assembly) (b : ℕ)
    → b ≢ 0
    → a.discarding ≡ false
    → length a.partial + 1 ≡ capacity
    → feed capacity a b ≡ record { partial = []; discarding = true; frames = a.frames }
unfolding feed
feed_full capacity a b z d h = ground arith

pub feed_more :
    (capacity : ℕ) (a : Assembly) (b : ℕ)
    → b ≢ 0
    → a.discarding ≡ false
    → length a.partial + 1 ≢ capacity
    → feed capacity a b ≡ record a { partial = a.partial ++ b ∷ [] }
unfolding feed
feed_more capacity a b z d h = ground arith

-- The bytes behind the latest zero, fed again.
abbrev pub Refeeds : ℕ → Assembly → Type 0
Refeeds capacity a = foldl (feed capacity) (record a { partial = [] }) a.partial ≡ a

feed-Refeeds :
    (capacity : ℕ) (a : Assembly) (b : ℕ)
    → Refeeds capacity a
    → Refeeds capacity (feed capacity a b)
feed-Refeeds capacity a b r = elim (Bool-cases (b == 0)) [
  | inl z ↦ subst (Refeeds capacity) (sym (feed_zero capacity a b z)) refl
  | inr n ↦ elim (Bool-cases a.discarding) [
    | inl d ↦
        subst (Refeeds capacity) (sym (feed_over capacity a b (λ e. absurd (ground arith)) d)) r
    | inr d ↦ elim (Bool-cases (length a.partial + 1 == capacity)) [
      | inl f ↦
          subst (Refeeds capacity)
            (sym (feed_full capacity a b (λ e. absurd (ground arith)) d (ground arith))) refl
      | inr m ↦
          let more =
            feed_more capacity a b (λ e. absurd (ground arith)) d (λ e. absurd (ground arith)) in
          subst (Refeeds capacity) (sym more) (
            foldl-append (feed capacity) (record a { partial = [] }) a.partial (b ∷ [])
            ∙ ap (λ x. feed capacity x b) r
            ∙ more)
    ]
  ]
]

foldl-Refeeds :
    (capacity : ℕ) (stream : Bytes) (a : Assembly)
    → Refeeds capacity a
    → Refeeds capacity (foldl (feed capacity) a stream)
foldl-Refeeds capacity [] a r = r
foldl-Refeeds capacity (b ∷ stream) a r =
    foldl-Refeeds capacity stream (feed capacity a b) (feed-Refeeds capacity a b r)

-- What comes behind the stream, with the bytes behind its latest zero in front.
pub assemble-append :
    (capacity : ℕ) (stream more : Bytes)
    → let a = assemble capacity stream in
      assemble capacity (stream ++ more)
      ≡ foldl (feed capacity) (record a { partial = [] }) (a.partial ++ more)
unfolding assemble
assemble-append capacity stream more =
    let a = foldl (feed capacity) nothing stream in
    foldl-append (feed capacity) nothing stream more
    ∙ ap (λ x. foldl (feed capacity) x more) (sym (foldl-Refeeds capacity stream nothing refl))
    ∙ sym (foldl-append (feed capacity) (record a { partial = [] }) a.partial more)
