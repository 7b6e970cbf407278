-- ===== src/Sync/Stuffing.antt =====
-- COBS as a function on whole payloads, with no buffer and no placeholder: the description that the
-- encoder and the decoder are held against. Each block is a code byte, one more than the length of
-- the block's run of nonzero bytes, then the run. A run ends at a payload zero, which the next
-- code byte stands for, or at 254 bytes, where no zero follows.
pub mod Bounds
use cobs_io_async_rs.Prelude.{
  ℕ, suc, ◌+◌, ◌≤◌, ◌≡◌, ◌≢◌, refl, true, false, [], ◌∷◌, ◌++◌, Bytes, length, length-append, ◌==◌,
  arith,
}

-- The body of a payload whose current block already holds the bytes `run`.
unfoldable pub stuff_from : Bytes → Bytes → Bytes
stuff_from run [] = (length run + 1) ∷ run
stuff_from run (x ∷ xs) = elim (x == 0) [
  | true ↦ (length run + 1) ∷ (run ++ stuff_from [] xs)
  | false ↦ elim (length run == 253) [
    | true ↦ 255 ∷ (run ++ x ∷ elim xs [ [] ↦ [] | _ ∷ _ ↦ stuff_from [] xs ])
    | false ↦ stuff_from (run ++ x ∷ []) xs
  ]
]

-- The undelimited body of a payload.
abbrev pub stuff : Bytes → Bytes
stuff = stuff_from []

-- What follows a full block: nothing at the end of the payload.
abbrev pub stuff_after : Bytes → Bytes
stuff_after [] = []
stuff_after (x ∷ xs) = stuff_from [] (x ∷ xs)

pub stuff_from-nil : (run : Bytes) → stuff_from run [] ≡ (length run + 1) ∷ run
unfolding stuff_from
stuff_from-nil run = refl

pub stuff_from-zero :
    (run : Bytes) (x : ℕ) (xs : Bytes)
    → x ≡ 0
    → stuff_from run (x ∷ xs) ≡ (length run + 1) ∷ (run ++ stuff_from [] xs)
unfolding stuff_from
stuff_from-zero run x xs e = ground arith

pub stuff_from-full :
    (run : Bytes) (x : ℕ) (xs : Bytes)
    → x ≢ 0
    → length run ≡ 253
    → stuff_from run (x ∷ xs) ≡ 255 ∷ (run ++ x ∷ stuff_after xs)
unfolding stuff_from
stuff_from-full run x [] e h = ground arith
stuff_from-full run x (y ∷ ys) e h = ground arith

pub stuff_from-more :
    (run : Bytes) (x : ℕ) (xs : Bytes)
    → x ≢ 0
    → length run ≢ 253
    → stuff_from run (x ∷ xs) ≡ stuff_from (run ++ x ∷ []) xs
unfolding stuff_from
stuff_from-more run x xs e h = ground arith

-- The body begins with the current block.
pub length-stuff_from : (run source : Bytes) → suc (length run) ≤ length (stuff_from run source)
unfolding stuff_from
length-stuff_from run [] = omega arith
length-stuff_from run (x ∷ []) =
    ground (arith, length-append run (1 ∷ []), length-append run (x ∷ []))
length-stuff_from run (x ∷ y ∷ xs) = ground (
  arith,
  length-append run (stuff_from [] (y ∷ xs)),
  length-append run (x ∷ stuff_from [] (y ∷ xs)),
  length-append run (x ∷ []),
  length-stuff_from (run ++ x ∷ []) (y ∷ xs),
)
