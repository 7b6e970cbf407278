-- ===== src/Sync/Encode/Rounds.antt =====
-- One round of the loop of `encode_from_slice`, branch by branch, by the writes that it makes, and
-- where those land in the buffer.
use cobs_io_async_rs.Error.{SeekableError, out_of_bounds}
use cobs_io_async_rs.Prelude.{
  ℕ, suc, ◌+◌, ◌<◌, ◌≡◌, ◌≢◌, refl, true, false, [], ◌∷◌, ◌++◌, Bytes, none, some, Result, ok, err,
  length, length-append, write_at, write_at-append, write_at_here, write_at_oob, arith,
}
use cobs_io_async_rs.Sync.Encode.{Block, new_block, encode_byte, encode_loop, close_block}
use cobs_io_async_rs.Sync.Output.{SliceOutput, Out, after, ◌>>=◌}

-- The rest of a call, from the top of the loop.
unfoldable pub encode_rest : Block → Bytes → Out ℕ
encode_rest b source = do b ← encode_loop b source; close_block b

pub after_assoc :
    {A B C : Type 0} (r : SliceOutput × Result A SeekableError) (f : A → Out B) (g : B → Out C)
    → after (after r f) g ≡ after r (λ a. f a >>= g)
after_assoc (o, ok a) f g = refl
after_assoc (o, err e) f g = refl

-- An error ends the call.
pub after-err :
    {A B : Type 0} (r : SliceOutput × Result A SeekableError) (f : A → Out B) {e : SeekableError}
    → r.1 ≡ err e
    → (after r f).1 ≡ err e
after-err (o, ok a) f h = cc
after-err (o, err e) f h = cc

pub encode_rest-cons :
    (b : Block) (x : ℕ) (xs : Bytes) (o : SliceOutput)
    → encode_rest b (x ∷ xs) o ≡ after (encode_byte b x o) (λ b'. encode_rest b' xs)
unfolding encode_rest encode_loop
encode_rest-cons b x xs o = after_assoc (encode_byte b x o) (λ b'. encode_loop b' xs) close_block

abbrev pub output : Bytes → ℕ → SliceOutput
output dest len = record { dest = dest; len = len }

abbrev pub block : ℕ → ℕ → Block
block idx code = record { code_idx = idx; code = code; needs_code_placeholder = false }

abbrev pub full_block : ℕ → Block
full_block idx = record { code_idx = idx; code = 1; needs_code_placeholder = true }

-- One round of the loop, by the writes that it makes.
module _ (d : Bytes) (l i c x : ℕ) where
  pub encode_byte-zero :
      {d1 d2 : Bytes}
      → x ≡ 0
      → write_at d i c ≡ some d1
      → write_at d1 l 0 ≡ some d2
      → encode_byte (block i c) x (output d l) ≡ (output d2 (l + 1), ok (new_block l))
  unfolding encode_byte
  encode_byte-zero e w1 w2 = ground arith

  pub encode_byte-zero_oob :
      {d1 : Bytes}
      → x ≡ 0
      → write_at d i c ≡ some d1
      → write_at d1 l 0 ≡ none
      → (encode_byte (block i c) x (output d l)).1 ≡ err out_of_bounds
  unfolding encode_byte
  encode_byte-zero_oob e w1 w2 = ground arith

  pub encode_byte-full :
      {d1 d2 : Bytes}
      → x ≢ 0
      → c ≡ 254
      → write_at d i 255 ≡ some d1
      → write_at d1 l x ≡ some d2
      → encode_byte (block i c) x (output d l) ≡ (output d2 (l + 1), ok (full_block (l + 1)))
  unfolding encode_byte
  encode_byte-full e h w1 w2 = ground arith

  pub encode_byte-full_oob :
      {d1 : Bytes}
      → x ≢ 0
      → c ≡ 254
      → write_at d i 255 ≡ some d1
      → write_at d1 l x ≡ none
      → (encode_byte (block i c) x (output d l)).1 ≡ err out_of_bounds
  unfolding encode_byte
  encode_byte-full_oob e h w1 w2 = ground arith

  pub encode_byte-more :
      {d1 : Bytes}
      → x ≢ 0
      → c < 254
      → write_at d l x ≡ some d1
      → encode_byte (block i c) x (output d l) ≡ (output d1 (l + 1), ok (block i (c + 1)))
  unfolding encode_byte
  encode_byte-more e h w1 = ground arith

  pub encode_byte-more_oob :
      x ≢ 0
      → c < 254
      → write_at d l x ≡ none
      → (encode_byte (block i c) x (output d l)).1 ≡ err out_of_bounds
  unfolding encode_byte
  encode_byte-more_oob e h w1 = ground arith

  -- A block that follows a full one begins with its placeholder.
  pub encode_byte-place :
      {d1 : Bytes}
      → write_at d l 0 ≡ some d1
      → encode_byte (full_block i) x (output d l) ≡ encode_byte (new_block i) x (output d1 (l + 1))
  unfolding encode_byte
  encode_byte-place w1 = ground arith

  pub encode_byte-place_oob :
      write_at d l 0 ≡ none → (encode_byte (full_block i) x (output d l)).1 ≡ err out_of_bounds
  unfolding encode_byte
  encode_byte-place_oob w1 = ground arith

-- The buffer inside a block: what precedes it, its code byte, its run, and the space behind.
abbrev pub layout : Bytes → ℕ → Bytes → Bytes → Bytes
layout pre code run space = pre ++ code ∷ (run ++ space)

pub write_code :
    (pre : Bytes) (ph c : ℕ) (run space : Bytes)
    → write_at (layout pre ph run space) (length pre) c ≡ some (layout pre c run space)
write_code pre ph c run space = write_at_here pre (run ++ space) ph c refl

pub write_next :
    (pre : Bytes) (c : ℕ) (run : Bytes) (u v : ℕ) (space : Bytes)
    → write_at (layout pre c run (u ∷ space)) (length pre + (length run + 1)) v
      ≡ some (layout pre c run (v ∷ space))
unfolding write_at
write_next pre c run u v space =
    write_at-append pre (c ∷ (run ++ u ∷ space)) v (suc (length run)) (omega arith)
      (rw (write_at_here run space u v refl, write_at))

pub write_next_oob :
    (pre : Bytes) (c : ℕ) (run : Bytes) (v : ℕ)
    → write_at (layout pre c run []) (length pre + (length run + 1)) v ≡ none
write_next_oob pre c run v =
    write_at_oob (layout pre c run []) _ v
      (omega (arith, length-append pre (c ∷ (run ++ [])), length-append run []))
