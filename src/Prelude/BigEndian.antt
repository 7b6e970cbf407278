-- ===== src/Prelude/BigEndian.antt =====
-- `to_be_bytes` and `from_be_bytes` of the unsigned integers, by their number of bytes.
use Prim.Native.Nat.{ℕ, zero, suc, ◌+◌, ◌*◌, ◌/◌, ◌%◌, ◌^◌, ◌<◌}
use cobs_io_async_rs.Prelude.Lists.{Bytes, All, All-append, length, length-append}
use mathlib.Core.List.{[], ◌∷◌, ◌++◌, append-nil, append_assoc}
use mathlib.Core.Path.{◌≡◌, refl, ◌∙◌}
use native.Mathlib.Nat.{pow-suc}
use native.Mathlib.Omega.{arith}

unfoldable pub to_be_bytes : ℕ → ℕ → Bytes
to_be_bytes zero v = []
to_be_bytes (suc w) v = to_be_bytes w (v / 256) ++ (v % 256) ∷ []

from_be_onto : ℕ → Bytes → ℕ
from_be_onto acc [] = acc
from_be_onto acc (b ∷ bs) = from_be_onto (acc * 256 + b) bs

unfoldable pub from_be_bytes : Bytes → ℕ
unfolding from_be_onto
from_be_bytes bs = from_be_onto 0 bs

pub length-to_be_bytes : (w v : ℕ) → length (to_be_bytes w v) ≡ w
unfolding to_be_bytes
length-to_be_bytes zero v = refl
length-to_be_bytes (suc w) v = omega (
  arith,
  length-append (to_be_bytes w (v / 256)) ((v % 256) ∷ []),
  length-to_be_bytes w (v / 256),
)

from_be_onto-append :
    (acc : ℕ) (bs : Bytes) (b : ℕ) → from_be_onto acc (bs ++ b ∷ []) ≡ from_be_onto acc bs * 256 + b
unfolding from_be_onto
from_be_onto-append acc [] b = refl
from_be_onto-append acc (c ∷ bs) b = from_be_onto-append (acc * 256 + c) bs b

below : (w v : ℕ) → v < 256 ^ suc w → v / 256 < 256 ^ w
below w v h = omega (arith, pow-suc 256 w)

pub from_be_bytes-to_be_bytes : (w v : ℕ) → v < 256 ^ w → from_be_bytes (to_be_bytes w v) ≡ v
unfolding from_be_bytes to_be_bytes
from_be_bytes-to_be_bytes zero v h = omega arith
from_be_bytes-to_be_bytes (suc w) v h =
    from_be_onto-append 0 (to_be_bytes w (v / 256)) (v % 256)
    ∙ omega (arith, from_be_bytes-to_be_bytes w (v / 256) (below w v h))

abbrev pub IsByte : ℕ → Type 0
IsByte b = b < 256

to_be_bytes-from_be_onto :
    (n w acc : ℕ) (bs : Bytes)
    → n ≡ w + length bs
    → All IsByte bs
    → to_be_bytes n (from_be_onto acc bs) ≡ to_be_bytes w acc ++ bs
unfolding to_be_bytes from_be_onto
to_be_bytes-from_be_onto n w acc [] e h = let e' : n ≡ w = omega arith in rw (e', append-nil)
to_be_bytes-from_be_onto n w acc (b ∷ bs) e h =
    let low : (acc * 256 + b) % 256 ≡ b = omega (arith, h.0) in
    let high : (acc * 256 + b) / 256 ≡ acc = omega (arith, h.0) in
    to_be_bytes-from_be_onto n (suc w) (acc * 256 + b) bs (omega arith) h.1
    ∙ rw (low, high, append_assoc)

pub to_be_bytes-from_be_bytes :
    (n : ℕ) (bs : Bytes) → n ≡ length bs → All IsByte bs → to_be_bytes n (from_be_bytes bs) ≡ bs
unfolding from_be_bytes to_be_bytes
to_be_bytes-from_be_bytes n bs e h = to_be_bytes-from_be_onto n 0 0 bs (omega arith) h

-- The bytes of a `u32` are those of its remainder.
pub to_be_bytes_wrap : (v : ℕ) → to_be_bytes 4 (v % 2 ^ 32) ≡ to_be_bytes 4 v
unfolding to_be_bytes
to_be_bytes_wrap v =
    let a : ((v % 2 ^ 32) / 256 / 256 / 256) % 256 ≡ (v / 256 / 256 / 256) % 256 = omega arith in
    let b : ((v % 2 ^ 32) / 256 / 256) % 256 ≡ (v / 256 / 256) % 256 = omega arith in
    let c : ((v % 2 ^ 32) / 256) % 256 ≡ (v / 256) % 256 = omega arith in
    let d : (v % 2 ^ 32) % 256 ≡ v % 256 = omega arith in rw (a, b, c, d) refl

pub to_be_bytes-IsByte : (w v : ℕ) → All IsByte (to_be_bytes w v)
unfolding to_be_bytes
to_be_bytes-IsByte zero v = tt
to_be_bytes-IsByte (suc w) v =
    All-append IsByte (to_be_bytes w (v / 256)) _ (to_be_bytes-IsByte w (v / 256)) (omega arith, tt)

from_be_onto-lt :
    (w acc : ℕ) (bs : Bytes)
    → All IsByte bs
    → acc < 256 ^ w
    → from_be_onto acc bs < 256 ^ (w + length bs)
unfolding from_be_onto
from_be_onto-lt w acc [] h k = let e : w + 0 ≡ w = omega arith in rw e k
from_be_onto-lt w acc (b ∷ bs) h k =
    let e : w + suc (length bs) ≡ suc w + length bs = omega arith in
    rw e (from_be_onto-lt (suc w) (acc * 256 + b) bs h.1 (omega (arith, pow-suc 256 w, h.0)))

pub from_be_bytes-lt :
    (w : ℕ) (bs : Bytes) → w ≡ length bs → All IsByte bs → from_be_bytes bs < 256 ^ w
unfolding from_be_bytes
from_be_bytes-lt w bs e h =
    let e' : w ≡ 0 + length bs = omega arith in rw e' (from_be_onto-lt 0 0 bs h (omega arith))
