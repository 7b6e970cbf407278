-- ===== src/Prelude/Exec.antt =====
-- Code that may panic, and the slice operations that do where a range is out of bounds.
pub mod Laws
pub mod Holds
pub mod Ensures
use Prim.Native.Nat.{ℕ, zero, ◌+◌, ◌-◌}
use cobs_io_async_rs.Prelude.Lists.{Bytes, length, take, drop}
use cobs_io_async_rs.Prelude.Tests.{leb, if◌then◌else◌}
use mathlib.Core.List.{List, ◌++◌}

pub data Exec {ℓ} (A : Type ℓ) : Type ℓ where
  ret : A → Exec A
  panic : Exec A

infixl 5 ◌>>=◌ ◌>>◌
abbrev pub ◌>>=◌ {ℓ κ} : {A : Type ℓ} {B : Type κ} → Exec A → (A → Exec B) → Exec B
ret a >>= f = f a
panic >>= f = panic

abbrev pub ◌>>◌ {ℓ} : {B : Type ℓ} → Exec (Unit {0}) → Exec B → Exec B
m >> k = m >>= λ _. k

-- `a - b` on an unsigned integer, which must not go below 0.
unfoldable pub sub : ℕ → ℕ → Exec ℕ
sub a b = if leb b a then ret (a - b) else panic

-- `&xs[..n]` and `&xs[n..]`.
unfoldable pub slice_to : Bytes → ℕ → Exec Bytes
slice_to xs n = if leb n (length xs) then ret (take n xs) else panic

unfoldable pub slice_from : Bytes → ℕ → Exec Bytes
slice_from xs n = if leb n (length xs) then ret (drop n xs) else panic

-- `dest[i..i + src.len()].copy_from_slice(src)`.
unfoldable pub copy_at : Bytes → ℕ → Bytes → Exec Bytes
copy_at dest i src =
    if leb (i + length src) (length dest)
    then ret (take i dest ++ (src ++ drop (i + length src) dest))
    else panic
