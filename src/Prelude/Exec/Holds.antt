-- ===== src/Prelude/Exec/Holds.antt =====
-- Code that does not panic and whose result satisfies a predicate.
use cobs_io_async_rs.Prelude.Exec.{Exec, ret, panic, ◌>>=◌, slice_to, slice_from, copy_at}
use cobs_io_async_rs.Prelude.Lists.{
  Bytes, length, length-append, length-take, length-drop, take, drop,
}
use cobs_io_async_rs.Prelude.Tests.{leb, if◌then◌else◌}
use mathlib.Core.Bool.{Bool, true, false}
use mathlib.Core.List.{◌++◌}
use mathlib.Core.Path.{◌≡◌, refl}
use native.Mathlib.Omega.{arith}
use Prim.Native.Nat.{ℕ, ◌+◌, ◌≤◌}

abbrev pub Holds {ℓ} : {A : Type ℓ} → (A → Type 0) → Exec A → Type 0
Holds P (ret a) = P a
Holds P panic = ⊥

pub bind-Holds {ℓ κ} :
    {A : Type ℓ} {B : Type κ} (P : A → Type 0) (Q : B → Type 0) (m : Exec A) (f : A → Exec B)
    → Holds P m
    → ((a : A) → P a → Holds Q (f a))
    → Holds Q (m >>= f)
bind-Holds P Q (ret a) f h k = k a h
bind-Holds P Q panic f h k = absurd h

pub map-Holds {ℓ} :
    {A : Type ℓ} (P Q : A → Type 0) (m : Exec A) → Holds P m → ((a : A) → P a → Q a) → Holds Q m
map-Holds P Q (ret a) h k = k a h
map-Holds P Q panic h k = h

pub slice_to-Holds :
    (xs : Bytes) (n : ℕ) → n ≤ length xs → Holds (λ ys. ys ≡ take n xs) (slice_to xs n)
unfolding slice_to
slice_to-Holds xs n h = let e : leb n (length xs) ≡ true = ground arith in rw e refl

pub slice_from-Holds :
    (xs : Bytes) (n : ℕ) → n ≤ length xs → Holds (λ ys. ys ≡ drop n xs) (slice_from xs n)
unfolding slice_from
slice_from-Holds xs n h = let e : leb n (length xs) ≡ true = ground arith in rw e refl

pub copy_at-Holds :
    (dest : Bytes) (i : ℕ) (src : Bytes)
    → i + length src ≤ length dest
    → Holds (λ ys. length ys ≡ length dest) (copy_at dest i src)
unfolding copy_at
copy_at-Holds dest i src h =
    let e : leb (i + length src) (length dest) ≡ true = ground arith in
    rw e (
      omega (
        arith,
        length-append (take i dest) (src ++ drop (i + length src) dest),
        length-append src (drop (i + length src) dest),
        length-take i dest,
        length-drop (i + length src) dest,
      ))

-- Both branches of a test, each with what the test has found.
pub if-Holds {ℓ} :
    {A : Type ℓ} (P : A → Type 0) (b : Bool) {x y : A}
    → (b ≡ true → P x)
    → (b ≡ false → P y)
    → P (if b then x else y)
if-Holds P true f g = f refl
if-Holds P false f g = g refl
