-- ===== src/Prelude/Exec/Ensures.antt =====
-- What code guarantees of its result where it does not panic.
use cobs_io_async_rs.Prelude.Exec.Holds.{Holds, map-Holds, if-Holds, copy_at-Holds}
use cobs_io_async_rs.Prelude.Exec.{Exec, ret, panic, ◌>>=◌, slice_to, slice_from, copy_at}
use cobs_io_async_rs.Prelude.Lists.{Bytes, length, take, drop}
use cobs_io_async_rs.Prelude.Tests.{leb, if◌then◌else◌}
use native.Mathlib.Omega.{arith}
use mathlib.Core.Bool.{Bool, true, false}
use mathlib.Core.List.{◌++◌}
use mathlib.Core.Path.{◌≡◌, refl, subst}
use Prim.Native.Nat.{ℕ, ◌+◌}

abbrev pub Ensures {ℓ} : {A : Type ℓ} → (A → Type 0) → Exec A → Type 0
Ensures P (ret a) = P a
Ensures P panic = Unit

pub bind-Ensures {ℓ κ} :
    {A : Type ℓ} {B : Type κ} (P : A → Type 0) (Q : B → Type 0) (m : Exec A) (f : A → Exec B)
    → Ensures P m
    → ((a : A) → P a → Ensures Q (f a))
    → Ensures Q (m >>= f)
bind-Ensures P Q (ret a) f h k = k a h
bind-Ensures P Q panic f h k = tt

pub map-Ensures {ℓ} :
    {A : Type ℓ} (P Q : A → Type 0) (m : Exec A) → Ensures P m → ((a : A) → P a → Q a) → Ensures Q m
map-Ensures P Q (ret a) h k = k a h
map-Ensures P Q panic h k = tt

-- Code that does not panic gives what it guarantees.
pub both-Holds {ℓ} :
    {A : Type ℓ} (P Q : A → Type 0) (m : Exec A)
    → Holds P m
    → Ensures Q m
    → Holds (λ a. P a × Q a) m
both-Holds P Q (ret a) h k = (h, k)
both-Holds P Q panic h k = absurd h

pub also-Holds {ℓ} :
    {A : Type ℓ} (P Q : A → Type 0) (m : Exec A) → Holds P m → Ensures Q m → Holds Q m
also-Holds P Q m h q = map-Holds (λ a. P a × Q a) Q m (both-Holds P Q m h q) (λ a x. x.1)

pub both-Ensures {ℓ} :
    {A : Type ℓ} (P Q : A → Type 0) (m : Exec A)
    → Ensures P m
    → Ensures Q m
    → Ensures (λ a. P a × Q a) m
both-Ensures P Q (ret a) h k = (h, k)
both-Ensures P Q panic h k = tt

pub Ensures-Holds {ℓ} : {A : Type ℓ} (P : A → Type 0) (m : Exec A) → Holds P m → Ensures P m
Ensures-Holds P (ret a) h = h
Ensures-Holds P panic h = tt

pub Ensures-any {ℓ} : {A : Type ℓ} (m : Exec A) → Ensures (λ a. Unit {0}) m
Ensures-any (ret a) = tt
Ensures-any panic = tt

pub Ensures-ret {ℓ} :
    {A : Type ℓ} (P : A → Type 0) (m : Exec A) {a : A} → Ensures P m → m ≡ ret a → P a
Ensures-ret P m h e = subst (Ensures P) e h

guarded : {A : Type 0} (b : Bool) (a : A) → Ensures (λ x. x ≡ a) (if b then ret a else panic)
guarded true a = refl
guarded false a = tt

pub slice_to-Ensures : (xs : Bytes) (n : ℕ) → Ensures (λ ys. ys ≡ take n xs) (slice_to xs n)
unfolding slice_to
slice_to-Ensures xs n = guarded (leb n (length xs)) (take n xs)

pub slice_from-Ensures : (xs : Bytes) (n : ℕ) → Ensures (λ ys. ys ≡ drop n xs) (slice_from xs n)
unfolding slice_from
slice_from-Ensures xs n = guarded (leb n (length xs)) (drop n xs)

pub copy_at-Ensures :
    (dest : Bytes) (i : ℕ) (src : Bytes)
    → Ensures (λ ys. ys ≡ take i dest ++ (src ++ drop (i + length src) dest)) (copy_at dest i src)
unfolding copy_at
copy_at-Ensures dest i src =
    guarded (leb (i + length src) (length dest))
      (take i dest ++ (src ++ drop (i + length src) dest))

pub length-copy_at :
    (dest : Bytes) (i : ℕ) (src : Bytes)
    → Ensures (λ ys. length ys ≡ length dest) (copy_at dest i src)
unfolding copy_at
length-copy_at dest i src =
    let same : Bytes → Type 0 = λ ys. length ys ≡ length dest in
    if-Holds (Ensures same) (leb (i + length src) (length dest))
      (λ fits.
        let h : Holds same (copy_at dest i src) = copy_at-Holds dest i src (ground arith) in
        Ensures-Holds same (ret (take i dest ++ (src ++ drop (i + length src) dest))) (
          subst
            (λ b.
              Holds same
                (if b then ret (take i dest ++ (src ++ drop (i + length src) dest)) else panic))
            fits h))
      (λ over. tt)
