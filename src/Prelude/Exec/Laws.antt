-- ===== src/Prelude/Exec/Laws.antt =====
-- Where the slice operations of `Exec` do not panic, and what they give.
use cobs_io_async_rs.Prelude.Exec.{ret, sub, slice_to, copy_at}
use cobs_io_async_rs.Prelude.Lists.{
  Bytes, length, length-append, length-drop, take, drop, take-append, drop-drop, drop-append_right,
}
use mathlib.Core.List.{◌++◌, append_assoc}
use mathlib.Core.Path.{◌≡◌, sym, ap, ◌∙◌}
use native.Mathlib.Omega.{arith}
use Prim.Native.Nat.{ℕ, ◌+◌, ◌-◌, ◌≤◌}

pub slice_to-ret : (xs : Bytes) (n : ℕ) → n ≤ length xs → slice_to xs n ≡ ret (take n xs)
unfolding slice_to
slice_to-ret xs n h = ground arith

pub slice_to-append : (xs ys : Bytes) (n : ℕ) → n ≡ length xs → slice_to (xs ++ ys) n ≡ ret xs
slice_to-append xs ys n e =
    slice_to-ret (xs ++ ys) n (omega (arith, length-append xs ys)) ∙ ap ret (take-append xs ys e)

pub sub-ret : (a b : ℕ) {c : ℕ} → b ≤ a → c ≡ a - b → sub a b ≡ ret c
unfolding sub
sub-ret a b h e = ground arith

copy_at-ret :
    (dest : Bytes) (i : ℕ) (src : Bytes)
    → i + length src ≤ length dest
    → copy_at dest i src ≡ ret (take i dest ++ (src ++ drop (i + length src) dest))
unfolding copy_at
copy_at-ret dest i src h = ground arith

-- A copy just behind what is already written of `dest`.
pub copy_at-extend :
    (written dest src : Bytes) (n : ℕ) {k : ℕ}
    → n ≡ length written
    → k ≡ n + length src
    → k ≤ length dest
    → copy_at (written ++ drop n dest) n src ≡ ret ((written ++ src) ++ drop k dest)
copy_at-extend written dest src n {k} e ek h =
    copy_at-ret (written ++ drop n dest) n src
      (omega (arith, length-append written (drop n dest), length-drop n dest))
    ∙ ap ret (
        ap (λ w. w ++ (src ++ drop (n + length src) (written ++ drop n dest)))
          (take-append written (drop n dest) e)
        ∙ ap (λ r. written ++ (src ++ r)) rest
        ∙ sym (append_assoc written src (drop k dest)))
  where
    rest : drop (n + length src) (written ++ drop n dest) ≡ drop k dest
    rest =
        drop-append_right written (drop n dest) (length src) (omega arith)
        ∙ drop-drop (length src) n dest ek
