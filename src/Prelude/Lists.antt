-- ===== src/Prelude/Lists.antt =====
-- Lists measured and indexed by native numbers, under the library's names, and a slice seen as the
-- list of its elements.
use Prim.Native.Nat.{ℕ, zero, suc, ◌+◌, ◌-◌, ◌≤◌, ◌<◌, min}
use mathlib.Core.Path.{◌≡◌, refl, sym, ap, ◌∙◌}
use mathlib.Core.List.{List, [], ◌∷◌, ◌++◌}
use mathlib.Core.Option.{Option, none, some}
use mathlib.Core.Logic.{inl, inr}
use cobs_io_async_rs.Prelude.Tests.{Option-cases}
use native.Mathlib.Omega.{arith}

-- The bytes of a slice. Where a byte's range matters it is a hypothesis.
abbrev pub Bytes : Type 0
Bytes = List ℕ

module _ {ℓ} {A : Type ℓ} where
  abbrev pub All {κ} : (A → Type κ) → List A → Type κ
  All P [] = Unit {κ}
  All P (x ∷ xs) = P x × All P xs

  abbrev pub length : List A → ℕ
  length [] = 0
  length (x ∷ xs) = suc (length xs)

  abbrev pub get_or : List A → ℕ → A → A
  get_or [] i d = d
  get_or (x ∷ xs) zero d = x
  get_or (x ∷ xs) (suc i) d = get_or xs i d

  abbrev pub take : ℕ → List A → List A
  take zero xs = []
  take (suc n) [] = []
  take (suc n) (x ∷ xs) = x ∷ take n xs

  abbrev pub drop : ℕ → List A → List A
  drop zero xs = xs
  drop (suc n) [] = []
  drop (suc n) (x ∷ xs) = drop n xs

  abbrev pub replicate : ℕ → A → List A
  replicate zero a = []
  replicate (suc n) a = a ∷ replicate n a

  pub length-append : (xs ys : List A) → length (xs ++ ys) ≡ length xs + length ys
  length-append [] ys = omega arith
  length-append (x ∷ xs) ys = omega (arith, length-append xs ys)

  pub All-append {κ} : (P : A → Type κ) (xs ys : List A) → All P xs → All P ys → All P (xs ++ ys)
  All-append P [] ys h k = k
  All-append P (x ∷ xs) ys h k = (h.0, All-append P xs ys h.1 k)

  pub All-take {κ} : (P : A → Type κ) (n : ℕ) (xs : List A) → All P xs → All P (take n xs)
  All-take P zero xs h = tt
  All-take P (suc n) [] h = tt
  All-take P (suc n) (x ∷ xs) h = (h.0, All-take P n xs h.1)

  pub All-drop {κ} : (P : A → Type κ) (n : ℕ) (xs : List A) → All P xs → All P (drop n xs)
  All-drop P zero xs h = h
  All-drop P (suc n) [] h = tt
  All-drop P (suc n) (x ∷ xs) h = All-drop P n xs h.1

  pub length-take : (n : ℕ) (xs : List A) → length (take n xs) ≡ min n (length xs)
  length-take zero xs = omega arith
  length-take (suc n) [] = omega arith
  length-take (suc n) (x ∷ xs) = omega (arith, length-take n xs)

  pub length-drop : (n : ℕ) (xs : List A) → length (drop n xs) ≡ length xs - n
  length-drop zero xs = omega arith
  length-drop (suc n) [] = omega arith
  length-drop (suc n) (x ∷ xs) = omega (arith, length-drop n xs)

  pub length-replicate : (n : ℕ) (a : A) → length (replicate n a) ≡ n
  length-replicate zero a = refl
  length-replicate (suc n) a = ap suc (length-replicate n a)

  pub take-append-drop : (n : ℕ) (xs : List A) → take n xs ++ drop n xs ≡ xs
  take-append-drop zero xs = refl
  take-append-drop (suc n) [] = refl
  take-append-drop (suc n) (x ∷ xs) = ap (λ r. x ∷ r) (take-append-drop n xs)

  -- The two parts of a list cut at the end of the first of its pieces.
  pub take-append : (xs ys : List A) {n : ℕ} → n ≡ length xs → take n (xs ++ ys) ≡ xs
  take-append [] ys {n = zero} e = refl
  take-append [] ys {n = suc n} e = absurd (omega arith)
  take-append (x ∷ xs) ys {n = zero} e = absurd (omega arith)
  take-append (x ∷ xs) ys {n = suc n} e = ap (λ r. x ∷ r) (take-append xs ys (omega arith))

  pub drop-append : (xs ys : List A) {n : ℕ} → n ≡ length xs → drop n (xs ++ ys) ≡ ys
  drop-append [] ys {n = zero} e = refl
  drop-append [] ys {n = suc n} e = absurd (omega arith)
  drop-append (x ∷ xs) ys {n = zero} e = absurd (omega arith)
  drop-append (x ∷ xs) ys {n = suc n} e = drop-append xs ys (omega arith)

  pub take-length : (xs : List A) {n : ℕ} → n ≡ length xs → take n xs ≡ xs
  take-length [] {n = zero} e = refl
  take-length [] {n = suc n} e = refl
  take-length (x ∷ xs) {n = zero} e = absurd (omega arith)
  take-length (x ∷ xs) {n = suc n} e = ap (λ r. x ∷ r) (take-length xs (omega arith))

  -- `slice.get_mut(i)` written through: nothing where `i` is out of bounds.
  unfoldable pub write_at : List A → ℕ → A → Option (List A)
  write_at [] i v = none
  write_at (x ∷ xs) zero v = some (v ∷ xs)
  write_at (x ∷ xs) (suc i) v = elim (write_at xs i v) [ none ↦ none | some ys ↦ some (x ∷ ys) ]

  -- A write past a prefix is a write into the rest, in bounds or not.
  pub write_at-append :
      (pre ys : List A) (v : A) {i : ℕ} (j : ℕ) {zs : List A}
      → i ≡ length pre + j
      → write_at ys j v ≡ some zs
      → write_at (pre ++ ys) i v ≡ some (pre ++ zs)
  unfolding write_at
  write_at-append [] ys v {i} j e h = let e' : i ≡ j = omega arith in rw e' h
  write_at-append (x ∷ pre) ys v {i = zero} j e h = absurd (omega arith)
  write_at-append (x ∷ pre) ys v {i = suc i} j e h =
      rw (write_at-append pre ys v {i = i} j (omega arith) h)

  pub write_at_here :
      (pre ys : List A) (y v : A) {i : ℕ}
      → i ≡ length pre
      → write_at (pre ++ y ∷ ys) i v ≡ some (pre ++ v ∷ ys)
  unfolding write_at
  write_at_here pre ys y v e = write_at-append pre (y ∷ ys) v 0 (omega arith) refl

  pub write_at_oob : (xs : List A) (i : ℕ) (v : A) → length xs ≤ i → write_at xs i v ≡ none
  unfolding write_at
  write_at_oob [] i v h = refl
  write_at_oob (x ∷ xs) zero v h = absurd (omega arith)
  write_at_oob (x ∷ xs) (suc i) v h = rw (write_at_oob xs i v (omega arith))

  pub drop-cons : (n : ℕ) (x : A) (xs : List A) → 0 < n → drop n (x ∷ xs) ≡ drop (n - 1) xs
  drop-cons zero x xs h = absurd (omega arith)
  drop-cons (suc n) x xs h = ap (λ (k : ℕ). drop k xs) (omega arith)

  pub write_at-drop :
      (n : ℕ) (xs : List A) (v : A)
      → n < length xs
      → write_at (drop n xs) 0 v ≡ some (v ∷ drop (suc n) xs)
  unfolding write_at
  write_at-drop n [] v h = absurd (omega arith)
  write_at-drop zero (x ∷ xs) v h = refl
  write_at-drop (suc n) (x ∷ xs) v h = write_at-drop n xs v (omega arith)

  pub length-write_at :
      (xs : List A) (i : ℕ) (v : A) {ys : List A}
      → write_at xs i v ≡ some ys
      → length ys ≡ length xs
  unfolding write_at
  length-write_at [] i v h = cc
  length-write_at (x ∷ xs) zero v h = ground arith
  length-write_at (x ∷ xs) (suc i) v h = elim (Option-cases (write_at xs i v)) [
    | inl e ↦ absurd (ground arith)
    | inr (zs, e) ↦ ground (arith, length-write_at xs i v e)
  ]

  pub drop-write_at :
      (xs : List A) (i : ℕ) (v : A) {ys : List A}
      → write_at xs i v ≡ some ys
      → drop (suc i) ys ≡ drop (suc i) xs
  unfolding write_at
  drop-write_at [] i v h = cc
  drop-write_at (x ∷ xs) zero v h = ground arith
  drop-write_at (x ∷ xs) (suc i) v h = elim (Option-cases (write_at xs i v)) [
    | inl e ↦ absurd (ground arith)
    | inr (zs, e) ↦ ground (arith, drop-write_at xs i v e)
  ]

  pub write_at-lt :
      (xs : List A) (i : ℕ) (v : A) {ys : List A} → write_at xs i v ≡ some ys → i < length xs
  unfolding write_at
  write_at-lt [] i v h = cc
  write_at-lt (x ∷ xs) zero v h = omega arith
  write_at-lt (x ∷ xs) (suc i) v h = elim (Option-cases (write_at xs i v)) [
    | inl e ↦ absurd (ground arith)
    | inr (zs, e) ↦ omega (arith, write_at-lt xs i v e)
  ]

  pub drop-nil : (n : ℕ) → [] ≡ drop n []
  drop-nil zero = refl
  drop-nil (suc n) = refl

  drop_one : (n : ℕ) (xs : List A) → drop (suc n) xs ≡ drop 1 (drop n xs)
  drop_one zero xs = refl
  drop_one (suc n) [] = refl
  drop_one (suc n) (x ∷ xs) = drop_one n xs

  pub drop-suc :
      (n : ℕ) (xs ys : List A) → drop n xs ≡ drop n ys → drop (suc n) xs ≡ drop (suc n) ys
  drop-suc n xs ys h = drop_one n xs ∙ ap (drop 1) h ∙ sym (drop_one n ys)

  pub drop-drop : (m n : ℕ) (xs : List A) {k : ℕ} → k ≡ n + m → drop m (drop n xs) ≡ drop k xs
  drop-drop m zero xs e = let e' : m ≡ _ = omega arith in ap (λ (k : ℕ). drop k xs) e'
  drop-drop zero (suc n) [] {k} e = drop-nil k
  drop-drop (suc m) (suc n) [] {k} e = drop-nil k
  drop-drop m (suc n) (x ∷ xs) {k = zero} e = absurd (omega arith)
  drop-drop m (suc n) (x ∷ xs) {k = suc k} e = drop-drop m n xs (omega arith)

  -- Cutting past a prefix cuts the rest.
  pub drop-append_right :
      (xs ys : List A) (m : ℕ) {k : ℕ} → k ≡ length xs + m → drop k (xs ++ ys) ≡ drop m ys
  drop-append_right [] ys m e = let e' : _ ≡ m = omega arith in ap (λ (k : ℕ). drop k ys) e'
  drop-append_right (x ∷ xs) ys m {k = zero} e = absurd (omega arith)
  drop-append_right (x ∷ xs) ys m {k = suc k} e = drop-append_right xs ys m (omega arith)
