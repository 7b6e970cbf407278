-- ===== src/Prelude/Records.antt =====
-- Lists that record the past: what stands in them, and where, survives what is added at the end.
use Prim.Native.Nat.{ℕ, zero, suc, ◌+◌, ◌<◌, ◌≤◌}
use cobs_io_async_rs.Prelude.Tests.{◌==◌, if◌then◌else◌}
use mathlib.Core.Bool.{Bool, true, false, ◌&&◌}
use cobs_io_async_rs.Prelude.Lists.{All, Bytes, length}
use mathlib.Core.List.{List, [], ◌∷◌, ◌++◌, append_assoc, append-nil}
use mathlib.Core.Logic.{◌⊎◌, inl, inr}
use mathlib.Core.Option.{Option, none, some}
use mathlib.Core.Path.{◌≡◌, refl, sym, ap, subst, ◌∙◌}
use native.Mathlib.Omega.{arith}

-- `x` stands in the list.
abbrev pub Has : Bytes → List Bytes → Type 0
Has x [] = ⊥
Has x (y ∷ ys) = (x ≡ y) ⊎ Has x ys

pub Has-append : (x : Bytes) (xs ys : List Bytes) → Has x xs → Has x (xs ++ ys)
Has-append x [] ys h = absurd h
Has-append x (y ∷ xs) ys (inl e) = inl e
Has-append x (y ∷ xs) ys (inr h) = inr (Has-append x xs ys h)

pub Has-last : (x : Bytes) (xs : List Bytes) → Has x (xs ++ x ∷ [])
Has-last x [] = inl refl
Has-last x (y ∷ xs) = inr (Has-last x xs)

abbrev pub same : Bytes → Bytes → Bool
same [] [] = true
same [] (y ∷ ys) = false
same (x ∷ xs) [] = false
same (x ∷ xs) (y ∷ ys) = x == y && same xs ys

pub same-eq : (xs ys : Bytes) → same xs ys ≡ true → xs ≡ ys
same-eq [] [] e = refl
same-eq [] (y ∷ ys) e = absurd (cc e)
same-eq (x ∷ xs) [] e = absurd (cc e)
same-eq (x ∷ xs) (y ∷ ys) e =
    let h : x ≡ y = ground (arith, e) in
    let t : same xs ys ≡ true = ground (arith, e) in cc (h, same-eq xs ys t)

-- How often `x` stands in the list.
abbrev pub times : Bytes → List Bytes → ℕ
times x [] = 0
times x (y ∷ ys) = (if same x y then 1 else 0) + times x ys

pub times_last :
    (x : Bytes) (ys : List Bytes) (y : Bytes)
    → times x (ys ++ y ∷ []) ≡ times x ys + (if same x y then 1 else 0)
times_last x [] y = omega arith
times_last x (z ∷ ys) y = omega (arith, times_last x ys y)

pub All-Has : (P : Bytes → Type 0) (x : Bytes) (xs : List Bytes) → All P xs → Has x xs → P x
All-Has P x [] a h = absurd h
All-Has P x (y ∷ xs) a (inl e) = subst P (sym e) a.0
All-Has P x (y ∷ xs) a (inr h) = All-Has P x xs a.1 h

pub All-mono :
    (P Q : Bytes → Type 0) (xs : List Bytes) → ((x : Bytes) → P x → Q x) → All P xs → All Q xs
All-mono P Q [] f a = tt
All-mono P Q (x ∷ xs) f a = (f x a.0, All-mono P Q xs f a.1)

abbrev pub get_elem? : List Bytes → ℕ → Option Bytes
get_elem? [] i = none
get_elem? (x ∷ xs) zero = some x
get_elem? (x ∷ xs) (suc i) = get_elem? xs i

pub get_elem?-append :
    (xs ys : List Bytes) (i : ℕ) {x : Bytes}
    → get_elem? xs i ≡ some x
    → get_elem? (xs ++ ys) i ≡ some x
get_elem?-append [] ys i h = absurd (cc h)
get_elem?-append (y ∷ xs) ys zero h = h
get_elem?-append (y ∷ xs) ys (suc i) h = get_elem?-append xs ys i h

pub get_elem?_last :
    (xs : List Bytes) (x : Bytes) (i : ℕ) → i ≡ length xs → get_elem? (xs ++ x ∷ []) i ≡ some x
get_elem?_last [] x zero e = refl
get_elem?_last [] x (suc i) e = absurd (omega arith)
get_elem?_last (y ∷ xs) x zero e = absurd (omega arith)
get_elem?_last (y ∷ xs) x (suc i) e = get_elem?_last xs x i (omega arith)

pub get_elem?-append_inv :
    (xs : List Bytes) (x y : Bytes) (i : ℕ)
    → get_elem? (xs ++ x ∷ []) i ≡ some y
    → (get_elem? xs i ≡ some y) ⊎ ((i ≡ length xs) × (x ≡ y))
get_elem?-append_inv [] x y zero h = inr (refl, cc h)
get_elem?-append_inv [] x y (suc i) h = absurd (cc h)
get_elem?-append_inv (z ∷ xs) x y zero h = inl h
get_elem?-append_inv (z ∷ xs) x y (suc i) h = elim (get_elem?-append_inv xs x y i h) [
  | inl e ↦ inl e
  | inr (e, f) ↦ inr (ap suc e, f)
]

pub get_elem?-lt : (xs : List Bytes) (i : ℕ) {x : Bytes} → get_elem? xs i ≡ some x → i < length xs
get_elem?-lt [] i h = absurd (cc h)
get_elem?-lt (y ∷ xs) zero h = omega arith
get_elem?-lt (y ∷ xs) (suc i) h = omega (arith, get_elem?-lt xs i h)

pub get_elem?-some :
    (xs : List Bytes) (i : ℕ) → i < length xs → (x : Bytes) × (get_elem? xs i ≡ some x)
get_elem?-some [] i h = absurd (omega arith)
get_elem?-some (x ∷ xs) zero h = (x, refl)
get_elem?-some (x ∷ xs) (suc i) h = get_elem?-some xs i (omega arith)

-- A list that agrees with another one wherever it has an element is no longer.
pub get_elem?-le :
    (xs ys : List Bytes)
    → ((i : ℕ) (x : Bytes) → get_elem? xs i ≡ some x → get_elem? ys i ≡ some x)
    → length xs ≤ length ys
get_elem?-le [] ys h = omega arith
get_elem?-le (x ∷ xs) [] h = absurd (cc (h 0 x refl))
get_elem?-le (x ∷ xs) (y ∷ ys) h = omega (arith, get_elem?-le xs ys (λ i z e. h (suc i) z e))

abbrev pub concat : List Bytes → Bytes
concat [] = []
concat (x ∷ xs) = x ++ concat xs

pub concat_last : (xs : List Bytes) (x : Bytes) → concat (xs ++ x ∷ []) ≡ concat xs ++ x
concat_last [] x = append-nil x
concat_last (y ∷ xs) x = ap (λ r. y ++ r) (concat_last xs x) ∙ sym (append_assoc y (concat xs) x)

-- A list that agrees with another one wherever it has an element is a prefix of it.
pub concat_prefix :
    (xs ys : List Bytes)
    → ((i : ℕ) (x : Bytes) → get_elem? xs i ≡ some x → get_elem? ys i ≡ some x)
    → (rest : Bytes) × (concat ys ≡ concat xs ++ rest)
concat_prefix [] ys h = (concat ys, refl)
concat_prefix (x ∷ xs) [] h = absurd (cc (h 0 x refl))
concat_prefix (x ∷ xs) (y ∷ ys) h =
    let (rest, e) = concat_prefix xs ys (λ i z f. h (suc i) z f) in
    let same : y ≡ x = cc (h 0 x refl) in
    (rest, rw same (ap (λ r. x ++ r) e ∙ sym (append_assoc x (concat xs) rest)))

-- If it is also as long, then the two are the same.
pub concat_whole :
    (xs ys : List Bytes)
    → ((i : ℕ) (x : Bytes) → get_elem? xs i ≡ some x → get_elem? ys i ≡ some x)
    → length ys ≡ length xs
    → concat ys ≡ concat xs
concat_whole [] [] h e = refl
concat_whole [] (y ∷ ys) h e = absurd (omega arith)
concat_whole (x ∷ xs) [] h e = absurd (omega arith)
concat_whole (x ∷ xs) (y ∷ ys) h e =
    let same : y ≡ x = cc (h 0 x refl) in
    rw same (ap (λ r. x ++ r) (concat_whole xs ys (λ i z f. h (suc i) z f) (omega arith)))
