-- ===== src/Transport.antt =====
-- The traits of src/transport.rs and src/timer.rs, which the user of the crate implements. A waker is
-- a number, its identity; a context is the waker that it carries.
use cobs_io_async_rs.Prelude.{ℕ, ◌≡◌, Bytes, Result, length}

abbrev pub Waker : Type 0
Waker = ℕ

pub data Poll {ℓ} (A : Type ℓ) : Type ℓ where
  ready : A → Poll A
  pending : Poll A

-- `Transport`: `T` is the type of the link, and each method returns the link after the call.
-- `poll_read` also returns the buffer that it was given, with what was written to it.
pub record Transport (T E : Type 0) : Type 0 where
  pub poll_read : T → Waker → Bytes → T × Bytes × Poll (Result ℕ E)
  pub poll_write : T → Waker → Bytes → T × Poll (Result ℕ E)
  pub poll_flush : T → Waker → T × Poll (Result (Unit {0}) E)

-- `Timer`.
pub record Timer (C : Type 0) : Type 0 where
  pub now : C → ℕ
  pub poll_deadline : C → Waker → ℕ → C × Poll (Unit {0})

-- A slice keeps its length.
abbrev pub KeepsLength : {T E : Type 0} → Transport T E → Type 0
KeepsLength {T} {E} link =
    (t : T) (cx : Waker) (buf : Bytes) → length (link.poll_read t cx buf).1 ≡ length buf
