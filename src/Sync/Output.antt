-- ===== src/Sync/Output.antt =====
-- `SliceOutput` of src/sync.rs, and the monad of code that writes to one and may fail. An early
-- return by `?` keeps what has been written.
use cobs_io_async_rs.Error.{SeekableError, out_of_bounds}
use cobs_io_async_rs.Prelude.{ℕ, ◌+◌, Bytes, Result, ok, err, Option, none, some, write_at}

pub record SliceOutput : Type 0 where
  pub dest : Bytes
  pub len : ℕ

abbrev pub Out : Type 0 → Type 0
Out A = SliceOutput → SliceOutput × Result A SeekableError

abbrev pub after :
    {A B : Type 0}
    → SliceOutput × Result A SeekableError
    → (A → Out B)
    → SliceOutput × Result B SeekableError
after (o, ok a) f = f a o
after (o, err e) f = (o, err e)

infixl 5 ◌>>=◌ ◌>>◌
abbrev pub ◌>>=◌ : {A B : Type 0} → Out A → (A → Out B) → Out B
◌>>=◌ m f o = after (m o) f

abbrev pub ◌>>◌ : {B : Type 0} → Out (Unit {0}) → Out B → Out B
m >> k = m >>= λ _. k

abbrev pub pure : {A : Type 0} → A → Out A
pure a o = (o, ok a)

abbrev pub get_len : Out ℕ
get_len o = (o, ok o.len)

-- What `*dest.get_mut(i).ok_or(OutOfBounds)? = byte` leaves, with the new `len`.
abbrev stored : SliceOutput → ℕ → Option Bytes → SliceOutput × Result (Unit {0}) SeekableError
stored o len none = (o, err out_of_bounds)
stored o len (some dest) = (record { dest = dest; len = len }, ok tt)

unfoldable pub append : ℕ → Out (Unit {0})
append byte o = stored o (o.len + 1) (write_at o.dest o.len byte)

unfoldable pub set : ℕ → ℕ → Out (Unit {0})
set idx byte o = stored o o.len (write_at o.dest idx byte)
