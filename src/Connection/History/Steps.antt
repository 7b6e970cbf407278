-- ===== src/Connection/History/Steps.antt =====
-- What is kept by the driver and by the user holds in every life.
use cobs_io_async_rs.Connection.Api.Cancel.{cancel_pending_lem}
use cobs_io_async_rs.Connection.Api.{new}
use cobs_io_async_rs.Connection.History.Life.{
  Life, created, writes, reads, flushes, progresses, cancels,
}
use cobs_io_async_rs.Connection.Kept.Api.{
  IsUserKept, poll_read_kept, poll_write_kept, poll_flush_kept, poll_progress_kept,
}
use cobs_io_async_rs.Connection.Kept.{IsKept}
use cobs_io_async_rs.Connection.State.{Config, Reliable}
use cobs_io_async_rs.Error.{ConfigError}
use cobs_io_async_rs.Prelude.Exec.Ensures.{Ensures-ret}
use cobs_io_async_rs.Prelude.{ℕ, sym, subst, List, Bytes, Result, ok, err}
use cobs_io_async_rs.Transport.{Transport, Timer}

-- `P` holds of the connection, if `new` returns one.
abbrev pub Starts :
    {T C E : Type 0} → (Reliable T C E → Type 0) → Result (Reliable T C E) ConfigError → Type 0
Starts P (ok c) = P c
Starts P (err e) = Unit

module _ {T C E : Type 0} (link : Transport T E) (clock : Timer C) (capacity : ℕ) (config : Config)
    (start : T) (P : Reliable T C E → Type 0) (k : IsKept link clock capacity P)
    (u : IsUserKept P) where
  pub Life-kept :
      ((timer : C) → Starts P (new capacity start timer config))
      → {wrote : List Bytes} {got : Bytes} {c : Reliable T C E}
      → Life link clock capacity config start wrote got c
      → P c
  Life-kept fresh (created timer e) = subst (Starts P) e (fresh timer)
  Life-kept fresh (writes {c = c} cx buf l e) =
      Ensures-ret (λ r. P r.0) _
        (poll_write_kept link clock capacity P k u cx buf c (Life-kept fresh l)) e
  Life-kept fresh (reads {c = c} cx buf l e) =
      Ensures-ret (λ r. P r.1) _
        (poll_read_kept link clock capacity P k u cx buf c (Life-kept fresh l)) e
  Life-kept fresh (flushes {c = c} cx l e) =
      Ensures-ret (λ r. P r.0) _ (poll_flush_kept link clock capacity P k cx c (Life-kept fresh l))
        e
  Life-kept fresh (progresses {c = c} cx l e) =
      Ensures-ret (λ r. P r.0) _
        (poll_progress_kept link clock capacity P k cx c (Life-kept fresh l)) e
  Life-kept fresh (cancels {c = c} operation l) =
      subst P (sym (cancel_pending_lem operation c))
        (k.plumbing c c.timer c.health c.final_input _ _ (Life-kept fresh l))
