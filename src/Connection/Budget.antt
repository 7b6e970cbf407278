-- ===== src/Connection/Budget.antt =====
-- The calls of the link that an operation of a connection makes, against its budget.
mod Parts
mod Calls
mod Bounded
pub mod Polls
use cobs_io_async_rs.Prelude.{ℕ, ◌+◌}
use cobs_io_async_rs.Transport.{Transport}

-- The state of a link, with the number of calls that it has answered.
pub record Counted (T : Type 0) : Type 0 where
  pub link : T
  pub calls : ℕ

-- A link that does what `link` does, and counts.
abbrev pub counted : {T E : Type 0} → Transport T E → Transport (Counted T) E
counted link = record {
  poll_read = λ w cx buf. (
    record { link = (link.poll_read w.link cx buf).0; calls = w.calls + 1 },
    (link.poll_read w.link cx buf).1,
    (link.poll_read w.link cx buf).2,
  );
  poll_write = λ w cx buf. (
    record { link = (link.poll_write w.link cx buf).0; calls = w.calls + 1 },
    (link.poll_write w.link cx buf).1,
  );
  poll_flush = λ w cx. (
    record { link = (link.poll_flush w.link cx).0; calls = w.calls + 1 },
    (link.poll_flush w.link cx).1,
  );
}
