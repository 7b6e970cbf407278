-- ===== src/Tests/Wire.antt =====
-- A link in memory and a clock that stands still, in the place of what the crate's user implements.
use cobs_io_async_rs.Prelude.{
  ℕ, ◌++◌, Bytes, ok, min, length, length-append, length-take, length-drop, take, drop, leb,
  if◌then◌else◌, arith, ◌==◌,
}
use cobs_io_async_rs.Transport.{ready, pending, Transport, Timer, KeepsLength}

-- Bytes that wait to be read, and bytes that were written.
pub record Wire : Type 0 where
  pub incoming : Bytes
  pub outgoing : Bytes

-- Reads what there is, and accepts every write.
abbrev pub wire_link : Transport Wire ⊥
wire_link = record {
  poll_read = λ w cx buf. if length w.incoming == 0 then (w, buf, pending) else (
    record w { incoming = drop (length buf) w.incoming },
    take (length buf) w.incoming ++ drop (length w.incoming) buf,
    ready (ok (min (length w.incoming) (length buf))),
  );
  poll_write = λ w cx buf. (record w { outgoing = w.outgoing ++ buf }, ready (ok (length buf)));
  poll_flush = λ w cx. (w, ready (ok tt));
}

-- The time.
abbrev pub still_clock : Timer ℕ
still_clock = record {
  now = λ t. t;
  poll_deadline = λ t cx deadline. (t, if leb deadline t then ready tt else pending);
}

pub wire_link-KeepsLength : KeepsLength wire_link
wire_link-KeepsLength w cx buf = ground (
  arith,
  length-append (take (length buf) w.incoming) (drop (length w.incoming) buf),
  length-take (length buf) w.incoming,
  length-drop (length w.incoming) buf,
)

-- A link over which the peer answers: there is nothing to read before something is written.
abbrev pub answering_link : Transport Wire ⊥
answering_link = record wire_link {
  poll_read = λ w cx buf.
      if length w.outgoing == 0 then (w, buf, pending) else wire_link.poll_read w cx buf;
}

pub answering_link-KeepsLength : KeepsLength answering_link
answering_link-KeepsLength w cx buf = ground (arith, wire_link-KeepsLength w cx buf)
