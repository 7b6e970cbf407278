-- ===== src/Connection/Stream.antt =====
-- What goes over the link of a connection, byte by byte.
mod Unsent
pub mod Assembly
mod Zeros
pub mod Framed
mod Writes
pub mod Sent
mod Fed
mod Taken
mod Frames
pub mod Received
use cobs_io_async_rs.Connection.State.{
  Frame, ack, data_frame, Out, out_idle, writing, flushing, Reliable,
}
use cobs_io_async_rs.Prelude.{ℕ, [], ◌++◌, Bytes, Result, ok, err, take, drop}
use cobs_io_async_rs.Transport.{Waker, Poll, ready, pending, Transport, KeepsLength}

-- The state of a link, with the bytes that it has accepted and those that it has given.
pub record Logged (T : Type 0) : Type 0 where
  pub link : T
  pub sent : Bytes
  pub received : Bytes

-- The bytes of a buffer that a call of the link is about.
abbrev pub moved : {E : Type 0} → Poll (Result ℕ E) → Bytes → Bytes
moved pending buf = []
moved (ready (err e)) buf = []
moved (ready (ok n)) buf = take n buf

-- A link that does what `link` does, and notes it.
abbrev pub logged : {T E : Type 0} → Transport T E → Transport (Logged T) E
logged link = record {
  poll_read = λ w cx buf. (
    record w {
      link = (link.poll_read w.link cx buf).0;
      received =
          w.received ++ moved (link.poll_read w.link cx buf).2 (link.poll_read w.link cx buf).1;
    },
    (link.poll_read w.link cx buf).1,
    (link.poll_read w.link cx buf).2,
  );
  poll_write = λ w cx buf. (
    record w {
      link = (link.poll_write w.link cx buf).0;
      sent = w.sent ++ moved (link.poll_write w.link cx buf).1 buf;
    },
    (link.poll_write w.link cx buf).1,
  );
  poll_flush =
      λ w cx. (record w { link = (link.poll_flush w.link cx).0 }, (link.poll_flush w.link cx).1);
}

pub logged-KeepsLength :
    {T E : Type 0} (link : Transport T E) → KeepsLength link → KeepsLength (logged link)
logged-KeepsLength link keeps w = keeps w.link

-- The bytes of the frame that is being written which the link has not accepted yet.
abbrev pub unsent_of : Out → Bytes → ℕ → Bytes → ℕ → Bytes
unsent_of out_idle ack_frame ack_len tx_frame tx_len = []
unsent_of (writing ack offset) ack_frame ack_len tx_frame tx_len =
    drop offset (take ack_len ack_frame)
unsent_of (writing data_frame offset) ack_frame ack_len tx_frame tx_len =
    drop offset (take tx_len tx_frame)
unsent_of (flushing frame) ack_frame ack_len tx_frame tx_len = []

abbrev pub unsent : {T C E : Type 0} → Reliable T C E → Bytes
unsent c = unsent_of c.out c.ack_frame c.ack_len c.tx_frame c.tx_len
