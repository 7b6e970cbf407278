-- ===== src/Connection/Kept.antt =====
-- Predicates on a connection that its driver keeps, by what they have to say of the steps that
-- change the protocol's state.
pub mod Input
pub mod Packets
pub mod Output
pub mod Deadline
pub mod Driver
pub mod Api
use cobs_io_async_rs.Connection.Deadline.{retransmit}
use cobs_io_async_rs.Connection.Input.{on_packet, poll_input}
use cobs_io_async_rs.Connection.Output.{begin_output, flushed, poll_output}
use cobs_io_async_rs.Connection.State.{Tx, waiting, queued, Frame, Out, Waiters, Health, Reliable}
use cobs_io_async_rs.Prelude.Exec.Ensures.{Ensures}
use cobs_io_async_rs.Prelude.{
  ℕ, suc, ◌+◌, ◌<◌, ◌≡◌, Bool, List, [], ◌∷◌, ◌++◌, Bytes, Option, none, some,
}
use cobs_io_async_rs.Protocol.Packet.{parse}
use cobs_io_async_rs.Transport.{Waker, Transport, Timer}

-- Where there is a connection, `P` holds of it.
abbrev pub Begun : {T C E : Type 0} → (Reliable T C E → Type 0) → Option (Reliable T C E) → Type 0
Begun P none = Unit
Begun P (some c) = P c

-- What the driver is made of: the fields of timing, waking and failing do not matter, output and input
-- are polled, and a packet is queued again.
pub record IsKept {T C E : Type 0} (link : Transport T E) (clock : Timer C) (capacity : ℕ)
    (P : Reliable T C E → Type 0) : Type 0 where
  pub plumbing :
      (c : Reliable T C E) (k : C) (h : Health E) (allowance : Option ℕ) (w : Waiters)
      (woken : List Waker)
      → P c
      → P (record c { timer = k; health = h; final_input = allowance; waiters = w; woken = woken })
  pub outputs :
      (cx : Waker) (budget : ℕ) (c : Reliable T C E)
      → P c
      → Ensures (λ r. P r.1.0) (poll_output link clock cx budget c)
  pub inputs :
      (cx : Waker) (budget : ℕ) (c : Reliable T C E)
      → P c
      → Ensures (λ r. P r.1.0) (poll_input capacity link cx budget c)
  pub again :
      (c : Reliable T C E)
      → c.tx ≡ waiting
      → c.tx_retries < c.config.max_retries
      → P c
      → P (record c { final_input = none; tx_retries = c.tx_retries + 1; tx = queued })

-- What `poll_output` is made of: output is begun, goes to the link, moves on and is flushed.
pub record IsOutputKept {T C E : Type 0} (link : Transport T E) (clock : Timer C)
    (P : Reliable T C E → Type 0) : Type 0 where
  pub begun :
      (c : Reliable T C E) → P c → Ensures (Begun P) (begin_output link clock c.out c.ack_pending c)
  pub writes_to :
      (c : Reliable T C E) (cx : Waker) (bytes : Bytes)
      → P c
      → P (record c { transport = (link.poll_write c.transport cx bytes).0 })
  pub flushes_to :
      (c : Reliable T C E) (cx : Waker)
      → P c
      → P (record c { transport = (link.poll_flush c.transport cx).0 })
  pub moved : (o : Out) (c : Reliable T C E) → P c → P (record c { out = o })
  pub flushes : (frame : Frame) (c : Reliable T C E) → P c → P (flushed link clock frame c)

-- What `poll_input` is made of: bytes come from the link, the buffers change, and a decoded frame is
-- handled.
pub record IsInputKept {T C E : Type 0} (link : Transport T E) (capacity : ℕ)
    (P : Reliable T C E → Type 0) : Type 0 where
  pub reads_from :
      (c : Reliable T C E) (cx : Waker) (free : Bytes)
      → P c
      → P (record c { transport = (link.poll_read c.transport cx free).0 })
  pub buffers :
      (c : Reliable T C E) (allowance : Option ℕ) (rx_buf : Bytes) (rx_len : ℕ) (discarding : Bool)
      (scratch : Bytes)
      → P c
      → P (record c {
        final_input = allowance;
        rx_buf = rx_buf;
        rx_len = rx_len;
        rx_discarding = discarding;
        scratch = scratch;
      })
  pub handled :
      (bytes : Bytes) (c : Reliable T C E)
      → P c
      → Ensures P (on_packet capacity (parse bytes) (record c { seen = c.seen ++ bytes ∷ [] }))
