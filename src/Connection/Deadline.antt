-- ===== src/Connection/Deadline.antt =====
-- `poll_timer` of src/connection.rs.
use cobs_io_async_rs.Connection.State.{
  queued, Work, blocked, progress, yield, Reliable, Outcome, is_waiting,
}
use cobs_io_async_rs.Error.{timeout}
use cobs_io_async_rs.Prelude.{
  ℕ, zero, suc, ◌+◌, Bool, true, false, Option, none, some, ok, err, leb, if◌then◌else◌,
}
use cobs_io_async_rs.Protocol.Packet.{ack_frame_len}
use cobs_io_async_rs.Transport.{Waker, Poll, ready, pending, Timer}

-- `FINAL_INPUT`, for buffers of `capacity` bytes.
unfoldable pub final_input_len : ℕ → ℕ
unfolding ack_frame_len
final_input_len capacity = capacity + ack_frame_len

-- `input == Work::Blocked || left == 0`
unfoldable pub allowance_over : Work → ℕ → Bool
allowance_over blocked left = true
allowance_over progress zero = true
allowance_over progress (suc left) = false
allowance_over yield zero = true
allowance_over yield (suc left) = false

module _ {T C E : Type 0} (clock : Timer C) (capacity : ℕ) where
  -- No allowance yet: the deadline is polled, and its expiry grants one.
  unfoldable pub polled_deadline : Reliable T C E → Poll (Unit {0}) → Outcome T C E
  polled_deadline c pending = (c, ok blocked)
  polled_deadline c (ready u) =
      (record c { final_input = some (final_input_len capacity) }, ok progress)

  -- The input has blocked, or the allowance is spent.
  unfoldable pub retransmit : Reliable T C E → Outcome T C E
  retransmit c =
      if leb c.config.max_retries c.tx_retries
      then (record c { final_input = none }, err timeout)
      else (
        record c { final_input = none; tx_retries = c.tx_retries + 1; tx = queued },
        ok progress,
      )

  -- `match self.final_input`.
  unfoldable pub run_deadline : Waker → Work → Option ℕ → Reliable T C E → Outcome T C E
  run_deadline cx input none c =
      let (timer, polled) = clock.poll_deadline c.timer cx c.tx_deadline in
      polled_deadline (record c { timer = timer }) polled
  run_deadline cx input (some left) c =
      if allowance_over input left then retransmit c else (c, ok blocked)

  unfoldable pub poll_timer : Waker → Work → Reliable T C E → Outcome T C E
  poll_timer cx input c =
      if is_waiting c.tx then run_deadline cx input c.final_input c else (c, ok blocked)
