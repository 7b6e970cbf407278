-- ===== src/Connection/Api.antt =====
-- The public operations of `Reliable` in src/connection.rs, its `Transport` implementation included.
pub mod Cancel
pub mod Finish
pub mod Failed
pub mod TimedOut
use cobs_io_async_rs.Connection.Drive.{fail, failure, drive}
use cobs_io_async_rs.Connection.State.{
  Config, Tx, idle, queued, Frame, ack, data_frame, Out, out_idle, writing, flushing, Work, blocked,
  yield, step_budget, PendingOperation, pending_read, pending_write, pending_flush,
  pending_progress, Op, op_read, op_write, op_flush, op_progress, health_ok, Reliable, is_idle,
  is_none, is_ok,
}
use cobs_io_async_rs.Connection.Waiters.{no_waiters, register, clear, wake}
use cobs_io_async_rs.Error.{ConfigError, buffer_too_small, ConnectionError, sequence_exhausted}
use cobs_io_async_rs.Prelude.Exec.{Exec, ret, panic, ◌>>=◌, ◌>>◌, slice_to, slice_from, copy_at}
use cobs_io_async_rs.Prelude.{
  ℕ, zero, suc, ◌+◌, ◌-◌, ◌%◌, ◌^◌, min, Bool, true, false, not, ◌&&◌, ◌||◌, [], ◌∷◌, Bytes, Option,
  none, some, Result, ok, err, length, take, drop, replicate, ltb, leb, ◌==◌, if◌then◌else◌,
}
use cobs_io_async_rs.Protocol.Packet.{ack_frame_len, encode_data}
use cobs_io_async_rs.Protocol.Payload.{max_payload}
use cobs_io_async_rs.Transport.{Waker, Poll, ready, pending, Transport, Timer}

abbrev pub data_out_busy : Out → Bool
data_out_busy out_idle = false
data_out_busy (writing ack offset) = false
data_out_busy (writing data_frame offset) = true
data_out_busy (flushing ack) = false
data_out_busy (flushing data_frame) = true

abbrev pub is_out_idle : Out → Bool
is_out_idle out_idle = true
is_out_idle (writing frame offset) = false
is_out_idle (flushing frame) = false

abbrev pub op_eq : Op → Op → Bool
op_eq op_read op_read = true
op_eq op_write op_write = true
op_eq op_flush op_flush = true
op_eq op_progress op_progress = true
op_eq _ _ = false

abbrev pub op_of : PendingOperation → Op
op_of pending_read = op_read
op_of pending_write = op_write
op_of pending_flush = op_flush
op_of pending_progress = op_progress

-- `Reliable::new`.
unfoldable pub new : {T C E : Type 0} → ℕ → T → C → Config → Result (Reliable T C E) ConfigError
unfolding ack_frame_len
new capacity transport timer config =
    if max_payload capacity == 0
    then err buffer_too_small
    else ok (record {
      transport = transport;
      timer = timer;
      config = config;
      health = health_ok;
      tx = idle;
      tx_frame = replicate capacity 0;
      tx_len = 0;
      tx_next = 0;
      tx_deadline = 0;
      tx_retries = 0;
      final_input = none;
      out = out_idle;
      ack_pending = none;
      ack_frame = replicate ack_frame_len 0;
      ack_len = 0;
      rx_buf = replicate capacity 0;
      rx_len = 0;
      rx_discarding = false;
      rx_payload = replicate capacity 0;
      rx_start = 0;
      rx_end = 0;
      rx_next = 0;
      scratch = replicate capacity 0;
      waiters = no_waiters;
      woken = [];
      seen = [];
      begun = [];
    })

module _ {T C E : Type 0} where
  unfoldable pub into_parts : Reliable T C E → T × C
  into_parts c = (c.transport, c.timer)

  abbrev pub write_ready : Reliable T C E → Bool
  write_ready c = is_idle c.tx && not (data_out_busy c.out)

  abbrev pub flush_ready : Reliable T C E → Bool
  flush_ready c = is_idle c.tx && (is_out_idle c.out && is_none c.ack_pending)

  -- Whether a waiter of `op` is due in `notify`.
  abbrev pub due : Op → Reliable T C E → Bool
  due op_read c = ltb c.rx_start c.rx_end
  due op_write c = write_ready c
  due op_flush c = flush_ready c
  due op_progress c = false

  -- One round of the loop of `notify`.
  unfoldable pub notify_op : Op → Bool → Op → Reliable T C E → Reliable T C E
  notify_op done everyone op c =
      if op_eq op done then c else if everyone || due op c then wake op c else c

  -- The loop over `OPS`. `everyone` does not change on the way, as waking leaves `health` alone.
  unfoldable pub notify : Op → Bool → Reliable T C E → Reliable T C E
  notify done completed c =
      let everyone = completed || not (is_ok c.health) in
      notify_op done everyone op_progress (
        notify_op done everyone op_flush
          (notify_op done everyone op_write (notify_op done everyone op_read c)))

  -- `finish`, of a result that is ready or not.
  unfoldable pub finish {ℓ} :
      {R : Type ℓ} → Op → Waker → Reliable T C E → Poll R → Reliable T C E × Poll R
  finish op cx c (ready r) = (notify op true (clear op c), ready r)
  finish op cx c pending = (notify op false (register op cx c), pending)

  -- One round of the loop of `cancel_pending`.
  unfoldable pub hand_over : Op → Op → Reliable T C E → Reliable T C E
  hand_over canceled op c = if op_eq op canceled then c else wake op c

  unfoldable pub cancel_pending : PendingOperation → Reliable T C E → Reliable T C E
  cancel_pending operation c =
      let canceled = op_of operation in
      hand_over canceled op_progress (
        hand_over canceled op_flush
          (hand_over canceled op_write (hand_over canceled op_read (clear canceled c))))

module _ {T C E : Type 0} (link : Transport T E) (clock : Timer C) (capacity : ℕ) where
  -- `poll_progress`.
  unfoldable pub poll_progress :
      Waker → Reliable T C E → Exec (Reliable T C E × Poll (ConnectionError E))
  poll_progress cx c = do
    (budget, c, work) ← drive link clock capacity cx step_budget c
    let (c, error) = failure c
    ret (finish op_progress cx c (elim error [ none ↦ pending | some e ↦ ready e ]))

  -- `poll_read`, into a buffer of the bytes `buf`, which is returned with what was read.
  unfoldable pub read_payload :
      Bytes → Reliable T C E → Exec (Bytes × Reliable T C E × Poll (Result ℕ (ConnectionError E)))
  read_payload buf c =
      if ltb c.rx_start c.rx_end
      then (do
        let len = min (length buf) (c.rx_end - c.rx_start)
        held ← slice_to c.rx_payload (c.rx_start + len)
        bytes ← slice_from held c.rx_start
        buf ← copy_at buf 0 bytes
        ret (buf, record c { rx_start = c.rx_start + len }, ready (ok len)))
      else (let (c, error) = failure c in
          ret (buf, c, elim error [ none ↦ pending | some e ↦ ready (err e) ]))

  unfoldable pub poll_read :
      Waker
      → Bytes
      → Reliable T C E
      → Exec (Bytes × Reliable T C E × Poll (Result ℕ (ConnectionError E)))
  poll_read cx [] c = ret ([], c, ready (ok 0))
  poll_read cx (b ∷ buf) c = do
    (budget, c, work) ← drive link clock capacity cx step_budget c
    (buf, c, poll) ← read_payload (b ∷ buf) c
    let (c, poll) = finish op_read cx c poll
    ret (buf, c, poll)

  -- `self.tx_next > u64::from(u32::MAX)`
  unfoldable pub check_sequence : Reliable T C E → Reliable T C E
  check_sequence c =
      if write_ready c && ltb (2 ^ 32 - 1) c.tx_next then fail sequence_exhausted c else c

  -- The packet is encoded and queued; `yielded` tells that the first drive ran out of budget.
  unfoldable pub accept : Waker → ℕ → Work → Bytes → Reliable T C E → Exec (Reliable T C E × ℕ)
  accept cx budget work buf c = do
    let len = min (length buf) (max_payload capacity)
    payload ← slice_to buf len
    (scratch, tx_frame, tx_len) ←
        encode_data c.config.session (c.tx_next % 2 ^ 32) payload c.scratch c.tx_frame
    let c = record c {
      scratch = scratch;
      tx_frame = tx_frame;
      tx_len = tx_len;
      tx_next = c.tx_next + 1;
      tx_retries = 0;
      tx = queued;
    }
    elim work [
      | yield ↦ ret (c, len)
      | _ ↦ (do (budget, c, work) ← drive link clock capacity cx budget c; ret (c, len))
    ]

  -- `queue_packet` behind the check of the sequence number.
  unfoldable pub try_accept :
      Waker
      → ℕ
      → Work
      → Bool
      → Bytes
      → Reliable T C E × Option (ConnectionError E)
      → Exec (Reliable T C E × Poll (Result ℕ (ConnectionError E)))
  try_accept cx budget work busy buf (c, some error) = ret (c, ready (err error))
  try_accept cx budget work true buf (c, none) = ret (c, pending)
  try_accept cx budget work false buf (c, none) = do
    (c, len) ← accept cx budget work buf c
    ret (c, ready (ok len))

  unfoldable pub queue_packet :
      Waker → Bytes → Reliable T C E → Exec (Reliable T C E × Poll (Result ℕ (ConnectionError E)))
  queue_packet cx buf c = do
    (budget, c, work) ← drive link clock capacity cx step_budget c
    let busy = not (write_ready c)
    try_accept cx budget work busy buf (failure (check_sequence c))

  unfoldable pub poll_write :
      Waker → Bytes → Reliable T C E → Exec (Reliable T C E × Poll (Result ℕ (ConnectionError E)))
  poll_write cx [] c = ret (c, ready (ok 0))
  poll_write cx (b ∷ buf) c = do
    (c, poll) ← queue_packet cx (b ∷ buf) c
    ret (finish op_write cx c poll)

  unfoldable pub flush_result :
      Reliable T C E × Option (ConnectionError E)
      → Reliable T C E × Poll (Result (Unit {0}) (ConnectionError E))
  flush_result (c, some error) = (c, ready (err error))
  flush_result (c, none) = (c, if flush_ready c then ready (ok tt) else pending)

  unfoldable pub poll_flush :
      Waker → Reliable T C E → Exec (Reliable T C E × Poll (Result (Unit {0}) (ConnectionError E)))
  poll_flush cx c = do
    (budget, c, work) ← drive link clock capacity cx step_budget c
    let (c, poll) = flush_result (failure c)
    ret (finish op_flush cx c poll)
