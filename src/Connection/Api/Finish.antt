-- ===== src/Connection/Api/Finish.antt =====
-- `finish` of a result that is ready.
use cobs_io_async_rs.Connection.Api.Cancel.{stored_others}
use cobs_io_async_rs.Connection.Api.{notify_op, notify, finish}
use cobs_io_async_rs.Connection.State.{Op, op_read, op_write, op_flush, op_progress, Reliable}
use cobs_io_async_rs.Connection.Waiters.{no_waiters, clear, wake_lem}
use cobs_io_async_rs.Prelude.{◌≡◌, ◌++◌, append-nil, append_assoc}
use cobs_io_async_rs.Transport.{Waker, ready}

-- `finish`, given a result that is ready, returns that result, leaves no waiter stored, wakes the
-- stored waiters of the operations other than its own, each once and in the order of the operations,
-- and changes nothing else in the connection.
pub finish_ready_lem {ℓ} :
    {T C E : Type 0} {R : Type ℓ} (op : Op) (cx : Waker) (c : Reliable T C E) (r : R)
    → finish op cx c (ready r)
      ≡ (record c { waiters = no_waiters; woken = c.woken ++ stored_others op c.waiters }, ready r)
unfolding finish notify notify_op clear
finish_ready_lem op_read cx c r = simp (wake_lem, append_assoc)
finish_ready_lem op_write cx c r = simp (wake_lem, append_assoc)
finish_ready_lem op_flush cx c r = simp (wake_lem, append_assoc)
finish_ready_lem op_progress cx c r = simp (wake_lem, append_assoc, append-nil)
