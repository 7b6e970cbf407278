-- ===== src/Connection/Api/Cancel.antt =====
-- `cancel_pending`, and what it does to the waiters.
use cobs_io_async_rs.Connection.Api.{op_eq, op_of, cancel_pending, hand_over}
use cobs_io_async_rs.Connection.State.{
  PendingOperation, pending_read, pending_write, pending_flush, pending_progress, Op, op_read,
  op_write, op_flush, op_progress, Waiters, Reliable,
}
use cobs_io_async_rs.Connection.Waiters.{no_waiters, clear, slot, held, wake_lem}
use cobs_io_async_rs.Prelude.{◌≡◌, List, [], ◌++◌, append-nil, append_assoc, if◌then◌else◌}
use cobs_io_async_rs.Transport.{Waker}

-- The wakers that an operation stores, but for the cancelled one.
abbrev pub stored : Op → Op → Waiters → List Waker
stored canceled op w = if op_eq op canceled then [] else held (slot op w)

abbrev pub stored_others : Op → Waiters → List Waker
stored_others canceled w =
    stored canceled op_read w
    ++ (stored canceled op_write w ++ (stored canceled op_flush w ++ stored canceled op_progress w))

-- `cancel_pending` leaves no waiter stored, wakes the stored waiters of the other operations, each
-- once and in the order of the operations, does not wake the cancelled one, and changes nothing else.
pub cancel_pending_lem :
    {T C E : Type 0} (operation : PendingOperation) (c : Reliable T C E)
    → cancel_pending operation c ≡ record c {
      waiters = no_waiters;
      woken = c.woken ++ stored_others (op_of operation) c.waiters;
    }
unfolding cancel_pending hand_over clear
cancel_pending_lem pending_read c = simp (wake_lem, append_assoc)
cancel_pending_lem pending_write c = simp (wake_lem, append_assoc)
cancel_pending_lem pending_flush c = simp (wake_lem, append_assoc)
cancel_pending_lem pending_progress c = simp (wake_lem, append_assoc, append-nil)
