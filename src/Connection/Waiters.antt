-- ===== src/Connection/Waiters.antt =====
-- The methods of `Waiters` of src/connection.rs, on a connection's `waiters` and `woken`.
use cobs_io_async_rs.Connection.State.{
  Op, op_read, op_write, op_flush, op_progress, Waiters, Reliable,
}
use cobs_io_async_rs.Prelude.{
  List, [], ◌∷◌, ◌++◌, ◌≡◌, refl, append-nil, arith, Option, none, some, ◌==◌, if◌then◌else◌,
}
use cobs_io_async_rs.Transport.{Waker}

abbrev pub no_waiters : Waiters
no_waiters = record { read = none; write = none; flush = none; progress = none }

abbrev pub slot : Op → Waiters → Option Waker
slot op_read w = w.read
slot op_write w = w.write
slot op_flush w = w.flush
slot op_progress w = w.progress

abbrev pub set_slot : Op → Option Waker → Waiters → Waiters
set_slot op_read o w = record w { read = o }
set_slot op_write o w = record w { write = o }
set_slot op_flush o w = record w { flush = o }
set_slot op_progress o w = record w { progress = o }

-- `will_wake` is equality; a held waker that would do is kept.
unfoldable pub kept : Option Waker → Waker → Waker
kept none waker = waker
kept (some held) waker = if held == waker then held else waker

module _ {T C E : Type 0} where
  unfoldable pub register : Op → Waker → Reliable T C E → Reliable T C E
  unfolding kept
  register op waker c = record c {
    waiters = set_slot op (some (kept (slot op c.waiters) waker)) c.waiters;
  }

  unfoldable pub clear : Op → Reliable T C E → Reliable T C E
  clear op c = record c { waiters = set_slot op none c.waiters }

  take_slot : Op → Option Waker → Reliable T C E → Reliable T C E
  take_slot op none c = c
  take_slot op (some waker) c = record c {
    waiters = set_slot op none c.waiters;
    woken = c.woken ++ waker ∷ [];
  }

  unfoldable pub wake : Op → Reliable T C E → Reliable T C E
  unfolding take_slot
  wake op c = take_slot op (slot op c.waiters) c

  -- `cx.waker().wake_by_ref()`.
  unfoldable pub wake_by_ref : Waker → Reliable T C E → Reliable T C E
  wake_by_ref waker c = record c { woken = c.woken ++ waker ∷ [] }

-- The waker in a slot, as a list.
abbrev pub held : Option Waker → List Waker
held none = []
held (some waker) = waker ∷ []

module _ {T C E : Type 0} where
  take_slot_lem :
      (op : Op) (o : Option Waker) (c : Reliable T C E)
      → slot op c.waiters ≡ o
      → take_slot op o c
        ≡ record c { waiters = set_slot op none c.waiters; woken = c.woken ++ held o }
  unfolding take_slot
  take_slot_lem op_read none c e = ground (arith, append-nil c.woken)
  take_slot_lem op_write none c e = ground (arith, append-nil c.woken)
  take_slot_lem op_flush none c e = ground (arith, append-nil c.woken)
  take_slot_lem op_progress none c e = ground (arith, append-nil c.woken)
  take_slot_lem op (some waker) c e = refl

  -- Waking empties the slot and wakes the waker that was in it, if any.
  pub wake_lem :
      (op : Op) (c : Reliable T C E)
      → wake op c ≡ record c {
        waiters = set_slot op none c.waiters;
        woken = c.woken ++ held (slot op c.waiters);
      }
  unfolding wake
  wake_lem op c = take_slot_lem op (slot op c.waiters) c refl
