-- ===== src/Connection/History/Written.antt =====
-- `poll_write` as a whole against the past.
use cobs_io_async_rs.Connection.Api.{
  write_ready, check_sequence, accept, try_accept, queue_packet, poll_write, finish,
}
use cobs_io_async_rs.Connection.Drive.{failure, drive}
use cobs_io_async_rs.Connection.History.Output.{Linked-IsKept}
use cobs_io_async_rs.Connection.History.Writing.{after_write, sequence_lt, Accepted, accept-Linked}
use cobs_io_async_rs.Connection.History.{Linked}
use cobs_io_async_rs.Connection.Kept.Api.{check_sequence_kept}
use cobs_io_async_rs.Connection.Kept.Driver.{drive_kept, failure_kept, finish_kept}
use cobs_io_async_rs.Connection.Kept.{IsKept}
use cobs_io_async_rs.Connection.State.{Work, step_budget, op_write, Reliable}
use cobs_io_async_rs.Connection.Valid.Api.{failure-IsValid}
use cobs_io_async_rs.Connection.Valid.Driver.{Driven, drive-Driven}
use cobs_io_async_rs.Connection.Valid.Writing.{check_sequence-IsValid}
use cobs_io_async_rs.Connection.Valid.{IsValid}
use cobs_io_async_rs.Error.{ConnectionError}
use cobs_io_async_rs.Prelude.Exec.Ensures.{Ensures, bind-Ensures, both-Holds, Ensures-Holds}
use cobs_io_async_rs.Prelude.{
  ℕ, zero, suc, ◌^◌, ◌<◌, ◌≡◌, refl, Bool, true, false, not, [], ◌∷◌, List, Bytes, Option, none,
  some, Result, ok, length, arith,
}
use cobs_io_async_rs.Transport.{Waker, Poll, ready, pending, Transport, Timer, KeepsLength}

not_busy : (free : Bool) → not free ≡ false → free ≡ true
not_busy true e = refl
not_busy false e = absurd (cc e)

module _ {T C E : Type 0} (link : Transport T E) (clock : Timer C) (capacity : ℕ) where
  -- A connection whose user has written what it had before and what `poll` tells.
  abbrev pub Wrote :
      ℕ → List Bytes → Bytes → Bytes → Reliable T C E × Poll (Result ℕ (ConnectionError E)) → Type 0
  Wrote session wrote got buf (c, poll) = Linked session (after_write wrote buf poll) got c

  positive :
      (session : ℕ) (wrote : List Bytes) (got buf : Bytes) (c : Reliable T C E) (n : ℕ)
      → Accepted link clock capacity session wrote got buf (c, n)
      → Wrote session wrote got buf (c, ready (ok n))
  positive session wrote got buf c zero (p, l) = absurd (omega arith)
  positive session wrote got buf c (suc n) (p, l) = l

  try_accept-Linked :
      (session : ℕ) (wrote : List Bytes) (got : Bytes) (cx : Waker) (budget : ℕ) (work : Work)
      (busy : Bool) (buf : Bytes) (f : Reliable T C E × Option (ConnectionError E))
      → capacity < 2 ^ 62
      → 0 < length buf
      → (busy ≡ false → f.1 ≡ none → f.0.tx_next < 2 ^ 32)
      → IsValid capacity f.0
      → Linked session wrote got f.0
      → Ensures
          (Wrote session wrote got buf)
          (try_accept link clock capacity cx budget work busy buf f)
  unfolding try_accept
  try_accept-Linked session wrote got cx budget work busy buf (c, some e) cap pos left v l = l
  try_accept-Linked session wrote got cx budget work true buf (c, none) cap pos left v l = l
  try_accept-Linked session wrote got cx budget work false buf (c, none) cap pos left v l =
      bind-Ensures (Accepted link clock capacity session wrote got buf)
        (Wrote session wrote got buf) (accept link clock capacity cx budget work buf c) _
        (accept-Linked link clock capacity session wrote got cx budget work buf c cap pos
          (left refl refl) v l)
        (λ r h. positive session wrote got buf r.0 r.1 h)

  finished :
      (session : ℕ) (wrote : List Bytes) (got : Bytes) (cx : Waker) (buf : Bytes)
      (c : Reliable T C E) (poll : Poll (Result ℕ (ConnectionError E)))
      → Wrote session wrote got buf (c, poll)
      → Wrote session wrote got buf (finish op_write cx c poll)
  unfolding finish
  finished session wrote got cx buf c pending l =
      let p : Poll (Result ℕ (ConnectionError E)) = pending in
      finish_kept link clock capacity (Linked session wrote got)
        (Linked-IsKept link clock capacity session wrote got) op_write cx c p l
  finished session wrote got cx buf c (ready r) l =
      finish_kept link clock capacity _
        (Linked-IsKept link clock capacity session (after_write wrote buf (ready r)) got) op_write
        cx c (ready r) l

  queue_packet-Linked :
      KeepsLength link
      → capacity < 2 ^ 62
      → (session : ℕ) (wrote : List Bytes) (got : Bytes) (cx : Waker) (buf : Bytes)
        (c : Reliable T C E)
      → 0 < length buf
      → IsValid capacity c
      → Linked session wrote got c
      → Ensures (Wrote session wrote got buf) (queue_packet link clock capacity cx buf c)
  unfolding queue_packet
  queue_packet-Linked keeps cap session wrote got cx buf c pos v l =
      let k : IsKept link clock capacity (Linked session wrote got) =
        Linked-IsKept link clock capacity session wrote got in
      bind-Ensures (λ r. Driven link clock capacity step_budget r × Linked session wrote got r.1)
        (Wrote session wrote got buf) (drive link clock capacity cx step_budget c) _
        (Ensures-Holds
          (λ r. Driven link clock capacity step_budget r × Linked session wrote got r.1)
          (drive link clock capacity cx step_budget c)
          (both-Holds (Driven link clock capacity step_budget) (λ r. Linked session wrote got r.1) _
            (drive-Driven link clock capacity keeps cx step_budget c v)
            (drive_kept link clock capacity (Linked session wrote got) k cx step_budget c l)))
        (λ d h.
          try_accept-Linked session wrote got cx d.0 d.2 (not (write_ready d.1)) buf
            (failure (check_sequence link clock capacity d.1)) cap pos
            (λ free quiet.
              sequence_lt link clock capacity d.1 (not_busy (write_ready d.1) free) quiet)
            (failure-IsValid capacity _ (check_sequence-IsValid link clock capacity d.1 h.0.0))
            (failure_kept link clock capacity (Linked session wrote got) k _
              (check_sequence_kept link clock capacity (Linked session wrote got) k d.1 h.1)))

  pub poll_write-Linked :
      KeepsLength link
      → capacity < 2 ^ 62
      → (session : ℕ) (wrote : List Bytes) (got : Bytes) (cx : Waker) (buf : Bytes)
        (c : Reliable T C E)
      → IsValid capacity c
      → Linked session wrote got c
      → Ensures (Wrote session wrote got buf) (poll_write link clock capacity cx buf c)
  unfolding poll_write
  poll_write-Linked keeps cap session wrote got cx [] c v l = l
  poll_write-Linked keeps cap session wrote got cx (b ∷ buf) c v l =
      bind-Ensures (Wrote session wrote got (b ∷ buf)) (Wrote session wrote got (b ∷ buf))
        (queue_packet link clock capacity cx (b ∷ buf) c) _
        (queue_packet-Linked keeps cap session wrote got cx (b ∷ buf) c (omega arith) v l)
        (λ r h. finished session wrote got cx (b ∷ buf) r.0 r.1 h)
