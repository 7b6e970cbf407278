-- ===== src/Connection/History/Life.antt =====
-- The lives of a connection: what its user calls, from `new` on, in any order.
use cobs_io_async_rs.Connection.Api.Cancel.{cancel_pending_lem}
use cobs_io_async_rs.Connection.Api.{
  new, poll_read, poll_write, poll_flush, poll_progress, cancel_pending,
}
use cobs_io_async_rs.Connection.History.Output.{Linked-IsKept}
use cobs_io_async_rs.Connection.History.Reading.{after_read, poll_read-Linked}
use cobs_io_async_rs.Connection.History.Writing.{after_write}
use cobs_io_async_rs.Connection.History.Written.{poll_write-Linked}
use cobs_io_async_rs.Connection.History.{Linked}
use cobs_io_async_rs.Connection.Kept.Api.{poll_progress_kept, poll_flush_kept}
use cobs_io_async_rs.Connection.State.{Config, PendingOperation, Reliable}
use cobs_io_async_rs.Connection.Valid.Api.{
  new-Created, Created, poll_progress-IsValid, poll_flush-IsValid,
}
use cobs_io_async_rs.Connection.Valid.Reading.{poll_read-Read, Read}
use cobs_io_async_rs.Connection.Valid.Writing.{poll_write-Written, Written}
use cobs_io_async_rs.Connection.Valid.{IsValid}
use cobs_io_async_rs.Error.{ConfigError, ConnectionError}
use cobs_io_async_rs.Prelude.Exec.Ensures.{Ensures-Holds, Ensures-ret}
use cobs_io_async_rs.Prelude.Exec.Holds.{if-Holds}
use cobs_io_async_rs.Prelude.Exec.{ret}
use cobs_io_async_rs.Prelude.{
  ℕ, ◌^◌, ◌<◌, ◌≡◌, refl, sym, subst, [], List, Bytes, Result, ok, err, length-replicate, arith,
  ◌==◌,
}
use cobs_io_async_rs.Protocol.Packet.{ack_frame_len}
use cobs_io_async_rs.Protocol.Payload.{max_payload}
use cobs_io_async_rs.Transport.{Waker, Poll, ready, pending, Transport, Timer, KeepsLength}

-- `Life … wrote got c`: over a link in the state `start` these calls lead to the connection `c`, with the payloads that `poll_write`
-- took and the bytes that `poll_read` gave.
pub data Life {T C E : Type 0} (link : Transport T E) (clock : Timer C) (capacity : ℕ)
    (config : Config) (start : T) : List Bytes → Bytes → Reliable T C E → Type 0 where
  created :
      {c : Reliable T C E} (timer : C)
      → new capacity start timer config ≡ ok c
      → Life link clock capacity config start [] [] c
  writes :
      {wrote : List Bytes} {got : Bytes} {c c' : Reliable T C E}
      {poll : Poll (Result ℕ (ConnectionError E))} (cx : Waker) (buf : Bytes)
      → Life link clock capacity config start wrote got c
      → poll_write link clock capacity cx buf c ≡ ret (c', poll)
      → Life link clock capacity config start (after_write wrote buf poll) got c'
  reads :
      {wrote : List Bytes} {got buf' : Bytes} {c c' : Reliable T C E}
      {poll : Poll (Result ℕ (ConnectionError E))} (cx : Waker) (buf : Bytes)
      → Life link clock capacity config start wrote got c
      → poll_read link clock capacity cx buf c ≡ ret (buf', c', poll)
      → Life link clock capacity config start wrote (after_read got buf' poll) c'
  flushes :
      {wrote : List Bytes} {got : Bytes} {c c' : Reliable T C E}
      {poll : Poll (Result (Unit {0}) (ConnectionError E))} (cx : Waker)
      → Life link clock capacity config start wrote got c
      → poll_flush link clock capacity cx c ≡ ret (c', poll)
      → Life link clock capacity config start wrote got c'
  progresses :
      {wrote : List Bytes} {got : Bytes} {c c' : Reliable T C E} {poll : Poll (ConnectionError E)}
      (cx : Waker)
      → Life link clock capacity config start wrote got c
      → poll_progress link clock capacity cx c ≡ ret (c', poll)
      → Life link clock capacity config start wrote got c'
  cancels :
      {wrote : List Bytes} {got : Bytes} {c : Reliable T C E} (operation : PendingOperation)
      → Life link clock capacity config start wrote got c
      → Life link clock capacity config start wrote got (cancel_pending operation c)

abbrev Fresh : {T C E : Type 0} → ℕ → Result (Reliable T C E) ConfigError → Type 0
Fresh session (ok c) = Linked session [] [] c
Fresh session (err e) = Unit

-- A new connection has no past.
new-Fresh :
    {T C : Type 0} (E : Type 0) (capacity : ℕ) (transport : T) (timer : C) (config : Config)
    → config.session < 2 ^ 64
    → Fresh {E = E} config.session (new capacity transport timer config)
unfolding new
new-Fresh E capacity transport timer config small =
    if-Holds (Fresh config.session) (max_payload capacity == 0) (λ e. tt)
      (λ e. (
        [],
        record {
          same_session = refl;
          session_lt = small;
          count = refl;
          outstanding = tt;
          acked = λ pos. absurd (omega arith);
          owes = tt;
          genuine = tt;
          spare = (omega arith, λ seq payload v. (omega arith, λ h. refl, λ e. tt));
          ack_room = length-replicate {A = ℕ} ack_frame_len 0;
        },
        record {
          count = refl;
          received = λ seq payload h. absurd (cc h);
          bytes = refl;
          start_le = omega arith;
        },
      ))

module _ {T C E : Type 0} (link : Transport T E) (clock : Timer C) (capacity : ℕ) where
  Written-IsValid :
      (buf : Bytes) (c : Reliable T C E) (poll : Poll (Result ℕ (ConnectionError E)))
      → Written link clock capacity buf (c, poll)
      → IsValid capacity c
  Written-IsValid buf c pending h = h
  Written-IsValid buf c (ready (err e)) h = h
  Written-IsValid buf c (ready (ok n)) h = h.0

  -- However a connection was created and used, over a link that keeps the length of the buffers that
  -- it is given, with a capacity below 2 ^ 62 and a session below 2 ^ 64: it is valid, and it agrees
  -- with its past. As many packets are numbered as were written, and the one that is not acknowledged
  -- stands in the frame buffer; an idle connection has received the ACK of its latest packet; every
  -- frame that was begun is DATA that was written, or the ACK of a payload that was taken; none of DATA
  -- was begun more than once beyond the retries that are configured; and what was read and can still
  -- be read is what the frames received hold, one after the other.
  pub Life-Linked :
      (config : Config) {start : T} {wrote : List Bytes} {got : Bytes} {c : Reliable T C E}
      → KeepsLength link
      → capacity < 2 ^ 62
      → config.session < 2 ^ 64
      → Life link clock capacity config start wrote got c
      → IsValid capacity c × Linked config.session wrote got c
  Life-Linked config {start = start} {c = c} keeps cap small (created timer e) = (
    subst (Created capacity) e (new-Created E capacity start timer config),
    subst (Fresh config.session) e (new-Fresh E capacity start timer config small),
  )
  Life-Linked config {got = got} keeps cap small
        (writes {wrote} {c = c} {c' = c'} {poll = poll} cx buf l e) =
      let (v, k) = Life-Linked config keeps cap small l in
      (
        Written-IsValid buf c' poll (
            Ensures-ret (Written link clock capacity buf) _
              (Ensures-Holds (Written link clock capacity buf) _
                (poll_write-Written link clock capacity keeps cap cx buf c v))
              e),
        Ensures-ret _ _
            (poll_write-Linked link clock capacity keeps cap config.session wrote got cx buf c v k)
            e,
      )
  Life-Linked config {wrote = wrote} keeps cap small (reads {got = got} {c = c} cx buf l e) =
      let (v, k) = Life-Linked config keeps cap small l in
      (
        (Ensures-ret (Read link clock capacity buf) _
            (Ensures-Holds (Read link clock capacity buf) _
              (poll_read-Read link clock capacity keeps cx buf c v))
            e).1,
        Ensures-ret _ _
            (poll_read-Linked link clock capacity keeps config.session wrote got cx buf c v k) e,
      )
  Life-Linked config {wrote = wrote} {got = got} keeps cap small (flushes {c = c} cx l e) =
      let (v, k) = Life-Linked config keeps cap small l in
      (
        Ensures-ret (λ r. IsValid capacity r.0) _
            (Ensures-Holds (λ r. IsValid capacity r.0) _
              (poll_flush-IsValid link clock capacity keeps cx c v))
            e,
        Ensures-ret (λ r. Linked config.session wrote got r.0) _
            (poll_flush_kept link clock capacity (Linked config.session wrote got)
              (Linked-IsKept link clock capacity config.session wrote got) cx c k)
            e,
      )
  Life-Linked config {wrote = wrote} {got = got} keeps cap small (progresses {c = c} cx l e) =
      let (v, k) = Life-Linked config keeps cap small l in
      (
        Ensures-ret (λ r. IsValid capacity r.0) _
            (Ensures-Holds (λ r. IsValid capacity r.0) _
              (poll_progress-IsValid link clock capacity keeps cx c v))
            e,
        Ensures-ret (λ r. Linked config.session wrote got r.0) _
            (poll_progress_kept link clock capacity (Linked config.session wrote got)
              (Linked-IsKept link clock capacity config.session wrote got) cx c k)
            e,
      )
  Life-Linked config {wrote = wrote} {got = got} keeps cap small (cancels {c = c} operation l) =
      let (v, k) = Life-Linked config keeps cap small l in
      (
        subst (IsValid capacity) (sym (cancel_pending_lem operation c)) v,
        subst (Linked config.session wrote got) (sym (cancel_pending_lem operation c)) k,
      )
