-- ===== src/Connection/Stream/Sent.antt =====
-- The bytes that the link has accepted, against the frames that were begun.
use cobs_io_async_rs.Connection.Api.{new, data_out_busy}
use cobs_io_async_rs.Connection.History.Life.{Life}
use cobs_io_async_rs.Connection.History.Steps.{Starts, Life-kept}
use cobs_io_async_rs.Connection.Kept.Api.{IsUserKept}
use cobs_io_async_rs.Connection.Kept.Input.{poll_input_kept}
use cobs_io_async_rs.Connection.Kept.Packets.{IsPacketKept, on_packet_kept}
use cobs_io_async_rs.Connection.Kept.{IsKept, IsInputKept}
use cobs_io_async_rs.Connection.State.{
  Config, ack, data_frame, Out, out_idle, writing, flushing, Reliable,
}
use cobs_io_async_rs.Connection.Stream.{Logged, logged, unsent_of, unsent}
use cobs_io_async_rs.Prelude.Exec.Holds.{if-Holds}
use cobs_io_async_rs.Prelude.{ℕ, ◌≡◌, refl, ap, ◌∙◌, false, [], ◌++◌, List, Bytes, concat, ◌==◌}
use cobs_io_async_rs.Protocol.Packet.{parse}
use cobs_io_async_rs.Protocol.Payload.{max_payload}
use cobs_io_async_rs.Transport.{Transport, Timer}
use cobs_io_async_rs.Connection.Stream.Writes.{IsSent, poll_output-IsSent}

module _ {T C E : Type 0} (link : Transport T E) (clock : Timer C) (capacity : ℕ)
    (before : Bytes) where
  IsSent-IsPacketKept : IsPacketKept {T = Logged T} {C = C} {E = E} (IsSent before)
  IsSent-IsPacketKept = record {
    completed = λ c v. v;
    taken = λ c rx_payload rx_end seq v. v;
    owed = λ c seq v. v;
  }

  IsSent-IsInputKept : IsInputKept {C = C} (logged link) capacity (IsSent before)
  IsSent-IsInputKept = record {
    reads_from = λ c cx free v. v;
    buffers = λ c left rx_buf rx_len discarding scratch v. v;
    handled =
        λ bytes c v. on_packet_kept capacity (IsSent before) IsSent-IsPacketKept (parse bytes) _ v;
  }

  IsSent-IsKept : IsKept (logged link) clock capacity (IsSent before)
  IsSent-IsKept = record {
    plumbing = λ c k h left w woken v. v;
    outputs = poll_output-IsSent link clock before;
    inputs = poll_input_kept (logged link) capacity (IsSent before) IsSent-IsInputKept;
    again = λ c e more v. v;
  }

  -- A new DATA frame is in no one's way.
  unsent_free :
      (out : Out) (ack_frame tx_frame tx_frame' : Bytes) (ack_len tx_len tx_len' : ℕ)
      → data_out_busy out ≡ false
      → unsent_of out ack_frame ack_len tx_frame' tx_len'
        ≡ unsent_of out ack_frame ack_len tx_frame tx_len
  unsent_free out_idle ack_frame tx_frame tx_frame' ack_len tx_len tx_len' e = refl
  unsent_free (writing ack offset) ack_frame tx_frame tx_frame' ack_len tx_len tx_len' e = refl
  unsent_free (writing data_frame offset) ack_frame tx_frame tx_frame' ack_len tx_len tx_len' e =
      absurd (cc e)
  unsent_free (flushing ack) ack_frame tx_frame tx_frame' ack_len tx_len tx_len' e = refl
  unsent_free (flushing data_frame) ack_frame tx_frame tx_frame' ack_len tx_len tx_len' e = refl

  IsSent-IsUserKept : IsUserKept {T = Logged T} {C = C} {E = E} (IsSent before)
  IsSent-IsUserKept = record {
    reads = λ c n v. v;
    accepts = λ c scratch frame len free same v.
        ap (λ r. c.transport.sent ++ r)
          (unsent_free c.out c.ack_frame c.tx_frame frame c.ack_len c.tx_len len free)
        ∙ v;
  }

  new-IsSent :
      (config : Config) (start : Logged T) (timer : C)
      → start.sent ≡ before
      → Starts {E = E} (IsSent before) (new capacity start timer config)
  unfolding new
  new-IsSent config start timer e =
      if-Holds (Starts {T = Logged T} {C = C} {E = E} (IsSent before)) (max_payload capacity == 0)
        (λ z. tt) (λ z. ap (λ r. r ++ []) e)

module _ {T C E : Type 0} (link : Transport T E) (clock : Timer C) (capacity : ℕ)
    (config : Config) where
  -- However a connection was created and used, over any link and clock: the bytes that the link has
  -- accepted since, with what is left of the frame that is being written, are the frames that were
  -- begun, one after the other. So a frame is never cut short, changed while it is written, or mixed
  -- with another one.
  pub Life-IsSent :
      {start : Logged T} {wrote : List Bytes} {got : Bytes} {c : Reliable (Logged T) C E}
      → Life (logged link) clock capacity config start wrote got c
      → c.transport.sent ++ unsent c ≡ start.sent ++ concat c.begun
  Life-IsSent {start = start} l =
      Life-kept (logged link) clock capacity config start (IsSent start.sent)
        (IsSent-IsKept link clock capacity start.sent)
        (IsSent-IsUserKept link clock capacity start.sent)
        (λ timer. new-IsSent link clock capacity start.sent config start timer refl) l
