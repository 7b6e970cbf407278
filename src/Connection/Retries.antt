-- ===== src/Connection/Retries.antt =====
-- How often the frame of a packet is begun: `retransmit` with its count `tx_retries`, and
-- `begin_output`, of `src/connection.rs`.
use cobs_io_async_rs.Connection.Api.{new}
use cobs_io_async_rs.Connection.History.Life.{Life, Life-Linked}
use cobs_io_async_rs.Connection.History.{frame_of}
use cobs_io_async_rs.Connection.History.Steps.{Starts, Life-kept}
use cobs_io_async_rs.Connection.Kept.Api.{IsUserKept}
use cobs_io_async_rs.Connection.Kept.Input.{poll_input_kept}
use cobs_io_async_rs.Connection.Kept.Output.{poll_output_kept}
use cobs_io_async_rs.Connection.Kept.Packets.{IsPacketKept, on_packet_kept}
use cobs_io_async_rs.Connection.Kept.{Begun, IsKept, IsOutputKept, IsInputKept}
use cobs_io_async_rs.Connection.Output.{begin_output, flushed}
use cobs_io_async_rs.Connection.State.{
  Config, Frame, ack, data_frame, Out, out_idle, writing, flushing, Reliable, is_queued, is_sending,
}
use cobs_io_async_rs.Prelude.Exec.Ensures.{Ensures, bind-Ensures, Ensures-any}
use cobs_io_async_rs.Prelude.Exec.Holds.{if-Holds}
use cobs_io_async_rs.Prelude.{
  ℕ, ◌+◌, ◌^◌, ◌≤◌, ◌<◌, ◌≡◌, refl, ap, ◌==◌, List, Bytes, Option, none, some, times, arith,
}
use cobs_io_async_rs.Protocol.Packet.Parsed.{IsPacket}
use cobs_io_async_rs.Protocol.Packet.Wire.{packet_bytes}
use cobs_io_async_rs.Protocol.Packet.{encode_ack, parse, data_packet}
use cobs_io_async_rs.Protocol.Payload.{max_payload}
use cobs_io_async_rs.Transport.{Transport, Timer, KeepsLength}

-- The configuration is the one given, and its bound on the retries is kept.
abbrev pub IsBounded : {T C E : Type 0} → Config → Reliable T C E → Type 0
IsBounded config c = (c.config ≡ config) × (c.tx_retries ≤ c.config.max_retries)

module _ {T C E : Type 0} (config : Config) where
  abbrev B : Reliable T C E → Type 0
  B = IsBounded config

  IsBounded-IsPacketKept : IsPacketKept B
  IsBounded-IsPacketKept = record {
    completed = λ c v. (v.0, omega arith);
    taken = λ c rx_payload rx_end seq v. v;
    owed = λ c seq v. v;
  }

module _ {T C E : Type 0} (link : Transport T E) (clock : Timer C) (capacity : ℕ)
    (config : Config) where
  begin_output-IsBounded :
      (out : Out) (pending : Option ℕ) (c : Reliable T C E)
      → IsBounded config c
      → Ensures (Begun (IsBounded config)) (begin_output link clock out pending c)
  unfolding begin_output
  begin_output-IsBounded out_idle (some seq) c v =
      bind-Ensures (λ w. Unit {0}) (Begun (IsBounded config))
        (encode_ack c.config.session seq c.ack_frame) _
        (Ensures-any (encode_ack c.config.session seq c.ack_frame)) (λ w i. v)
  begin_output-IsBounded out_idle none c v =
      if-Holds (Ensures (Begun (IsBounded config))) (is_queued c.tx) (λ e. v) (λ e. tt)
  begin_output-IsBounded (writing frame offset) pending c v = v
  begin_output-IsBounded (flushing frame) pending c v = v

  flushed-IsBounded :
      (frame : Frame) (c : Reliable T C E)
      → IsBounded config c
      → IsBounded config (flushed link clock frame c)
  unfolding flushed
  flushed-IsBounded ack c v = v
  flushed-IsBounded data_frame c v = if-Holds (IsBounded config) (is_sending c.tx) (λ e. v) (λ e. v)

  IsBounded-IsOutputKept : IsOutputKept link clock (IsBounded config)
  IsBounded-IsOutputKept = record {
    begun = λ c v. begin_output-IsBounded c.out c.ack_pending c v;
    writes_to = λ c cx bytes v. v;
    flushes_to = λ c cx v. v;
    moved = λ o c v. v;
    flushes = flushed-IsBounded;
  }

  IsBounded-IsInputKept : IsInputKept {C = C} link capacity (IsBounded config)
  IsBounded-IsInputKept = record {
    reads_from = λ c cx free v. v;
    buffers = λ c left rx_buf rx_len discarding scratch v. v;
    handled = λ bytes c v.
        on_packet_kept capacity (IsBounded config) (IsBounded-IsPacketKept config) (parse bytes) _
          v;
  }

  IsBounded-IsKept : IsKept link clock capacity (IsBounded config)
  IsBounded-IsKept = record {
    plumbing = λ c k h left w woken v. v;
    outputs = poll_output_kept link clock (IsBounded config) IsBounded-IsOutputKept;
    inputs = poll_input_kept link capacity (IsBounded config) IsBounded-IsInputKept;
    again = λ c e more v. (v.0, omega arith);
  }

  IsBounded-IsUserKept : IsUserKept {T = T} {C = C} {E = E} (IsBounded config)
  IsBounded-IsUserKept = record {
    reads = λ c n v. v;
    accepts = λ c scratch frame len free same v. (v.0, omega arith);
  }

  new-IsBounded :
      (transport : T) (timer : C)
      → Starts {E = E} (IsBounded config) (new capacity transport timer config)
  unfolding new
  new-IsBounded transport timer =
      if-Holds (Starts {T = T} {C = C} {E = E} (IsBounded config)) (max_payload capacity == 0)
        (λ e. tt) (λ e. (refl, omega arith))

  -- However a connection was created and used: its configuration is the one that it was created with,
  -- and its counter `tx_retries` does not exceed the `max_retries` of that.
  Life-IsBounded :
      {start : T} {wrote : List Bytes} {got : Bytes} {c : Reliable T C E}
      → Life link clock capacity config start wrote got c
      → (c.config ≡ config) × (c.tx_retries ≤ c.config.max_retries)
  Life-IsBounded {start = start} l =
      Life-kept link clock capacity config start (IsBounded config) IsBounded-IsKept
        IsBounded-IsUserKept (new-IsBounded start) l

  -- However a connection was created and used, over a link that keeps the length of the buffers that
  -- it is given, with a capacity below 2 ^ 62 and a session below 2 ^ 64: of the frames that it has
  -- begun to send, the frame of a DATA packet of its session, whatever its sequence number and payload
  -- are, is one at most `max_retries + 1` times, where `max_retries` is that of the configuration that
  -- the connection was created with.
  pub times-begun :
      {start : T} {wrote : List Bytes} {got : Bytes} {c : Reliable T C E} (seq : ℕ)
      (payload : Bytes)
      → KeepsLength link
      → capacity < 2 ^ 62
      → config.session < 2 ^ 64
      → IsPacket (data_packet config.session seq payload)
      → Life link clock capacity config start wrote got c
      → times (frame_of (packet_bytes (data_packet config.session seq payload))) c.begun
        ≤ config.max_retries + 1
  times-begun {c = c} seq payload keeps room small valid l =
      let (v, (taken, s, t)) = Life-Linked link clock capacity config keeps room small l in
      let bound = (s.spare.1 seq payload valid).0 in
      let kept = ap (λ k. k.max_retries) (Life-IsBounded l).0 in omega (arith, bound, kept)
