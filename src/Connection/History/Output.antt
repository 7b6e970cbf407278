-- ===== src/Connection/History/Output.antt =====
-- What is begun, flushed and queued again against the past: `Linked` is kept by the driver.
use cobs_io_async_rs.Connection.History.Frames.{on_packet-Linked}
use cobs_io_async_rs.Connection.History.{
  frame_of, Genuine, of_data, of_ack, InBuffer, Outstanding, Acked, Owes, Sends, Spare, Linked,
}
use cobs_io_async_rs.Connection.History.Spare.{again-Spare, ack-Spare, data-Spare}
use cobs_io_async_rs.Connection.Kept.Input.{poll_input_kept}
use cobs_io_async_rs.Connection.Kept.Output.{poll_output_kept}
use cobs_io_async_rs.Connection.Kept.{Begun, IsKept, IsOutputKept, IsInputKept}
use cobs_io_async_rs.Connection.Output.{begin_output, flushed}
use cobs_io_async_rs.Connection.State.{
  Tx, idle, queued, sending, waiting, Frame, ack, data_frame, Out, out_idle, writing, flushing,
  Reliable, is_queued, is_sending,
}
use cobs_io_async_rs.Prelude.Exec.Ensures.{Ensures, bind-Ensures}
use cobs_io_async_rs.Prelude.Exec.Holds.{if-Holds}
use cobs_io_async_rs.Prelude.{
  ℕ, ◌+◌, ◌-◌, ◌<◌, ◌≡◌, refl, sym, ap, ◌∙◌, subst, true, [], ◌∷◌, ◌++◌, append_assoc, List, Bytes,
  Option, none, some, All-append, length, length-append, take, drop, take-append, arith,
}
use cobs_io_async_rs.Protocol.Packet.Encoded.{framed, length-framed, encode_ack_lem}
use cobs_io_async_rs.Protocol.Packet.Wire.{packet_bytes}
use cobs_io_async_rs.Protocol.Packet.{ack_packet, ack_frame_len, encode_ack, parse}
use cobs_io_async_rs.Sync.Stuffing.{stuff}
use cobs_io_async_rs.Transport.{Transport, Timer}

-- The frame at the front of a buffer that it was written to.
pub take-framed :
    (bytes frame : Bytes) → take (length (stuff bytes) + 2) (framed bytes frame) ≡ frame_of bytes
take-framed bytes frame =
    ap (take (length (stuff bytes) + 2))
      (sym (ap (λ r. 0 ∷ r) (append_assoc (stuff bytes) (0 ∷ []) rest)))
    ∙ take-append (frame_of bytes) rest (omega (arith, length-append (stuff bytes) (0 ∷ [])))
  where
    rest : Bytes
    rest = drop (length (stuff bytes) + 2) frame

queued-eq : (tx : Tx) → is_queued tx ≡ true → tx ≡ queued
queued-eq queued e = refl
queued-eq idle e = absurd (cc e)
queued-eq sending e = absurd (cc e)
queued-eq waiting e = absurd (cc e)

sending-eq : (tx : Tx) → is_sending tx ≡ true → tx ≡ sending
sending-eq sending e = refl
sending-eq idle e = absurd (cc e)
sending-eq queued e = absurd (cc e)
sending-eq waiting e = absurd (cc e)

in_buffer :
    (session : ℕ) (wrote : List Bytes) (tx : Tx) (tx_next : ℕ) (tx_frame : Bytes) (tx_len : ℕ)
    → tx ≡ queued
    → Outstanding session wrote tx tx_next tx_frame tx_len
    → InBuffer session wrote tx_next tx_frame tx_len
in_buffer session wrote idle tx_next tx_frame tx_len e o = absurd (cc e)
in_buffer session wrote queued tx_next tx_frame tx_len e o = o
in_buffer session wrote sending tx_next tx_frame tx_len e o = o
in_buffer session wrote waiting tx_next tx_frame tx_len e o = o

module _ {T C E : Type 0} (session : ℕ) (wrote : List Bytes) where
  -- The state of the packet has changed, and its frame has not.
  turned :
      (tx : Tx) (tx_retries : ℕ) (c : Reliable T C E)
      → Outstanding session wrote tx c.tx_next c.tx_frame c.tx_len
      → Acked session tx c.tx_next c.seen
      → Spare session tx c.tx_next tx_retries c.config.max_retries c.begun
      → Sends session wrote c
      → Sends session wrote (record c { tx = tx; tx_retries = tx_retries })
  turned tx tx_retries c o a p s = record {
    same_session = s.same_session;
    session_lt = s.session_lt;
    count = s.count;
    outstanding = o;
    acked = a;
    owes = s.owes;
    genuine = s.genuine;
    spare = p;
    ack_room = s.ack_room;
  }

  -- An ACK is begun.
  started_ack :
      (frame ack_frame : Bytes) (seq : ℕ) (c : Reliable T C E)
      → length ack_frame ≡ ack_frame_len
      → seq < c.rx_next
      → frame ≡ frame_of (packet_bytes (ack_packet session seq))
      → Sends session wrote c
      → Sends session wrote
          (record c { ack_pending = none; ack_frame = ack_frame; begun = c.begun ++ frame ∷ [] })
  started_ack frame ack_frame seq c room lt e s = record {
    same_session = s.same_session;
    session_lt = s.session_lt;
    count = s.count;
    outstanding = s.outstanding;
    acked = s.acked;
    owes = tt;
    genuine =
        All-append (Genuine session wrote c.rx_next) c.begun (frame ∷ []) s.genuine
          (of_ack seq lt e, tt);
    spare =
        ack-Spare session c.config.max_retries c.tx_next c.begun c.tx c.tx_retries seq frame e
          s.spare;
    ack_room = room;
  }

  -- The packet is begun.
  started_data :
      (c : Reliable T C E)
      → c.tx ≡ queued
      → Sends session wrote c
      → Sends session wrote
          (record c { tx = sending; begun = c.begun ++ take c.tx_len c.tx_frame ∷ [] })
  started_data c q s =
      let (payload, pos, at, valid, same) =
        in_buffer session wrote c.tx c.tx_next c.tx_frame c.tx_len q s.outstanding in
      let frame : Bytes = take c.tx_len c.tx_frame in
      record {
        same_session = s.same_session;
        session_lt = s.session_lt;
        count = s.count;
        outstanding = (payload, pos, at, valid, same);
        acked = tt;
        owes = s.owes;
        genuine =
            All-append (Genuine session wrote c.rx_next) c.begun (frame ∷ []) s.genuine
              (of_data (c.tx_next - 1) payload at valid same, tt);
        spare =
            data-Spare session c.config.max_retries c.tx_next c.begun c.tx_retries payload frame pos
              valid same
              (subst (λ tx. Spare session tx c.tx_next c.tx_retries c.config.max_retries c.begun) q
                s.spare);
        ack_room = s.ack_room;
      }

module _ {T C E : Type 0} (link : Transport T E) (clock : Timer C) (capacity : ℕ) (session : ℕ)
    (wrote : List Bytes) (got : Bytes) where
  L : Reliable T C E → Type 0
  L = Linked session wrote got

  -- What `encode_ack` leaves: the frame of the ACK, in a buffer of the same length.
  abbrev Encoded : ℕ → ℕ → Bytes × ℕ → Type 0
  Encoded peer seq (frame, n) =
      (length frame ≡ ack_frame_len)
      × (take n frame ≡ frame_of (packet_bytes (ack_packet peer seq)))

  encode_ack-Encoded :
      (peer seq : ℕ) (frame : Bytes)
      → length frame ≡ ack_frame_len
      → Ensures (Encoded peer seq) (encode_ack peer seq frame)
  encode_ack-Encoded peer seq frame e =
      let bytes : Bytes = packet_bytes (ack_packet peer seq) in
      let (same, fits) = encode_ack_lem peer seq frame e in
      subst (Ensures (Encoded peer seq)) (sym same)
        (length-framed bytes frame fits ∙ e, take-framed bytes frame)

  begin_output_linked :
      (out : Out) (pending : Option ℕ) (c : Reliable T C E)
      → c.ack_pending ≡ pending
      → L c
      → Ensures (Begun L) (begin_output link clock out pending c)
  unfolding begin_output L
  begin_output_linked out_idle (some seq) c e (taken, s, t) =
      bind-Ensures (Encoded c.config.session seq) (Begun L)
        (encode_ack c.config.session seq c.ack_frame) _
        (encode_ack-Encoded c.config.session seq c.ack_frame s.ack_room)
        (λ w h.
          let owed : seq + 1 ≡ c.rx_next = subst (λ o. Owes o c.rx_next) e s.owes in
          (
            taken,
            started_ack session wrote (take w.1 w.0) w.0 seq c h.0 (omega arith)
                (h.1 ∙ ap (λ p. frame_of (packet_bytes (ack_packet p seq))) s.same_session) s,
            t,
          ))
  begin_output_linked out_idle none c e (taken, s, t) =
      if-Holds (Ensures (Begun L)) (is_queued c.tx)
        (λ q. (taken, started_data session wrote c (queued-eq c.tx q) s, t)) (λ q. tt)
  begin_output_linked (writing frame offset) pending c e l = l
  begin_output_linked (flushing frame) pending c e l = l

  flushed_linked : (frame : Frame) (c : Reliable T C E) → L c → L (flushed link clock frame c)
  unfolding flushed L
  flushed_linked ack c l = l
  flushed_linked data_frame c (taken, s, t) =
      if-Holds (Linked session wrote got) (is_sending c.tx)
        (λ q.
          let now : c.tx ≡ sending = sending-eq c.tx q in
          (
            taken,
            turned session wrote waiting c.tx_retries c
                (subst (λ x. Outstanding session wrote x c.tx_next c.tx_frame c.tx_len) now
                  s.outstanding)
                tt
                (subst (λ x. Spare session x c.tx_next c.tx_retries c.config.max_retries c.begun)
                  now s.spare)
                s,
            t,
          ))
        (λ q. (taken, s, t))

  Linked-IsOutputKept : IsOutputKept link clock L
  unfolding L
  Linked-IsOutputKept = record {
    begun = λ c l. begin_output_linked c.out c.ack_pending c refl l;
    writes_to = λ c cx bytes l. l;
    flushes_to = λ c cx l. l;
    moved = λ o c l. l;
    flushes = flushed_linked;
  }

  Linked-IsInputKept : IsInputKept link capacity L
  unfolding L
  Linked-IsInputKept = record {
    reads_from = λ c cx free l. l;
    buffers = λ c left rx_buf rx_len discarding scratch l. l;
    handled = λ bytes c l. on_packet-Linked session wrote got capacity bytes (parse bytes) c refl l;
  }

  -- `Linked` is kept by the driver.
  pub Linked-IsKept : IsKept link clock capacity (Linked session wrote got)
  unfolding L
  Linked-IsKept = record {
    plumbing = λ c k h left w woken l. l;
    outputs = poll_output_kept link clock L Linked-IsOutputKept;
    inputs = poll_input_kept link capacity L Linked-IsInputKept;
    again = λ c e more (taken, s, t). (
      taken,
      turned session wrote queued (c.tx_retries + 1) c
          (subst (λ x. Outstanding session wrote x c.tx_next c.tx_frame c.tx_len) e s.outstanding)
          tt
          (again-Spare session c.config.max_retries c.tx_next c.begun c.tx_retries more (
            subst (λ x. Spare session x c.tx_next c.tx_retries c.config.max_retries c.begun) e
              s.spare))
          s,
      t,
    );
  }
