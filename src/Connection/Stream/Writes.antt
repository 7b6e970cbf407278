-- ===== src/Connection/Stream/Writes.antt =====
-- `poll_output` against the bytes that the link has accepted.
use cobs_io_async_rs.Connection.Stream.Unsent.{
  frame_bytes, unsent-writing, extended, rest, unsent-advance,
}
use cobs_io_async_rs.Connection.Kept.{Begun}
use cobs_io_async_rs.Connection.Output.{
  begin_output, pending_output, wrote, write_output, flushed, flush_polled, flush_output,
  run_output, drive_output, poll_output,
}
use cobs_io_async_rs.Connection.State.{
  Frame, ack, data_frame, Out, out_idle, writing, flushing, Reliable, Outcome, is_queued,
  is_sending,
}
use cobs_io_async_rs.Connection.Stream.{Logged, moved, logged, unsent_of, unsent}
use cobs_io_async_rs.Prelude.Exec.Ensures.{
  Ensures, bind-Ensures, Ensures-any, slice_to-Ensures, slice_from-Ensures,
}
use cobs_io_async_rs.Prelude.Exec.Holds.{if-Holds}
use cobs_io_async_rs.Prelude.Exec.{slice_to, slice_from}
use cobs_io_async_rs.Prelude.{
  ℕ, zero, suc, ◌+◌, ◌≡◌, refl, sym, ap, ◌∙◌, subst, min, ◌++◌, append-nil, Bytes, Option, none,
  some, Result, ok, err, concat, length, take, drop, ◌==◌, if◌then◌else◌,
}
use cobs_io_async_rs.Protocol.Packet.{encode_ack}
use cobs_io_async_rs.Transport.{Waker, Poll, ready, pending, Transport, Timer}

-- What was begun is what was sent, and what is left of the frame that is being written.
abbrev pub IsSent : {T C E : Type 0} → Bytes → Reliable (Logged T) C E → Type 0
IsSent before c = c.transport.sent ++ unsent c ≡ before ++ concat c.begun

module _ {T C E : Type 0} (link : Transport T E) (clock : Timer C) (before : Bytes) where
  abbrev After : Outcome (Logged T) C E → Type 0
  After (c, r) = IsSent before c

  -- `IsSent` of a connection whose `out` is known.
  abbrev Sending : Out → Reliable (Logged T) C E → Type 0
  Sending out c =
      c.transport.sent ++ unsent_of out c.ack_frame c.ack_len c.tx_frame c.tx_len
      ≡ before ++ concat c.begun

  begin_output-IsSent :
      (out : Out) (seq : Option ℕ) (c : Reliable (Logged T) C E)
      → c.out ≡ out
      → IsSent before c
      → Ensures (Begun (IsSent before)) (begin_output (logged link) clock out seq c)
  unfolding begin_output
  begin_output-IsSent out_idle (some seq) c e v =
      bind-Ensures (λ w. Unit {0}) (Begun (IsSent before))
        (encode_ack c.config.session seq c.ack_frame) _
        (Ensures-any (encode_ack c.config.session seq c.ack_frame))
        (λ w i.
          extended c.transport.sent before c.begun (take w.1 w.0) (subst (λ o. Sending o c) e v))
  begin_output-IsSent out_idle none c e v =
      if-Holds (Ensures (Begun (IsSent before))) (is_queued c.tx)
        (λ q.
          extended c.transport.sent before c.begun (take c.tx_len c.tx_frame)
            (subst (λ o. Sending o c) e v))
        (λ q. tt)
  begin_output-IsSent (writing frame offset) seq c e v = v
  begin_output-IsSent (flushing frame) seq c e v = v

  pending_output-drop :
      (frame : Frame) (offset : ℕ) (c : Reliable (Logged T) C E)
      → let (buf, len) = frame_bytes frame c.ack_frame c.ack_len c.tx_frame c.tx_len in
        Ensures
          (λ p. (p.0 ≡ drop offset (take len buf)) × (p.1 ≡ len))
          (pending_output (logged link) clock frame offset c)
  unfolding pending_output
  pending_output-drop ack offset c =
      bind-Ensures (λ b. b ≡ take c.ack_len c.ack_frame) _ (slice_to c.ack_frame c.ack_len) _
        (slice_to-Ensures c.ack_frame c.ack_len)
        (λ b e.
          bind-Ensures (λ r. r ≡ drop offset b) _ (slice_from b offset) _
            (slice_from-Ensures b offset) (λ r f. (f ∙ ap (drop offset) e, refl)))
  pending_output-drop data_frame offset c =
      bind-Ensures (λ b. b ≡ take c.tx_len c.tx_frame) _ (slice_to c.tx_frame c.tx_len) _
        (slice_to-Ensures c.tx_frame c.tx_len)
        (λ b e.
          bind-Ensures (λ r. r ≡ drop offset b) _ (slice_from b offset) _
            (slice_from-Ensures b offset) (λ r f. (f ∙ ap (drop offset) e, refl)))

  -- The connection behind a call of `poll_write`.
  abbrev written : Reliable (Logged T) C E → T → Poll (Result ℕ E) → Bytes → Reliable (Logged T) C E
  written c t polled bytes = record c {
    transport = record c.transport { link = t; sent = c.transport.sent ++ moved polled bytes };
  }

  wrote-IsSent :
      (frame : Frame) (offset len : ℕ) (bytes : Bytes) (t : T) (c : Reliable (Logged T) C E)
      (polled : Poll (Result ℕ E))
      → let (buf, size) = frame_bytes frame c.ack_frame c.ack_len c.tx_frame c.tx_len in
        bytes ≡ drop offset (take size buf)
        → len ≡ size
        → c.out ≡ writing frame offset
        → IsSent before c
        → After (
            wrote
              (logged link)
              clock
              frame
              offset
              len
              (length bytes)
              (written c t polled bytes)
              polled)
  unfolding wrote
  wrote-IsSent frame offset len bytes t c pending e f o v =
      ap (λ r. r ++ unsent c) (append-nil c.transport.sent) ∙ v
  wrote-IsSent frame offset len bytes t c (ready (err x)) e f o v =
      ap (λ r. r ++ unsent c) (append-nil c.transport.sent) ∙ v
  wrote-IsSent frame offset len bytes t c (ready (ok zero)) e f o v =
      ap (λ r. r ++ unsent c) (append-nil c.transport.sent) ∙ v
  wrote-IsSent frame offset len bytes t c (ready (ok (suc k))) e f o v =
      ap (λ r. (c.transport.sent ++ take (suc k) bytes) ++ r)
        (ap
            (λ l.
              unsent_of
                (if offset + min (suc k) (length bytes) == l
                  then flushing frame
                  else writing frame (offset + min (suc k) (length bytes)))
                c.ack_frame c.ack_len c.tx_frame c.tx_len)
            f
          ∙ unsent-advance frame offset (suc k) c.ack_frame c.tx_frame bytes c.ack_len c.tx_len e)
      ∙ rest c.transport.sent (suc k) bytes
      ∙ ap (λ r. c.transport.sent ++ r)
          (e ∙ sym (unsent-writing frame offset c.ack_frame c.tx_frame c.ack_len c.tx_len))
      ∙ subst (λ out. Sending out c) o v

  write_output-IsSent :
      (cx : Waker) (frame : Frame) (offset : ℕ) (c : Reliable (Logged T) C E)
      → c.out ≡ writing frame offset
      → IsSent before c
      → Ensures After (write_output (logged link) clock cx frame offset c)
  unfolding write_output
  write_output-IsSent cx frame offset c o v =
      bind-Ensures _ After (pending_output (logged link) clock frame offset c) _
        (pending_output-drop frame offset c)
        (λ p e.
          let t = link.poll_write c.transport.link cx p.0 in
          wrote-IsSent frame offset p.1 p.0 t.0 c t.1 e.0 e.1 o v)

  flushed-IsSent :
      (frame : Frame) (c : Reliable (Logged T) C E)
      → Sending (flushing frame) c
      → IsSent before (flushed (logged link) clock frame c)
  unfolding flushed
  flushed-IsSent ack c v = v
  flushed-IsSent data_frame c v = if-Holds (IsSent before) (is_sending c.tx) (λ e. v) (λ e. v)

  flush_polled-IsSent :
      (frame : Frame) (c : Reliable (Logged T) C E) (polled : Poll (Result (Unit {0}) E))
      → c.out ≡ flushing frame
      → IsSent before c
      → After (flush_polled (logged link) clock frame c polled)
  unfolding flush_polled
  flush_polled-IsSent frame c pending o v = v
  flush_polled-IsSent frame c (ready (err e)) o v = v
  flush_polled-IsSent frame c (ready (ok u)) o v =
      flushed-IsSent frame c (subst (λ out. Sending out c) o v)

  run_output-IsSent :
      (cx : Waker) (out : Out) (c : Reliable (Logged T) C E)
      → c.out ≡ out
      → IsSent before c
      → Ensures After (run_output (logged link) clock cx out c)
  unfolding run_output flush_output
  run_output-IsSent cx out_idle c o v = v
  run_output-IsSent cx (writing frame offset) c o v = write_output-IsSent cx frame offset c o v
  run_output-IsSent cx (flushing frame) c o v =
      let t = link.poll_flush c.transport.link cx in
      flush_polled-IsSent frame (record c { transport = record c.transport { link = t.0 } }) t.1 o v

  drive_output-IsSent :
      (cx : Waker) (budget : ℕ) (begun : Option (Reliable (Logged T) C E))
      (c : Reliable (Logged T) C E)
      → Begun (IsSent before) begun
      → IsSent before c
      → Ensures (λ r. After r.1) (drive_output (logged link) clock cx budget begun c)
  unfolding drive_output
  drive_output-IsSent cx budget none c b v = v
  drive_output-IsSent cx zero (some c') c b v = b
  drive_output-IsSent cx (suc left) (some c') c b v =
      bind-Ensures After (λ r. After r.1) (run_output (logged link) clock cx c'.out c') _
        (run_output-IsSent cx c'.out c' refl b) (λ o w. w)

  pub poll_output-IsSent :
      (cx : Waker) (budget : ℕ) (c : Reliable (Logged T) C E)
      → IsSent before c
      → Ensures (λ r. After r.1) (poll_output (logged link) clock cx budget c)
  unfolding poll_output
  poll_output-IsSent cx budget c v =
      bind-Ensures (Begun (IsSent before)) (λ r. After r.1)
        (begin_output (logged link) clock c.out c.ack_pending c) _
        (begin_output-IsSent c.out c.ack_pending c refl v)
        (λ begun b. drive_output-IsSent cx budget begun c b v)
