-- ===== src/Connection/Stream/Received.antt =====
-- The bytes that the link has given, against the frames that were decoded.
use cobs_io_async_rs.Connection.Api.{new}
use cobs_io_async_rs.Connection.History.Life.{Life}
use cobs_io_async_rs.Connection.History.Steps.{Starts, Life-kept}
use cobs_io_async_rs.Connection.Input.{process_input, received, poll_input, spend_allowance}
use cobs_io_async_rs.Connection.Kept.Api.{IsUserKept}
use cobs_io_async_rs.Connection.Kept.Output.{poll_output_kept}
use cobs_io_async_rs.Connection.Kept.{Begun, IsKept, IsOutputKept}
use cobs_io_async_rs.Connection.Output.{begin_output, flushed}
use cobs_io_async_rs.Connection.State.{
  Config, Frame, ack, data_frame, Out, out_idle, writing, flushing, Reliable, Outcome, is_queued,
  is_sending,
}
use cobs_io_async_rs.Connection.Stream.Assembly.{feed, onward, assemble, assemble-append, contents}
use cobs_io_async_rs.Connection.Stream.Fed.{Held, Shown}
use cobs_io_async_rs.Connection.Stream.Frames.{process_loop-Shown}
use cobs_io_async_rs.Connection.Stream.{Logged, moved, logged}
use cobs_io_async_rs.Prelude.Exec.Ensures.{Ensures, bind-Ensures, Ensures-any, slice_from-Ensures}
use cobs_io_async_rs.Prelude.Exec.Holds.{if-Holds}
use cobs_io_async_rs.Prelude.Exec.{slice_from}
use cobs_io_async_rs.Prelude.{
  ℕ, zero, suc, ◌+◌, ◌-◌, ◌≡◌, refl, sym, ap, ◌∙◌, min, [], ◌∷◌, ◌++◌, append-nil, List, Bytes,
  Option, none, some, Result, ok, err, length, length-take, length-drop, length-append,
  length-replicate, take, drop, take-append, ◌==◌, arith,
}
use cobs_io_async_rs.Protocol.Packet.{encode_ack}
use cobs_io_async_rs.Protocol.Payload.Largest.{max_payload-le}
use cobs_io_async_rs.Protocol.Payload.{max_payload}
use cobs_io_async_rs.Transport.{Waker, Poll, ready, pending, Transport, KeepsLength, Timer}
use mathlib.Core.List.{foldl}

take-min : (k : ℕ) (ys : Bytes) → take (min k (length ys)) ys ≡ take k ys
take-min zero ys = let e : min 0 (length ys) ≡ 0 = omega arith in rw e refl
take-min (suc k) [] = let e : min (suc k) 0 ≡ 0 = omega arith in rw e refl
take-min (suc k) (y ∷ ys) =
    let e : min (suc k) (suc (length ys)) ≡ suc (min k (length ys)) = omega arith in
    rw e (ap (λ r. y ∷ r) (take-min k ys))

-- Some of the bytes that come behind what is held.
take-more :
    (xs ys : Bytes) (k : ℕ) {n : ℕ}
    → n ≡ length xs
    → take (n + min k (length ys)) (xs ++ ys) ≡ xs ++ take k ys
take-more [] ys k {n = n} e =
    let none : n + min k (length ys) ≡ min k (length ys) = omega arith in rw none (take-min k ys)
take-more (x ∷ xs) ys k {n = zero} e = absurd (omega arith)
take-more (x ∷ xs) ys k {n = suc n} e =
    let more : suc n + min k (length ys) ≡ suc (n + min k (length ys)) = omega arith in
    rw more (ap (λ r. x ∷ r) (take-more xs ys k (omega arith)))

module _ {T C E : Type 0} (link : Transport T E) (clock : Timer C) (capacity : ℕ)
    (keeps : KeepsLength link) where
  abbrev After : Outcome (Logged T) C E → Type 0
  After (c, r) = Shown capacity c

  -- The connection behind a call of `poll_read`.
  abbrev read_to : Reliable (Logged T) C E → T → Poll (Result ℕ E) → Bytes → Reliable (Logged T) C E
  read_to c t polled buf = record c {
    transport = record c.transport {
      link = t;
      received = c.transport.received ++ moved polled buf;
    };
    rx_buf = take c.rx_len c.rx_buf ++ buf;
  }

  refilled :
      (c : Reliable (Logged T) C E) (buf : Bytes)
      → Shown capacity c
      → length buf ≡ capacity - c.rx_len
      → (length (take c.rx_len c.rx_buf ++ buf) ≡ capacity)
        × (c.rx_len ≡ length (take c.rx_len c.rx_buf))
  refilled c buf v e = (
    omega (
      arith,
      length-append (take c.rx_len c.rx_buf) buf,
      length-take c.rx_len c.rx_buf,
      v.sized,
      v.short,
    ),
    omega (arith, length-take c.rx_len c.rx_buf, v.sized, v.short),
  )

  -- Nothing was given.
  unread-Shown :
      (c : Reliable (Logged T) C E) (t : T) (polled : Poll (Result ℕ E)) (buf : Bytes)
      → Shown capacity c
      → length buf ≡ capacity - c.rx_len
      → moved polled buf ≡ []
      → Shown capacity (read_to c t polled buf)
  unread-Shown c t polled buf v e m =
      let (size, held) = refilled c buf v e in
      record {
        sized = size;
        short = v.short;
        space = v.space;
        frames = v.frames;
        whole =
            ap (assemble capacity)
              (ap (λ r. c.transport.received ++ r) m ∙ append-nil c.transport.received)
            ∙ v.whole
            ∙ ap (λ p. record { partial = p; discarding = c.rx_discarding; frames = v.frames })
                (sym (take-append (take c.rx_len c.rx_buf) buf held));
        shown = v.shown;
      }

  read-Held :
      (c : Reliable (Logged T) C E) (t : T) (k : ℕ) (left : Option ℕ) (buf : Bytes)
      → Shown capacity c
      → length buf ≡ capacity - c.rx_len
      → Held capacity (record (read_to c t (ready (ok k)) buf) {
        rx_len = c.rx_len + min k (length buf);
        final_input = left;
      })
  read-Held c t k left buf v e =
      let (size, held) = refilled c buf v e in
      record {
        frames = v.frames;
        room = omega (arith, v.short);
        sized = size;
        within = omega (arith, v.short);
        space = v.space;
        fed =
            assemble-append capacity c.transport.received (take k buf)
            ∙ ap (λ a. foldl (feed capacity) (record a { partial = [] }) (a.partial ++ take k buf))
                v.whole
            ∙ ap (onward capacity v.frames c.rx_discarding)
                (sym (take-more (take c.rx_len c.rx_buf) buf k held));
        shown = v.shown;
      }

  received-Shown :
      (c : Reliable (Logged T) C E) (t : T) (polled : Poll (Result ℕ E)) (buf : Bytes)
      → Shown capacity c
      → length buf ≡ capacity - c.rx_len
      → Ensures After (received capacity (logged link) (length buf) (read_to c t polled buf) polled)
  unfolding received process_input
  received-Shown c t pending buf v e = unread-Shown c t pending buf v e refl
  received-Shown c t (ready (err x)) buf v e = unread-Shown c t (ready (err x)) buf v e refl
  received-Shown c t (ready (ok zero)) buf v e = unread-Shown c t (ready (ok zero)) buf v e refl
  received-Shown c t (ready (ok (suc k))) buf v e =
      let read = min (suc k) (length buf) in
      let left = spend_allowance read c.final_input in
      bind-Ensures (Shown capacity) After
        (process_input capacity (record (read_to c t (ready (ok (suc k))) buf) {
          rx_len = c.rx_len + read;
          final_input = left;
        }))
        _ (process_loop-Shown capacity (c.rx_len + read + 1) _ (read-Held c t (suc k) left buf v e))
        (λ c' w. w)

  poll_input-Shown :
      (cx : Waker) (budget : ℕ) (c : Reliable (Logged T) C E)
      → Shown capacity c
      → Ensures (λ r. After r.1) (poll_input capacity (logged link) cx budget c)
  unfolding poll_input
  poll_input-Shown cx zero c v = v
  poll_input-Shown cx (suc left) c v =
      bind-Ensures (λ b. b ≡ drop c.rx_len c.rx_buf) (λ r. After r.1) (slice_from c.rx_buf c.rx_len)
        _ (slice_from-Ensures c.rx_buf c.rx_len)
        (λ free e.
          let t = link.poll_read c.transport.link cx free in
          bind-Ensures After (λ r. After r.1)
            (received capacity (logged link) (length t.1) (read_to c t.0 t.2 t.1) t.2) _
            (received-Shown c t.0 t.2 t.1 v (
              keeps c.transport.link cx free
              ∙ ap length e
              ∙ length-drop c.rx_len c.rx_buf
              ∙ ap (λ n. n - c.rx_len) v.sized))
            (λ o w. w))

  begin_output-Shown :
      (out : Out) (seq : Option ℕ) (c : Reliable (Logged T) C E)
      → Shown capacity c
      → Ensures (Begun (Shown capacity)) (begin_output (logged link) clock out seq c)
  unfolding begin_output
  begin_output-Shown out_idle (some seq) c v =
      bind-Ensures (λ w. Unit {0}) (Begun (Shown capacity))
        (encode_ack c.config.session seq c.ack_frame) _
        (Ensures-any (encode_ack c.config.session seq c.ack_frame)) (λ w i. v)
  begin_output-Shown out_idle none c v =
      if-Holds (Ensures (Begun (Shown capacity))) (is_queued c.tx) (λ q. v) (λ q. tt)
  begin_output-Shown (writing frame offset) seq c v = v
  begin_output-Shown (flushing frame) seq c v = v

  flushed-Shown :
      (frame : Frame) (c : Reliable (Logged T) C E)
      → Shown capacity c
      → Shown capacity (flushed (logged link) clock frame c)
  unfolding flushed
  flushed-Shown ack c v = v
  flushed-Shown data_frame c v = if-Holds (Shown capacity) (is_sending c.tx) (λ e. v) (λ e. v)

  Shown-IsOutputKept : IsOutputKept {E = E} (logged link) clock (Shown capacity)
  Shown-IsOutputKept = record {
    begun = λ c v. begin_output-Shown c.out c.ack_pending c v;
    writes_to = λ c cx bytes v. v;
    flushes_to = λ c cx v. v;
    moved = λ o c v. v;
    flushes = flushed-Shown;
  }

  Shown-IsKept : IsKept (logged link) clock capacity (Shown capacity)
  Shown-IsKept = record {
    plumbing = λ c k h left w woken v. v;
    outputs = poll_output_kept (logged link) clock (Shown capacity) Shown-IsOutputKept;
    inputs = poll_input-Shown;
    again = λ c e more v. v;
  }

  Shown-IsUserKept : IsUserKept {T = Logged T} {C = C} {E = E} (Shown capacity)
  Shown-IsUserKept = record {
    reads = λ c n v. v;
    accepts = λ c scratch frame len free same v. record {
      sized = v.sized;
      short = v.short;
      space = same ∙ v.space;
      frames = v.frames;
      whole = v.whole;
      shown = v.shown;
    };
  }

  new-Shown :
      (config : Config) (start : Logged T) (timer : C)
      → start.received ≡ []
      → Starts {E = E} (Shown capacity) (new capacity start timer config)
  unfolding new assemble
  new-Shown config start timer e =
      if-Holds (Starts {T = Logged T} {C = C} {E = E} (Shown capacity)) (max_payload capacity == 0)
        (λ z. tt)
        (λ z. record {
          sized = length-replicate capacity 0;
          short = ground (arith, max_payload-le capacity);
          space = length-replicate capacity 0;
          frames = [];
          whole = ap (assemble capacity) e;
          shown = refl;
        })

module _ {T C E : Type 0} (link : Transport T E) (clock : Timer C) (capacity : ℕ) (config : Config)
    (keeps : KeepsLength link) where
  pub Life-Shown :
      {start : Logged T} {wrote : List Bytes} {got : Bytes} {c : Reliable (Logged T) C E}
      → start.received ≡ []
      → Life (logged link) clock capacity config start wrote got c
      → Shown capacity c
  Life-Shown {start = start} e l =
      Life-kept (logged link) clock capacity config start (Shown capacity)
        (Shown-IsKept link clock capacity keeps) (Shown-IsUserKept link clock capacity keeps)
        (λ timer. new-Shown link clock capacity keeps config start timer e) l

  -- However a connection was created and used, over any clock and a link that keeps the length of its
  -- buffers: what was decoded is what the frames hold that lie between the zeros of the bytes that the
  -- link has given, those left out that do not fit the capacity and those that do not decode. So it
  -- does not depend on how the link cut these bytes up, nor on what a buffer held before.
  pub seen-contents :
      {start : Logged T} {wrote : List Bytes} {got : Bytes} {c : Reliable (Logged T) C E}
      → start.received ≡ []
      → Life (logged link) clock capacity config start wrote got c
      → c.seen ≡ contents capacity (assemble capacity c.transport.received).frames
  seen-contents e l =
      let v = Life-Shown e l in v.shown ∙ ap (λ a. contents capacity a.frames) (sym v.whole)
