-- ===== src/Connection/History/Reading.antt =====
-- `poll_read` against the past.
use cobs_io_async_rs.Connection.Api.{read_payload, poll_read, finish}
use cobs_io_async_rs.Connection.Drive.{failure, drive}
use cobs_io_async_rs.Connection.History.Output.{Linked-IsKept}
use cobs_io_async_rs.Connection.History.{Takes, Linked}
use cobs_io_async_rs.Connection.Kept.Driver.{drive_kept, failure_kept, finish_kept}
use cobs_io_async_rs.Connection.State.{Work, step_budget, op_read, Reliable}
use cobs_io_async_rs.Connection.Valid.Driver.{Driven, drive-Driven}
use cobs_io_async_rs.Connection.Valid.{IsValid}
use cobs_io_async_rs.Error.{ConnectionError}
use cobs_io_async_rs.Prelude.Exec.Ensures.{
  Ensures, bind-Ensures, both-Holds, Ensures-Holds, slice_to-Ensures, slice_from-Ensures,
  copy_at-Ensures,
}
use cobs_io_async_rs.Prelude.Exec.Holds.{if-Holds}
use cobs_io_async_rs.Prelude.Exec.{slice_to, slice_from, copy_at}
use cobs_io_async_rs.Prelude.{
  ℕ, zero, suc, ◌+◌, ◌-◌, ◌≤◌, ◌≡◌, refl, sym, ap, ◌∙◌, min, ltb, [], ◌∷◌, ◌++◌, append_assoc,
  append-nil, subst, List, Bytes, take, drop, take-append, length-take, length-drop, Option, none,
  some, Result, ok, err, length, arith,
}
use cobs_io_async_rs.Transport.{Waker, Poll, ready, pending, Transport, Timer, KeepsLength}

-- The bytes read, after a `poll_read` that returned `poll` and left `buf` in its buffer.
abbrev pub after_read : {E : Type 0} → Bytes → Bytes → Poll (Result ℕ E) → Bytes
after_read got buf pending = got
after_read got buf (ready (err e)) = got
after_read got buf (ready (ok n)) = got ++ take n buf

-- What stands between two positions is what stands up to a third one and what comes then.
drop-take_split :
    (s m e : ℕ) (xs : Bytes)
    → s ≤ m
    → m ≤ e
    → drop s (take m xs) ++ drop m (take e xs) ≡ drop s (take e xs)
drop-take_split zero zero e xs h k = refl
drop-take_split zero (suc m) zero xs h k = absurd (omega arith)
drop-take_split zero (suc m) (suc e) [] h k = refl
drop-take_split zero (suc m) (suc e) (x ∷ xs) h k =
    ap (λ r. x ∷ r) (drop-take_split zero m e xs (omega arith) (omega arith))
drop-take_split (suc s) zero e xs h k = absurd (omega arith)
drop-take_split (suc s) (suc m) zero xs h k = absurd (omega arith)
drop-take_split (suc s) (suc m) (suc e) [] h k = refl
drop-take_split (suc s) (suc m) (suc e) (x ∷ xs) h k =
    drop-take_split s m e xs (omega arith) (omega arith)

module _ {T C E : Type 0} (link : Transport T E) (clock : Timer C) (capacity : ℕ) where
  abbrev pub ReadFrom :
      ℕ → List Bytes → Bytes → Bytes × Reliable T C E × Poll (Result ℕ (ConnectionError E)) → Type 0
  ReadFrom session wrote got (buf, c, poll) = Linked session wrote (after_read got buf poll) c

  advanced :
      (session : ℕ) (got : Bytes) (taken : List Bytes) (n : ℕ) (buf : Bytes) (c : Reliable T C E)
      → c.rx_start + n ≤ c.rx_end
      → take n buf ≡ drop c.rx_start (take (c.rx_start + n) c.rx_payload)
      → Takes session got taken c
      → Takes session (got ++ take n buf) taken (record c { rx_start = c.rx_start + n })
  advanced session got taken n buf c h e t = record {
    count = t.count;
    received = t.received;
    bytes =
        append_assoc got (take n buf) (drop (c.rx_start + n) (take c.rx_end c.rx_payload))
        ∙ ap (λ r. got ++ (r ++ drop (c.rx_start + n) (take c.rx_end c.rx_payload))) e
        ∙ ap (λ r. got ++ r)
            (drop-take_split c.rx_start (c.rx_start + n) c.rx_end c.rx_payload (omega arith) h)
        ∙ t.bytes;
    start_le = h;
  }

  unread :
      (session : ℕ) (wrote : List Bytes) (got buf : Bytes)
      (f : Reliable T C E × Option (ConnectionError E))
      → Linked session wrote got f.0
      → ReadFrom session wrote got (buf, f.0, elim f.1 [ none ↦ pending | some e ↦ ready (err e) ])
  unread session wrote got buf (c, none) l = l
  unread session wrote got buf (c, some e) l = l

  read_payload-Linked :
      (session : ℕ) (wrote : List Bytes) (got buf : Bytes) (c : Reliable T C E)
      → IsValid capacity c
      → Linked session wrote got c
      → Ensures (ReadFrom session wrote got) (read_payload link clock capacity buf c)
  unfolding read_payload
  read_payload-Linked session wrote got buf c ((s, r, l), room) (taken, snd, t) =
      if-Holds (Ensures (ReadFrom session wrote got)) (ltb c.rx_start c.rx_end)
        (λ some_left.
          let within : c.rx_start + n ≤ c.rx_end = ground arith in
          bind-Ensures (λ h. h ≡ take (c.rx_start + n) c.rx_payload) (ReadFrom session wrote got)
            (slice_to c.rx_payload (c.rx_start + n)) _
            (slice_to-Ensures c.rx_payload (c.rx_start + n))
            (λ h e.
              bind-Ensures (λ b. b ≡ drop c.rx_start h) (ReadFrom session wrote got)
                (slice_from h c.rx_start) _ (slice_from-Ensures h c.rx_start)
                (λ b e'.
                  bind-Ensures (λ x. x ≡ take 0 buf ++ (b ++ drop (0 + length b) buf))
                    (ReadFrom session wrote got) (copy_at buf 0 b) _ (copy_at-Ensures buf 0 b)
                    (λ x e''.
                      let size : length b ≡ n = omega (
                        arith,
                        ap length e',
                        length-drop c.rx_start h,
                        ap length e,
                        length-take (c.rx_start + n) c.rx_payload,
                        r.rx_payload_length,
                        r.rx_end_le,
                      ) in
                      (
                        taken,
                        snd,
                        advanced session got taken n x c within
                            (ap (take n) e''
                              ∙ take-append b (drop (0 + length b) buf) (omega arith)
                              ∙ e'
                              ∙ ap (drop c.rx_start) e)
                            t,
                      )))))
        (λ e. unread session wrote got buf (failure c) (
          failure_kept link clock capacity (Linked session wrote got)
            (Linked-IsKept link clock capacity session wrote got) c (taken, snd, t)))
    where
      n : ℕ
      n = min (length buf) (c.rx_end - c.rx_start)

  finished :
      (session : ℕ) (wrote : List Bytes) (got : Bytes) (cx : Waker) (buf : Bytes)
      (c : Reliable T C E) (poll : Poll (Result ℕ (ConnectionError E)))
      → ReadFrom session wrote got (buf, c, poll)
      → ReadFrom session wrote got (buf, (finish op_read cx c poll).0, (finish op_read cx c poll).1)
  unfolding finish
  finished session wrote got cx buf c pending l =
      let p : Poll (Result ℕ (ConnectionError E)) = pending in
      finish_kept link clock capacity (Linked session wrote got)
        (Linked-IsKept link clock capacity session wrote got) op_read cx c p l
  finished session wrote got cx buf c (ready r) l =
      finish_kept link clock capacity _
        (Linked-IsKept link clock capacity session wrote (after_read got buf (ready r))) op_read cx
        c (ready r) l

  pub poll_read-Linked :
      KeepsLength link
      → (session : ℕ) (wrote : List Bytes) (got : Bytes) (cx : Waker) (buf : Bytes)
        (c : Reliable T C E)
      → IsValid capacity c
      → Linked session wrote got c
      → Ensures (ReadFrom session wrote got) (poll_read link clock capacity cx buf c)
  unfolding poll_read
  poll_read-Linked keeps session wrote got cx [] c v l =
      subst (λ g. Linked session wrote g c) (sym (append-nil got)) l
  poll_read-Linked keeps session wrote got cx (b ∷ buf) c v l =
      let P : Reliable T C E → Type 0 = Linked session wrote got in
      let Both : ℕ × Reliable T C E × Work → Type 0 =
        λ r. Driven link clock capacity step_budget r × P r.1 in
      bind-Ensures Both (ReadFrom session wrote got) (drive link clock capacity cx step_budget c) _
        (Ensures-Holds Both (drive link clock capacity cx step_budget c) (
          both-Holds (Driven link clock capacity step_budget) (λ r. P r.1) _
            (drive-Driven link clock capacity keeps cx step_budget c v)
            (drive_kept link clock capacity P (Linked-IsKept link clock capacity session wrote got)
              cx step_budget c l)))
        (λ d h.
          bind-Ensures (ReadFrom session wrote got) (ReadFrom session wrote got)
            (read_payload link clock capacity (b ∷ buf) d.1) _
            (read_payload-Linked session wrote got (b ∷ buf) d.1 h.0.0 h.1)
            (λ r l'. finished session wrote got cx r.0 r.1 r.2 l'))
