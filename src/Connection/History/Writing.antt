-- ===== src/Connection/History/Writing.antt =====
-- `poll_write` against the past.
use cobs_io_async_rs.Connection.Api.{write_ready, check_sequence, accept}
use cobs_io_async_rs.Connection.Drive.{fail, failure, report, drive}
use cobs_io_async_rs.Connection.History.Output.{take-framed, Linked-IsKept}
use cobs_io_async_rs.Connection.History.Spare.{accepted-Spare}
use cobs_io_async_rs.Connection.History.{frame_of, Genuine, of_data, of_ack, Sends, Linked}
use cobs_io_async_rs.Connection.Kept.Driver.{drive_kept}
use cobs_io_async_rs.Connection.State.{
  Work, blocked, progress, yield, queued, Health, health_ok, health_failed, reported, Reliable,
  is_ok,
}
use cobs_io_async_rs.Connection.Valid.{IsValid}
use cobs_io_async_rs.Error.{ConnectionError, sequence_exhausted}
use cobs_io_async_rs.Prelude.Exec.Ensures.{Ensures, bind-Ensures, slice_to-Ensures}
use cobs_io_async_rs.Prelude.Exec.{ret, ◌>>=◌, slice_to}
use cobs_io_async_rs.Prelude.{
  ℕ, zero, suc, ◌+◌, ◌-◌, ◌%◌, ◌^◌, ◌<◌, ◌≤◌, ◌≡◌, refl, sym, ap, ◌∙◌, subst, min, true, false, ltb,
  [], ◌∷◌, ◌++◌, List, Bytes, none, Result, ok, err, All-mono, length, length-append, length-take,
  get_elem?-append, get_elem?_last, take, if◌then◌else◌, arith, Bool-cases, inl, inr,
}
use cobs_io_async_rs.Protocol.Packet.Encoded.{encode_data_lem}
use cobs_io_async_rs.Protocol.Packet.Wire.{packet_bytes}
use cobs_io_async_rs.Protocol.Packet.{data_packet, encode_data}
use cobs_io_async_rs.Protocol.Payload.{max_payload}
use cobs_io_async_rs.Transport.{Waker, Poll, ready, pending, Transport, Timer}

-- The payloads written, after a `poll_write` of `buf` that returned `poll`.
abbrev pub after_write : {E : Type 0} → List Bytes → Bytes → Poll (Result ℕ E) → List Bytes
after_write wrote buf pending = wrote
after_write wrote buf (ready (err e)) = wrote
after_write wrote buf (ready (ok zero)) = wrote
after_write wrote buf (ready (ok (suc n))) = wrote ++ take (suc n) buf ∷ []

abbrev Framed : ℕ → ℕ → Bytes → Bytes × Bytes × ℕ → Type 0
Framed session seq payload (scratch, frame, n) =
    take n frame ≡ frame_of (packet_bytes (data_packet session seq payload))

encode_data-Framed :
    (capacity session seq : ℕ) (payload scratch frame : Bytes)
    → capacity < 2 ^ 62
    → length scratch ≡ capacity
    → length frame ≡ capacity
    → 0 < length payload
    → length payload ≤ max_payload capacity
    → Ensures (Framed session seq payload) (encode_data session seq payload scratch frame)
encode_data-Framed capacity session seq payload scratch frame small hs hf pos fits =
    let bound : length payload ≤ max_payload (length frame) =
      subst (λ k. length payload ≤ max_payload k) (sym hf) fits in
    let (same, room) =
      encode_data_lem session seq payload scratch frame (omega arith) (omega arith) pos bound in
    subst (Ensures (Framed session seq payload)) (sym same)
      (take-framed (packet_bytes (data_packet session seq payload)) frame)

Genuine-append :
    (session : ℕ) (wrote more : List Bytes) (n : ℕ) (frame : Bytes)
    → Genuine session wrote n frame
    → Genuine session (wrote ++ more) n frame
Genuine-append session wrote more n frame (of_data seq payload at valid e) =
    of_data seq payload (get_elem?-append wrote more seq at) valid e
Genuine-append session wrote more n frame (of_ack seq h e) = of_ack seq h e

report-none :
    {T C E : Type 0} (h : Health E) (c : Reliable T C E) → (report h c).1 ≡ none → is_ok h ≡ true
unfolding report
report-none health_ok c e = refl
report-none (health_failed x) c e = absurd (cc e)
report-none reported c e = absurd (cc e)

report-tx_next :
    {T C E : Type 0} (h : Health E) (c : Reliable T C E) → (report h c).0.tx_next ≡ c.tx_next
unfolding report
report-tx_next health_ok c = refl
report-tx_next (health_failed x) c = refl
report-tx_next reported c = refl

unhealthy :
    {E : Type 0} (h : Health E) (e : ConnectionError E)
    → is_ok (if is_ok h then health_failed e else h) ≡ false
unhealthy health_ok e = refl
unhealthy (health_failed x) e = refl
unhealthy reported e = refl

failure-tx_next : {T C E : Type 0} (c : Reliable T C E) → (failure c).0.tx_next ≡ c.tx_next
unfolding failure
failure-tx_next c = report-tx_next c.health c

failed_told :
    {T C E : Type 0} (c : Reliable T C E) → (failure (fail sequence_exhausted c)).1 ≡ none → ⊥
unfolding failure fail
failed_told c h = let a = report-none _ _ h in let b = unhealthy c.health sequence_exhausted in cc

module _ {T C E : Type 0} (link : Transport T E) (clock : Timer C) (capacity : ℕ) where
  check_sequence_ok :
      (c : Reliable T C E)
      → write_ready c ≡ true
      → ltb (2 ^ 32 - 1) c.tx_next ≡ false
      → check_sequence link clock capacity c ≡ c
  unfolding check_sequence
  check_sequence_ok c w small = rw (w, small) refl

  check_sequence_big :
      (c : Reliable T C E)
      → write_ready c ≡ true
      → ltb (2 ^ 32 - 1) c.tx_next ≡ true
      → check_sequence link clock capacity c ≡ fail sequence_exhausted c
  unfolding check_sequence
  check_sequence_big c w big = rw (w, big) refl

  -- A write that gets past the failures has a sequence number left.
  pub sequence_lt :
      (c : Reliable T C E)
      → write_ready c ≡ true
      → (failure (check_sequence link clock capacity c)).1 ≡ none
      → (failure (check_sequence link clock capacity c)).0.tx_next < 2 ^ 32
  sequence_lt c w h = elim (Bool-cases (ltb (2 ^ 32 - 1) c.tx_next)) [
    | inl big ↦
        let told : (failure (fail sequence_exhausted c)).1 ≡ none =
          ap (λ x. (failure x).1) (sym (check_sequence_big c w big)) ∙ h in
        absurd (failed_told c told)
    | inr small ↦
        subst (λ x. (failure x).0.tx_next < 2 ^ 32) (sym (check_sequence_ok c w small))
          (subst (λ n. n < 2 ^ 32) (sym (failure-tx_next c)) (ground arith))
  ]

  abbrev pub Accepted : ℕ → List Bytes → Bytes → Bytes → Reliable T C E × ℕ → Type 0
  Accepted session wrote got buf (c, len) =
      (0 < len) × Linked session (wrote ++ take len buf ∷ []) got c

  abbrev taken_len : Bytes → ℕ
  taken_len buf = min (length buf) (max_payload capacity)

  queued-Linked :
      (session : ℕ) (wrote : List Bytes) (got buf : Bytes) (cx : Waker) (budget : ℕ) (work : Work)
      (c : Reliable T C E)
      → 0 < taken_len buf
      → Linked session (wrote ++ take (taken_len buf) buf ∷ []) got c
      → Ensures (Accepted session wrote got buf) (elim work [
        | yield ↦ ret (c, taken_len buf)
        | _ ↦ (do (budget, c, work) ← drive link clock capacity cx budget c; ret (c, taken_len buf))
      ])
  queued-Linked session wrote got buf cx budget work c pos l = by_work work
    where
      P : Reliable T C E → Type 0
      P = Linked session (wrote ++ take (taken_len buf) buf ∷ []) got

      driven :
          Ensures
            (Accepted session wrote got buf)
            (do (budget, c, work) ← drive link clock capacity cx budget c; ret (c, taken_len buf))
      driven =
          bind-Ensures (λ r. P r.1) (Accepted session wrote got buf)
            (drive link clock capacity cx budget c) _
            (drive_kept link clock capacity P
              (Linked-IsKept link clock capacity session (wrote ++ take (taken_len buf) buf ∷ [])
                got)
              cx budget c l)
            (λ r l'. (pos, l'))

      by_work :
          (work : Work)
          → Ensures (Accepted session wrote got buf) (elim work [
            | yield ↦ ret (c, taken_len buf)
            | _ ↦ (do
              (budget, c, work) ← drive link clock capacity cx budget c
              ret (c, taken_len buf))
          ])
      by_work yield = (pos, l)
      by_work blocked = driven
      by_work progress = driven

  -- The sending side once a packet is accepted.
  loaded :
      (session : ℕ) (wrote : List Bytes) (c : Reliable T C E) (payload frame : Bytes) (n : ℕ)
      → 0 < length payload
      → c.tx_next < 2 ^ 32
      → take n frame
        ≡ frame_of (packet_bytes (data_packet c.config.session (c.tx_next % 2 ^ 32) payload))
      → Sends session wrote c
      → Sends session (wrote ++ payload ∷ []) (record c {
        tx_frame = frame;
        tx_len = n;
        tx_next = c.tx_next + 1;
        tx_retries = 0;
        tx = queued;
      })
  loaded session wrote c payload frame n pos small e s = record {
    same_session = s.same_session;
    session_lt = s.session_lt;
    count = omega (arith, length-append wrote (payload ∷ []), s.count);
    outstanding = (
      payload,
      omega arith,
      get_elem?_last wrote payload (c.tx_next + 1 - 1) (omega (arith, s.count)),
      (s.session_lt, omega arith, pos),
      e
          ∙ ap (λ x. frame_of (packet_bytes (data_packet x (c.tx_next % 2 ^ 32) payload)))
              s.same_session
          ∙ ap (λ k. frame_of (packet_bytes (data_packet session k payload))) (omega arith),
    );
    acked = tt;
    owes = s.owes;
    genuine =
        All-mono (Genuine session wrote c.rx_next)
          (Genuine session (wrote ++ payload ∷ []) c.rx_next) c.begun
          (λ x g. Genuine-append session wrote (payload ∷ []) c.rx_next x g) s.genuine;
    spare = accepted-Spare session c.config.max_retries c.tx_next c.begun c.tx c.tx_retries s.spare;
    ack_room = s.ack_room;
  }

  pub accept-Linked :
      (session : ℕ) (wrote : List Bytes) (got : Bytes) (cx : Waker) (budget : ℕ) (work : Work)
      (buf : Bytes) (c : Reliable T C E)
      → capacity < 2 ^ 62
      → 0 < length buf
      → c.tx_next < 2 ^ 32
      → IsValid capacity c
      → Linked session wrote got c
      → Ensures (Accepted session wrote got buf) (accept link clock capacity cx budget work buf c)
  unfolding accept
  accept-Linked session wrote got cx budget work buf c cap pos small ((sv, rv, lv), room)
        (taken, s, t) =
      bind-Ensures (λ p. p ≡ take (taken_len buf) buf) (Accepted session wrote got buf)
        (slice_to buf (taken_len buf)) _ (slice_to-Ensures buf (taken_len buf))
        (λ p e.
          let len : length p ≡ taken_len buf =
            omega (arith, ap length e, length-take (taken_len buf) buf) in
          bind-Ensures (Framed c.config.session (c.tx_next % 2 ^ 32) p)
            (Accepted session wrote got buf)
            (encode_data c.config.session (c.tx_next % 2 ^ 32) p c.scratch c.tx_frame) _
            (encode_data-Framed capacity c.config.session (c.tx_next % 2 ^ 32) p c.scratch
              c.tx_frame cap lv sv.tx_frame_length (omega (arith, rv.payload_fits)) (omega arith))
            (λ w h.
              queued-Linked session wrote got buf cx budget work _ (omega (arith, rv.payload_fits))
                (
                  taken,
                  subst
                      (λ q. Sends session (wrote ++ q ∷ []) (record c {
                        tx_frame = w.1;
                        tx_len = w.2;
                        tx_next = c.tx_next + 1;
                        tx_retries = 0;
                        tx = queued;
                      }))
                      e
                      (loaded session wrote c p w.1 w.2 (omega (arith, rv.payload_fits)) small h s),
                  t,
                )))
