-- ===== src/Connection/History/Frames.antt =====
-- The handling of a received frame against the past.
use cobs_io_async_rs.Connection.History.{
  Genuine, of_data, of_ack, Acked, Received, Sends, Takes, Linked,
}
use cobs_io_async_rs.Connection.History.Spare.{done-Spare}
use cobs_io_async_rs.Connection.Input.{on_ack, on_data, on_packet}
use cobs_io_async_rs.Connection.State.{
  Tx, idle, queued, sending, waiting, Reliable, is_idle, is_none,
}
use cobs_io_async_rs.Prelude.Exec.Ensures.{Ensures, bind-Ensures, copy_at-Ensures}
use cobs_io_async_rs.Prelude.Exec.Holds.{if-Holds}
use cobs_io_async_rs.Prelude.Exec.{copy_at}
use cobs_io_async_rs.Prelude.{
  ℕ, ◌+◌, ◌-◌, ◌≤◌, ◌≡◌, refl, sym, ap, ◌∙◌, inl, inr, Bool, true, false, not, ◌&&◌, ◌||◌, ltb,
  ◌==◌, ==_iff, ◌↔◌, zero, suc, [], ◌∷◌, ◌++◌, append-nil, List, Bytes, Option, none, some,
  All-mono, Has-append, Has-last, length, length-append, get_elem?-append_inv, concat_last, take,
  drop, take-append, arith,
}
use cobs_io_async_rs.Protocol.Packet.{Packet, data_packet, ack_packet, parse}
use cobs_io_async_rs.Protocol.Payload.{max_payload}

Received-append :
    (seen more : List Bytes) (p : Packet) → Received seen p → Received (seen ++ more) p
Received-append seen more p (bytes, h, e) = (bytes, Has-append bytes seen more h, e)

Acked-append :
    (session : ℕ) (tx : Tx) (tx_next : ℕ) (seen more : List Bytes)
    → Acked session tx tx_next seen
    → Acked session tx tx_next (seen ++ more)
Acked-append session idle tx_next seen more h = λ pos. Received-append seen more _ (h pos)
Acked-append session queued tx_next seen more h = tt
Acked-append session sending tx_next seen more h = tt
Acked-append session waiting tx_next seen more h = tt

Genuine-mono :
    (session : ℕ) (wrote : List Bytes) (m n : ℕ) (frame : Bytes)
    → m ≤ n
    → Genuine session wrote m frame
    → Genuine session wrote n frame
Genuine-mono session wrote m n frame h (of_data seq payload a b e) = of_data seq payload a b e
Genuine-mono session wrote m n frame h (of_ack seq a e) = of_ack seq (omega arith) e

is_session :
    {a b : ℕ} (same long : Bool) → (not same || long) ≡ false → (same ≡ true) ↔ (a ≡ b) → a ≡ b
is_session true long h i = i.0 refl
is_session false long h i = absurd (ground arith)

before : (seq n : ℕ) (i : Bool) → (ltb 0 n && (seq == n - 1 && i)) ≡ true → seq + 1 ≡ n
before seq n i h = ground arith

drop-take_self : (n : ℕ) (xs : Bytes) → drop n (take n xs) ≡ []
drop-take_self zero xs = refl
drop-take_self (suc n) [] = refl
drop-take_self (suc n) (x ∷ xs) = drop-take_self n xs

module _ {T C E : Type 0} (session : ℕ) (wrote : List Bytes) (got : Bytes) where
  -- Another frame has been received.
  noted :
      (bytes : Bytes) (c : Reliable T C E)
      → Linked session wrote got c
      → Linked session wrote got (record c { seen = c.seen ++ bytes ∷ [] })
  noted bytes c (taken, s, t) = (
    taken,
    record {
      same_session = s.same_session;
      session_lt = s.session_lt;
      count = s.count;
      outstanding = s.outstanding;
      acked = Acked-append session c.tx c.tx_next c.seen (bytes ∷ []) s.acked;
      owes = s.owes;
      genuine = s.genuine;
      spare = s.spare;
      ack_room = s.ack_room;
    },
    record {
      count = t.count;
      received = λ seq payload e. Received-append c.seen (bytes ∷ []) _ (t.received seq payload e);
      bytes = t.bytes;
      start_le = t.start_le;
    },
  )

  owed :
      (seq : ℕ) (c : Reliable T C E)
      → seq + 1 ≡ c.rx_next
      → Sends session wrote c
      → Sends session wrote (record c { ack_pending = some seq })
  owed seq c h s = record {
    same_session = s.same_session;
    session_lt = s.session_lt;
    count = s.count;
    outstanding = s.outstanding;
    acked = s.acked;
    owes = h;
    genuine = s.genuine;
    spare = s.spare;
    ack_room = s.ack_room;
  }

  -- The sending side where a payload is taken.
  retaken :
      (seq : ℕ) (c : Reliable T C E)
      → seq ≡ c.rx_next
      → Sends session wrote c
      → Sends session wrote (record c { rx_next = c.rx_next + 1; ack_pending = some seq })
  retaken seq c h s = record {
    same_session = s.same_session;
    session_lt = s.session_lt;
    count = s.count;
    outstanding = s.outstanding;
    acked = s.acked;
    owes = omega arith;
    genuine =
        All-mono (Genuine session wrote c.rx_next) (Genuine session wrote (c.rx_next + 1)) c.begun
          (λ x g. Genuine-mono session wrote c.rx_next (c.rx_next + 1) x (omega arith) g) s.genuine;
    spare = s.spare;
    ack_room = s.ack_room;
  }

  -- The receiving side where a payload is taken.
  given :
      (peer seq : ℕ) (payload : Bytes) (c : Reliable T C E) (taken : List Bytes) (b rest : Bytes)
      → peer ≡ session
      → seq ≡ c.rx_next
      → c.rx_start ≡ c.rx_end
      → b ≡ payload ++ rest
      → Received c.seen (data_packet peer seq payload)
      → Takes session got taken c
      → Takes session got (taken ++ payload ∷ []) (record c {
        rx_payload = b;
        rx_start = 0;
        rx_end = length payload;
        rx_next = c.rx_next + 1;
      })
  given peer seq payload c taken b rest ours next empty e (bytes, h, found) t = record {
    count = omega (arith, length-append taken (payload ∷ []), t.count);
    received = λ i x at. elim (get_elem?-append_inv taken payload x i at) [
      | inl old ↦ t.received i x old
      | inr (last, same) ↦ (
        bytes,
        h,
        found
            ∙ ap (λ p. some (data_packet p seq payload)) ours
            ∙ ap (λ n. some (data_packet session n payload)) (omega (arith, t.count))
            ∙ ap (λ y. some (data_packet session i y)) same,
      )
    ];
    bytes =
        ap (λ r. got ++ r) (ap (take (length payload)) e ∙ take-append payload rest refl)
        ∙ ap (λ r. r ++ payload)
            (sym (append-nil got)
              ∙ ap (λ r. got ++ r)
                  (sym (drop-take_self c.rx_start c.rx_payload)
                    ∙ ap (λ n. drop c.rx_start (take n c.rx_payload)) empty)
              ∙ t.bytes)
        ∙ sym (concat_last taken payload);
    start_le = omega arith;
  }

  module _ (capacity : ℕ) where
    on_ack-Linked :
        (peer seq : ℕ) (c : Reliable T C E)
        → Received c.seen (ack_packet peer seq)
        → Linked session wrote got c
        → Linked session wrote got (on_ack capacity peer seq c)
    unfolding on_ack
    on_ack-Linked peer seq c (bytes, h, e) (taken, s, t) =
        if-Holds (Linked session wrote got)
          (peer == c.config.session && (not (is_idle c.tx) && seq + 1 == c.tx_next))
          (λ ours.
            let (a, b) = matched peer c.config.session (is_idle c.tx) seq c.tx_next ours in
            (
              taken,
              record {
                same_session = s.same_session;
                session_lt = s.session_lt;
                count = s.count;
                outstanding = tt;
                acked = λ pos. (
                  bytes,
                  h,
                  e
                      ∙ ap (λ x. some (ack_packet x seq)) (a ∙ s.same_session)
                      ∙ ap (λ n. some (ack_packet session n)) (omega arith),
                );
                owes = s.owes;
                genuine = s.genuine;
                spare =
                    done-Spare session c.config.max_retries c.tx_next c.begun c.tx c.tx_retries
                      s.spare;
                ack_room = s.ack_room;
              },
              t,
            ))
          (λ x. (taken, s, t))
      where
        matched :
            (a b : ℕ) (i : Bool) (m n : ℕ)
            → (a == b && (not i && m + 1 == n)) ≡ true
            → (a ≡ b) × (m + 1 ≡ n)
        matched a b true m n h = ground arith
        matched a b false m n h = ground arith

    on_data-Linked :
        (peer seq : ℕ) (payload : Bytes) (c : Reliable T C E)
        → Received c.seen (data_packet peer seq payload)
        → Linked session wrote got c
        → Ensures (Linked session wrote got) (on_data capacity peer seq payload c)
    unfolding on_data
    on_data-Linked peer seq payload c from (taken, s, t) =
        if-Holds (Ensures L)
          (not (peer == c.config.session) || ltb (max_payload capacity) (length payload))
          (λ x. (taken, s, t))
          (λ fits.
            if-Holds (Ensures L) (seq == c.rx_next)
              (λ next.
                let ours : peer ≡ session =
                  is_session (peer == c.config.session)
                    (ltb (max_payload capacity) (length payload)) fits
                    (==_iff peer c.config.session)
                  ∙ s.same_session in
                if-Holds (Ensures L) (c.rx_start == c.rx_end)
                  (λ empty.
                    bind-Ensures
                      (λ b. b ≡ [] ++ (payload ++ drop (0 + length payload) c.rx_payload)) L
                      (copy_at c.rx_payload 0 payload) _ (copy_at-Ensures c.rx_payload 0 payload)
                      (λ b e. (
                        taken ++ payload ∷ [],
                        retaken seq c (ground arith) s,
                        given peer seq payload c taken b _ ours (ground arith) (ground arith) e from
                            t,
                      )))
                  (λ x. (taken, s, t)))
              (λ x.
                if-Holds (Ensures L)
                  (ltb 0 c.rx_next && (seq == c.rx_next - 1 && is_none c.ack_pending))
                  (λ again.
                    (taken, owed seq c (before seq c.rx_next (is_none c.ack_pending) again) s, t))
                  (λ x. (taken, s, t))))
      where
        L : Reliable T C E → Type 0
        L = Linked session wrote got

    pub on_packet-Linked :
        (bytes : Bytes) (p : Option Packet) (c : Reliable T C E)
        → parse bytes ≡ p
        → Linked session wrote got c
        → Ensures
            (Linked session wrote got)
            (on_packet capacity p (record c { seen = c.seen ++ bytes ∷ [] }))
    unfolding on_packet
    on_packet-Linked bytes none c e l = noted bytes c l
    on_packet-Linked bytes (some (ack_packet peer seq)) c e l =
        on_ack-Linked peer seq (record c { seen = c.seen ++ bytes ∷ [] })
          (bytes, Has-last bytes c.seen, e) (noted bytes c l)
    on_packet-Linked bytes (some (data_packet peer seq payload)) c e l =
        on_data-Linked peer seq payload (record c { seen = c.seen ++ bytes ∷ [] })
          (bytes, Has-last bytes c.seen, e) (noted bytes c l)
