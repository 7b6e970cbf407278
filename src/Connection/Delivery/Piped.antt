-- ===== src/Connection/Delivery/Piped.antt =====
-- Two connections over a pipe: the bytes that the one link gives begin those that the other accepted.
use cobs_io_async_rs.Connection.Api.{poll_flush}
use cobs_io_async_rs.Connection.Delivery.Exact.{delivered, flushed_delivered}
use cobs_io_async_rs.Connection.Delivery.{Channel, unread}
use cobs_io_async_rs.Connection.History.Life.{Life, flushes, Life-Linked}
use cobs_io_async_rs.Connection.History.{Genuine, of_data, of_ack}
use cobs_io_async_rs.Connection.State.{Config, Reliable}
use cobs_io_async_rs.Connection.Stream.Framed.{Framed, prefix-contents}
use cobs_io_async_rs.Connection.Stream.Received.{Life-Shown, seen-contents}
use cobs_io_async_rs.Connection.Stream.Sent.{Life-IsSent}
use cobs_io_async_rs.Connection.Stream.{Logged, logged, logged-KeepsLength, unsent}
use cobs_io_async_rs.Prelude.Exec.{ret}
use cobs_io_async_rs.Prelude.{
  ℕ, ◌^◌, ◌<◌, ◌≡◌, refl, sym, ap, ◌∙◌, subst, inl, inr, [], ◌∷◌, ◌++◌, append_assoc, List, Bytes,
  ok, All, All-Has, Has, concat, arith,
}
use cobs_io_async_rs.Protocol.Packet.Wire.{packet_bytes}
use cobs_io_async_rs.Protocol.Packet.{data_packet, ack_packet}
use cobs_io_async_rs.Transport.{Waker, ready, Transport, Timer, KeepsLength}

-- Nothing has gone over the link yet.
abbrev pub IsUnused : {T : Type 0} → Logged T → Type 0
IsUnused start = (start.sent ≡ []) × (start.received ≡ [])

Has-All : (P : Bytes → Type 0) (xs : List Bytes) → ((x : Bytes) → Has x xs → P x) → All P xs
Has-All P [] h = tt
Has-All P (x ∷ xs) h = (h x (inl refl), Has-All P xs (λ y k. h y (inr k)))

Genuine-Framed :
    (session : ℕ) (wrote : List Bytes) (taken : ℕ) (sent : List Bytes) (frame : Bytes)
    → Has frame sent
    → Genuine session wrote taken frame
    → Framed sent frame
Genuine-Framed session wrote taken sent frame h (of_data seq payload at valid e) =
    (packet_bytes (data_packet session seq payload), e, h)
Genuine-Framed session wrote taken sent frame h (of_ack seq lt e) =
    (packet_bytes (ack_packet session seq), e, h)

module _ {Ta Ca Ea Tb Cb Eb : Type 0} (link_a : Transport Ta Ea) (clock_a : Timer Ca)
    (capacity_a : ℕ) (config_a : Config) (link_b : Transport Tb Eb) (clock_b : Timer Cb)
    (capacity_b : ℕ) (config_b : Config) where
  -- What `b` was given, and what is on its way from `a`.
  piped-Channel :
      {start_a : Logged Ta} {start_b : Logged Tb} {wrote_a wrote_b : List Bytes}
      {got_a got_b : Bytes} {a : Reliable (Logged Ta) Ca Ea} {b : Reliable (Logged Tb) Cb Eb}
      (on_way : Bytes)
      → KeepsLength link_a
      → KeepsLength link_b
      → capacity_a < 2 ^ 62
      → config_a.session < 2 ^ 64
      → IsUnused start_a
      → IsUnused start_b
      → Life (logged link_a) clock_a capacity_a config_a start_a wrote_a got_a a
      → Life (logged link_b) clock_b capacity_b config_b start_b wrote_b got_b b
      → b.transport.received ++ on_way ≡ a.transport.sent
      → Channel a.begun b.seen
  piped-Channel {wrote_a = wrote_a} {a = a} {b = b} on_way ka kb ca sa ea eb life_a life_b e bytes p
        h parsed =
      let (va, (taken, s, t)) =
        Life-Linked (logged link_a) clock_a capacity_a config_a (logged-KeepsLength link_a ka) ca sa
          life_a in
      let v = Life-Shown link_b clock_b capacity_b config_b kb eb.1 life_b in
      prefix-contents capacity_b a.begun b.transport.received (on_way ++ unsent a) bytes
        (omega (arith, v.short))
        (Has-All (Framed a.begun) a.begun (λ frame k.
          Genuine-Framed config_a.session wrote_a a.rx_next a.begun frame k
            (All-Has _ frame a.begun s.genuine k)))
        (sym (append_assoc b.transport.received on_way (unsent a))
          ∙ ap (λ r. r ++ unsent a) e
          ∙ Life-IsSent link_a clock_a capacity_a config_a life_a
          ∙ ap (λ r. r ++ concat a.begun) ea.0)
        (subst (Has bytes) (seen-contents link_b clock_b capacity_b config_b kb eb.1 life_b) h)

  -- Two connections that were created and used in any way, over links that keep the length of the
  -- buffers that they are given, with capacities below 2 ^ 62 and sessions below 2 ^ 64. The links were not used before. If the bytes
  -- that the link of `b` has given, in pieces of any lengths, begin those that the link of `a` has
  -- accepted, then what the user of `b` has read, and what it still can read, begins what the user of
  -- `a` wrote.
  pub piped_delivered :
      {start_a : Logged Ta} {start_b : Logged Tb} {wrote_a wrote_b : List Bytes}
      {got_a got_b : Bytes} {a : Reliable (Logged Ta) Ca Ea} {b : Reliable (Logged Tb) Cb Eb}
      (on_way : Bytes)
      → KeepsLength link_a
      → KeepsLength link_b
      → capacity_a < 2 ^ 62
      → capacity_b < 2 ^ 62
      → config_a.session < 2 ^ 64
      → config_b.session < 2 ^ 64
      → IsUnused start_a
      → IsUnused start_b
      → Life (logged link_a) clock_a capacity_a config_a start_a wrote_a got_a a
      → Life (logged link_b) clock_b capacity_b config_b start_b wrote_b got_b b
      → b.transport.received ++ on_way ≡ a.transport.sent
      → (rest : Bytes) × (concat wrote_a ≡ (got_b ++ unread b) ++ rest)
  piped_delivered on_way ka kb ca cb sa sb ea eb life_a life_b e =
      delivered (logged link_a) clock_a capacity_a config_a (logged link_b) clock_b capacity_b
        config_b (logged-KeepsLength link_a ka) (logged-KeepsLength link_b kb) ca cb sa sb life_a
        life_b (piped-Channel on_way ka kb ca sa ea eb life_a life_b e)

module _ {Ta Ca Ea Tb Cb Eb : Type 0} (link_a : Transport Ta Ea) (clock_a : Timer Ca)
    (capacity_a : ℕ) (config_a : Config) (link_b : Transport Tb Eb) (clock_b : Timer Cb)
    (capacity_b : ℕ) (config_b : Config) where
  -- Two connections that were created and used in any way, over links that keep the length of the
  -- buffers that they are given, with capacities below 2 ^ 62 and sessions below 2 ^ 64. The links were not used before. If the bytes
  -- that each link has given, in pieces of any lengths, begin those that the other has accepted, and
  -- `poll_flush` of `a` has succeeded, then what the user of `b` has read, and what it still can read,
  -- is all that the user of `a` wrote.
  pub piped_flushed :
      {start_a : Logged Ta} {start_b : Logged Tb} {wrote_a wrote_b : List Bytes}
      {got_a got_b : Bytes} {a a' : Reliable (Logged Ta) Ca Ea} {b : Reliable (Logged Tb) Cb Eb}
      (cx : Waker) (on_way on_way_back : Bytes)
      → KeepsLength link_a
      → KeepsLength link_b
      → capacity_a < 2 ^ 62
      → capacity_b < 2 ^ 62
      → config_a.session < 2 ^ 64
      → config_b.session < 2 ^ 64
      → IsUnused start_a
      → IsUnused start_b
      → Life (logged link_a) clock_a capacity_a config_a start_a wrote_a got_a a
      → poll_flush (logged link_a) clock_a capacity_a cx a ≡ ret (a', ready (ok tt))
      → Life (logged link_b) clock_b capacity_b config_b start_b wrote_b got_b b
      → b.transport.received ++ on_way ≡ a'.transport.sent
      → a'.transport.received ++ on_way_back ≡ b.transport.sent
      → got_b ++ unread b ≡ concat wrote_a
  piped_flushed cx on_way on_way_back ka kb ca cb sa sb fresh_a fresh_b life_a done life_b there
        back =
      let life_a' = flushes cx life_a done in
      flushed_delivered (logged link_a) clock_a capacity_a config_a (logged link_b) clock_b
        capacity_b config_b cx (logged-KeepsLength link_a ka) (logged-KeepsLength link_b kb) ca cb
        sa sb life_a done life_b
        (piped-Channel link_a clock_a capacity_a config_a link_b clock_b capacity_b config_b on_way
          ka kb ca sa fresh_a fresh_b life_a' life_b there)
        (piped-Channel link_b clock_b capacity_b config_b link_a clock_a capacity_a config_a
          on_way_back kb ka cb sb fresh_b fresh_a life_b life_a' back)
