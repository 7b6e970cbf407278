-- ===== src/Connection/Delivery/Exact.antt =====
-- The bytes that go from one user to the other.
use cobs_io_async_rs.Connection.Delivery.{Channel, unread}
use cobs_io_async_rs.Connection.Delivery.Frames.{agrees, acknowledged}
use cobs_io_async_rs.Connection.Delivery.Flushed.{Drained, poll_flush-Drained}
use cobs_io_async_rs.Connection.Api.{poll_flush}
use cobs_io_async_rs.Connection.History.Life.{Life, flushes, Life-Linked}
use cobs_io_async_rs.Connection.History.{Received, Acked}
use cobs_io_async_rs.Connection.State.{Config, Tx, idle, Reliable}
use cobs_io_async_rs.Prelude.Exec.Ensures.{Ensures-ret}
use cobs_io_async_rs.Prelude.Exec.{ret}
use cobs_io_async_rs.Prelude.{
  ℕ, ◌-◌, ◌^◌, ◌<◌, ◌≡◌, sym, ap, ◌∙◌, subst, ◌++◌, List, Bytes, dec_lt, get_elem?-le, ok, concat,
  concat_prefix, concat_whole, arith,
}
use cobs_io_async_rs.Protocol.Packet.{ack_packet}
use cobs_io_async_rs.Transport.{Waker, ready, Transport, Timer, KeepsLength}

idle-Acked :
    (session : ℕ) (tx : Tx) (tx_next : ℕ) (seen : List Bytes)
    → tx ≡ idle
    → Acked session tx tx_next seen
    → 0 < tx_next
    → Received seen (ack_packet session (tx_next - 1))
idle-Acked session tx tx_next seen e a = subst (λ x. Acked session x tx_next seen) e a

module _ {Ta Ca Ea Tb Cb Eb : Type 0} (link_a : Transport Ta Ea) (clock_a : Timer Ca)
    (capacity_a : ℕ) (config_a : Config) (link_b : Transport Tb Eb) (clock_b : Timer Cb)
    (capacity_b : ℕ) (config_b : Config) where
  -- Two connections that were created and used in any way, over links that keep the length of the
  -- buffers that they are given, with capacities below 2 ^ 62 and sessions below 2 ^ 64. If every
  -- frame that `b` decoded and that passed the checksum is one that `a` began to send, then what the
  -- user of `b` has read, and what it still can read, begins what the user of `a` wrote: nothing is
  -- lost in between, comes twice or in another order.
  pub delivered :
      {start_a : Ta} {start_b : Tb} {wrote_a wrote_b : List Bytes} {got_a got_b : Bytes}
      {a : Reliable Ta Ca Ea} {b : Reliable Tb Cb Eb}
      → KeepsLength link_a
      → KeepsLength link_b
      → capacity_a < 2 ^ 62
      → capacity_b < 2 ^ 62
      → config_a.session < 2 ^ 64
      → config_b.session < 2 ^ 64
      → Life link_a clock_a capacity_a config_a start_a wrote_a got_a a
      → Life link_b clock_b capacity_b config_b start_b wrote_b got_b b
      → Channel a.begun b.seen
      → (rest : Bytes) × (concat wrote_a ≡ (got_b ++ unread b) ++ rest)
  delivered {wrote_a = wrote_a} {a = a} {b = b} ka kb ca cb sa sb life_a life_b ch =
      let (va, (taken_a, s, t)) = Life-Linked link_a clock_a capacity_a config_a ka ca sa life_a in
      let (vb, (taken, s', t')) = Life-Linked link_b clock_b capacity_b config_b kb cb sb life_b in
      let (rest, e) = concat_prefix taken wrote_a (
        agrees config_a.session wrote_a a.rx_next a.begun b.seen taken config_b.session sa s.genuine
          ch t'.received) in
      (rest, e ∙ ap (λ r. r ++ rest) (sym t'.bytes))

  -- Two connections that were created and used in any way, over links that keep the length of the
  -- buffers that they are given, with capacities below 2 ^ 62 and sessions below 2 ^ 64. If every
  -- frame that either of them decoded and that passed the checksum is one that the other began to
  -- send, and `poll_flush` of `a` has succeeded, then what the user of `b` has read, and what it still
  -- can read, is all that the user of `a` wrote.
  pub flushed_delivered :
      {start_a : Ta} {start_b : Tb} {wrote_a wrote_b : List Bytes} {got_a got_b : Bytes}
      {a a' : Reliable Ta Ca Ea} {b : Reliable Tb Cb Eb} (cx : Waker)
      → KeepsLength link_a
      → KeepsLength link_b
      → capacity_a < 2 ^ 62
      → capacity_b < 2 ^ 62
      → config_a.session < 2 ^ 64
      → config_b.session < 2 ^ 64
      → Life link_a clock_a capacity_a config_a start_a wrote_a got_a a
      → poll_flush link_a clock_a capacity_a cx a ≡ ret (a', ready (ok tt))
      → Life link_b clock_b capacity_b config_b start_b wrote_b got_b b
      → Channel a'.begun b.seen
      → Channel b.begun a'.seen
      → got_b ++ unread b ≡ concat wrote_a
  flushed_delivered {wrote_a = wrote_a} {wrote_b = wrote_b} {a = a} {a' = a'} {b = b} cx ka kb ca cb
        sa sb life_a done life_b ch back =
      let (va, (taken_a, s, t)) =
        Life-Linked link_a clock_a capacity_a config_a ka ca sa (flushes cx life_a done) in
      let (vb, (taken, s', t')) = Life-Linked link_b clock_b capacity_b config_b kb cb sb life_b in
      let drained : a'.tx ≡ idle =
        Ensures-ret (Drained link_a clock_a capacity_a) (poll_flush link_a clock_a capacity_a cx a)
          (poll_flush-Drained link_a clock_a capacity_a cx a) done in
      let same =
        agrees config_a.session wrote_a a'.rx_next a'.begun b.seen taken config_b.session sa
          s.genuine ch t'.received in
      let heard : 0 < a'.tx_next → a'.tx_next - 1 < b.rx_next = λ pos.
        acknowledged config_b.session wrote_b b.rx_next b.begun a'.seen config_a.session
          (a'.tx_next - 1) sb s'.genuine back
          (idle-Acked config_a.session a'.tx a'.tx_next a'.seen drained s.acked pos) in
      t'.bytes
      ∙ sym (
          concat_whole taken wrote_a same (elim (dec_lt 0 a'.tx_next) [
            | yes some_left ↦
                omega (arith, heard some_left, get_elem?-le taken wrote_a same, s.count, t'.count)
            | no none_left ↦ omega (arith, get_elem?-le taken wrote_a same, s.count, t'.count)
          ]))
