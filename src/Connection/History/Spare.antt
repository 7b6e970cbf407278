-- ===== src/Connection/History/Spare.antt =====
-- How often a frame of DATA was begun, as the connection goes on.
use cobs_io_async_rs.Connection.History.Distinct.{data_seq, data_not_ack}
use cobs_io_async_rs.Connection.History.{frame_of, Times, Spare}
use cobs_io_async_rs.Connection.State.{Tx, idle, queued, sending, waiting}
use cobs_io_async_rs.Prelude.{
  ℕ, ◌+◌, ◌-◌, ◌≤◌, ◌<◌, ◌≡◌, refl, sym, ◌∙◌, subst, true, false, Bool-cases, inl, inr, [], ◌∷◌,
  ◌++◌, List, Bytes, same, same-eq, times, times_last, arith,
}
use cobs_io_async_rs.Protocol.Packet.Parsed.{IsPacket}
use cobs_io_async_rs.Protocol.Packet.Wire.{packet_bytes}
use cobs_io_async_rs.Protocol.Packet.{data_packet, ack_packet}

times_other :
    (x : Bytes) (ys : List Bytes) (y : Bytes)
    → same x y ≡ false
    → times x (ys ++ y ∷ []) ≡ times x ys
times_other x ys y e = times_last x ys y ∙ rw e (omega arith)

times_again :
    (x : Bytes) (ys : List Bytes) (y : Bytes)
    → same x y ≡ true
    → times x (ys ++ y ∷ []) ≡ times x ys + 1
times_again x ys y e = times_last x ys y ∙ rw e refl

module _ (session max_retries tx_next : ℕ) (begun : List Bytes) where
  -- The packet is acknowledged.
  pub done-Spare :
      (tx : Tx) (tx_retries : ℕ)
      → Spare session tx tx_next tx_retries max_retries begun
      → Spare session idle tx_next 0 max_retries begun
  done-Spare tx tx_retries s =
      (omega arith, λ seq payload v. let t = s.1 seq payload v in (t.0, t.1, λ e. tt))

  -- The frame has been flushed.
  pub flushed-Spare :
      (tx_retries : ℕ)
      → Spare session sending tx_next tx_retries max_retries begun
      → Spare session waiting tx_next tx_retries max_retries begun
  flushed-Spare tx_retries s = s

  -- The packet is to be sent again.
  pub again-Spare :
      (tx_retries : ℕ)
      → tx_retries < max_retries
      → Spare session waiting tx_next tx_retries max_retries begun
      → Spare session queued tx_next (tx_retries + 1) max_retries begun
  again-Spare tx_retries more s =
      (omega arith, λ seq payload v. let t = s.1 seq payload v in (t.0, t.1, λ e. t.2 e))

  -- Another packet is accepted.
  pub accepted-Spare :
      (tx : Tx) (tx_retries : ℕ)
      → Spare session tx tx_next tx_retries max_retries begun
      → Spare session queued (tx_next + 1) 0 max_retries begun
  accepted-Spare tx tx_retries s = (
    omega arith,
    λ seq payload v.
        let t = s.1 seq payload v in
        (t.0, λ h. t.1 (omega arith), λ e. let none = t.1 (omega arith) in omega arith),
  )

  -- An ACK is begun.
  pub ack-Spare :
      (tx : Tx) (tx_retries seq : ℕ) (frame : Bytes)
      → frame ≡ frame_of (packet_bytes (ack_packet session seq))
      → Spare session tx tx_next tx_retries max_retries begun
      → Spare session tx tx_next tx_retries max_retries (begun ++ frame ∷ [])
  ack-Spare tx tx_retries seq frame is_ack s = (
    s.0,
    λ n payload v.
        let f : Bytes = frame_of (packet_bytes (data_packet session n payload)) in
        elim (Bool-cases (same f frame)) [
          | inl equal ↦
              absurd (data_not_ack session n seq payload v (same-eq f frame equal ∙ is_ack))
          | inr differ ↦
              subst (Times n tx tx_next tx_retries max_retries)
                (sym (times_other f begun frame differ)) (s.1 n payload v)
        ],
  )

  -- The packet is begun.
  pub data-Spare :
      (tx_retries : ℕ) (payload frame : Bytes)
      → 0 < tx_next
      → IsPacket (data_packet session (tx_next - 1) payload)
      → frame ≡ frame_of (packet_bytes (data_packet session (tx_next - 1) payload))
      → Spare session queued tx_next tx_retries max_retries begun
      → Spare session sending tx_next tx_retries max_retries (begun ++ frame ∷ [])
  data-Spare tx_retries payload frame pos valid is_data s = (
    s.0,
    λ n other v.
        let f : Bytes = frame_of (packet_bytes (data_packet session n other)) in
        let t = s.1 n other v in
        elim (Bool-cases (same f frame)) [
          | inl equal ↦
              let at : n ≡ tx_next - 1 =
                data_seq session n (tx_next - 1) other payload v valid
                  (same-eq f frame equal ∙ is_data) in
              let due : times f begun ≤ tx_retries = t.2 (omega arith) in
              subst (Times n sending tx_next tx_retries max_retries)
                (sym (times_again f begun frame equal))
                (omega (arith, s.0), λ h. absurd (omega arith), λ e. omega arith)
          | inr differ ↦
              subst (Times n sending tx_next tx_retries max_retries)
                (sym (times_other f begun frame differ))
                (t.0, t.1, λ e. let due = t.2 e in omega arith)
        ],
  )
