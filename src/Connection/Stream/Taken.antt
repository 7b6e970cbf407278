-- ===== src/Connection/Stream/Taken.antt =====
-- `take_frame` against the frames of the stream.
use cobs_io_async_rs.Codec.Decode.Alike.{SameResult, decode_to_slice-Alike}
use cobs_io_async_rs.Codec.Decode.Bounds.{length-decode_to_slice}
use cobs_io_async_rs.Codec.Decode.{Decoded, decode_to_slice}
use cobs_io_async_rs.Connection.Input.{on_decoded, process_frame, take_frame}
use cobs_io_async_rs.Connection.Kept.Packets.{IsPacketKept, on_packet_kept}
use cobs_io_async_rs.Connection.State.{Reliable}
use cobs_io_async_rs.Connection.Stream.Assembly.{
  onward, assemble, payload_of, contents, contents_last,
}
use cobs_io_async_rs.Connection.Stream.Zeros.{Zeroless, feed-frame, feed-passed}
use cobs_io_async_rs.Connection.Stream.{Logged}
use cobs_io_async_rs.Prelude.Exec.Ensures.{Ensures, bind-Ensures, slice_to-Ensures}
use cobs_io_async_rs.Prelude.Exec.Holds.{if-Holds}
use cobs_io_async_rs.Prelude.Exec.{slice_to}
use cobs_io_async_rs.Prelude.{
  ℕ, ◌+◌, ◌<◌, ◌≡◌, refl, sym, ap, ◌∙◌, subst, Bool, true, false, [], ◌∷◌, ◌++◌, append-nil,
  append_assoc, List, Bytes, ok, err, length, length-take, length-append, length-replicate,
  replicate, take, drop, take-append, take-append-drop, drop-append, ltb, ◌==◌, if◌then◌else◌,
  arith,
}
use cobs_io_async_rs.Protocol.Packet.{parse}
use cobs_io_async_rs.Connection.Stream.Fed.{Fed, Held}

payload-SameResult :
    (x : Bytes) (r : Decoded) (reference : Bytes × Decoded)
    → SameResult (x, r) reference
    → payload_of (x, r) ≡ payload_of reference
payload-SameResult x (ok d) (y, q) (e, h) =
    subst (λ q. payload_of (x, ok d) ≡ payload_of (y, q)) e (ap (λ b. b ∷ []) h)
payload-SameResult x (err e) (y, q) h = subst (λ q. [] ≡ payload_of (y, q)) h refl

module _ {T C E : Type 0} (capacity : ℕ) where
  -- What is left behind the delimiter.
  abbrev pub Taken : ℕ → Reliable (Logged T) C E → Type 0
  Taken end_idx c = Fed capacity (drop (end_idx + 1) (take c.rx_len c.rx_buf)) c

  Taken-IsPacketKept : (end_idx : ℕ) → IsPacketKept (Taken end_idx)
  Taken-IsPacketKept end_idx = record {
    completed = λ c f. f;
    taken = λ c rx_payload rx_end seq f. f;
    owed = λ c seq f. f;
  }

  on_decoded-Taken :
      (end_idx : ℕ) (r : Decoded) (c : Reliable (Logged T) C E)
      → Taken end_idx (record c { seen = c.seen ++ payload_of (c.scratch, r) })
      → Ensures (Taken end_idx) (on_decoded capacity r c)
  unfolding on_decoded
  on_decoded-Taken end_idx (err e) c f =
      subst (λ s. Taken end_idx (record c { seen = s })) (append-nil c.seen) f
  on_decoded-Taken end_idx (ok d) c f =
      bind-Ensures (λ b. b ≡ take d.len c.scratch) (Taken end_idx) (slice_to c.scratch d.len) _
        (slice_to-Ensures c.scratch d.len)
        (λ bytes e.
          on_packet_kept capacity (Taken end_idx) (Taken-IsPacketKept end_idx) (parse bytes) _
            (subst (λ b. Taken end_idx (record c { seen = c.seen ++ b ∷ [] })) (sym e) f))

  process_frame-Taken :
      (end_idx : ℕ) (frame : Bytes) (frames : List Bytes) (c : Reliable (Logged T) C E)
      → Held capacity c
      → take (end_idx + 1) c.rx_buf ≡ frame
      → assemble capacity c.transport.received
        ≡ onward capacity
            (frames ++ frame ∷ [])
            c.rx_discarding
            (drop (end_idx + 1) (take c.rx_len c.rx_buf))
      → c.seen ≡ contents capacity frames
      → Ensures (Taken end_idx) (process_frame capacity end_idx c)
  unfolding process_frame
  process_frame-Taken end_idx frame frames c f e fed s =
      bind-Ensures (λ b. b ≡ take (end_idx + 1) c.rx_buf) (Taken end_idx)
        (slice_to c.rx_buf (end_idx + 1)) _ (slice_to-Ensures c.rx_buf (end_idx + 1))
        (λ encoded g.
          let d = decode_to_slice encoded c.scratch in
          let zeros : Bytes = replicate capacity 0 in
          on_decoded-Taken end_idx d.1 (record c { scratch = d.0 })
            (record {
              frames = frames ++ frame ∷ [];
              room = f.room;
              sized = f.sized;
              within = f.within;
              space = length-decode_to_slice encoded c.scratch ∙ f.space;
              fed = fed;
              shown =
                  ap (λ x. x ++ payload_of d) s
                  ∙ ap (λ p. contents capacity frames ++ p)
                      (payload-SameResult d.0 d.1 (decode_to_slice encoded zeros) (
                          decode_to_slice-Alike encoded c.scratch zeros
                            (f.space ∙ sym (length-replicate capacity 0)))
                        ∙ ap (λ x. payload_of (decode_to_slice x zeros)) (g ∙ e))
                  ∙ sym (contents_last capacity frames frame);
            }))

  pub take_frame-Taken :
      (end_idx : ℕ) (pre post : Bytes) (c : Reliable (Logged T) C E)
      → Held capacity c
      → take c.rx_len c.rx_buf ≡ pre ++ 0 ∷ post
      → length pre ≡ end_idx
      → Zeroless pre
      → Ensures (Taken end_idx) (take_frame capacity end_idx c)
  unfolding take_frame
  take_frame-Taken end_idx pre post c f e h z =
      if-Holds (Ensures (Taken end_idx)) c.rx_discarding
        (λ d. record {
          frames = f.frames;
          room = f.room;
          sized = f.sized;
          within = f.within;
          space = f.space;
          fed =
              from d
              ∙ feed-passed capacity pre post f.frames z
              ∙ ap (onward capacity f.frames false) (sym behind);
          shown = f.shown;
        })
        (λ d.
          if-Holds (Ensures (Taken end_idx)) (ltb 0 end_idx)
            (λ q.
              process_frame-Taken end_idx (pre ++ 0 ∷ []) f.frames c f front
                (ended_at false (ground (arith, h)) d) f.shown)
            (λ q. record {
              frames = f.frames;
              room = f.room;
              sized = f.sized;
              within = f.within;
              space = f.space;
              fed = ended_at true (ground (arith, h)) d;
              shown = f.shown;
            }))
    where
      from :
          {b : Bool}
          → c.rx_discarding ≡ b
          → assemble capacity c.transport.received ≡ onward capacity f.frames b (pre ++ 0 ∷ post)
      from d =
          f.fed
          ∙ ap (λ b. onward capacity f.frames b (take c.rx_len c.rx_buf)) d
          ∙ ap (onward capacity f.frames _) e

      size : end_idx + 1 ≡ length (pre ++ 0 ∷ [])
      size = omega (arith, h, length-append pre (0 ∷ []))

      short : length pre < capacity
      short = omega (
        arith,
        ap length e,
        length-append pre (0 ∷ post),
        length-take c.rx_len c.rx_buf,
        f.sized,
        f.within,
      )

      apart : take c.rx_len c.rx_buf ≡ (pre ++ 0 ∷ []) ++ post
      apart = e ∙ sym (append_assoc pre (0 ∷ []) post)

      behind : drop (end_idx + 1) (take c.rx_len c.rx_buf) ≡ post
      behind = ap (drop (end_idx + 1)) apart ∙ drop-append (pre ++ 0 ∷ []) post size

      front : take (end_idx + 1) c.rx_buf ≡ pre ++ 0 ∷ []
      front =
          ap (take (end_idx + 1)) (
            sym (take-append-drop c.rx_len c.rx_buf)
            ∙ ap (λ r. r ++ drop c.rx_len c.rx_buf) apart
            ∙ append_assoc (pre ++ 0 ∷ []) post (drop c.rx_len c.rx_buf))
          ∙ take-append (pre ++ 0 ∷ []) (post ++ drop c.rx_len c.rx_buf) size

      ended_at :
          (empty : Bool)
          → (length pre == 0) ≡ empty
          → c.rx_discarding ≡ false
          → assemble capacity c.transport.received
            ≡ onward capacity
                (if empty then f.frames else f.frames ++ (pre ++ 0 ∷ []) ∷ [])
                c.rx_discarding
                (drop (end_idx + 1) (take c.rx_len c.rx_buf))
      ended_at empty e' d =
          let next : Bool → List Bytes =
            λ n. if n then f.frames else f.frames ++ (pre ++ 0 ∷ []) ∷ [] in
          from d
          ∙ feed-frame capacity pre post f.frames z short
          ∙ ap (λ n. onward capacity (next n) false post) e'
          ∙ ap (λ b. onward capacity (next empty) b post) (sym d)
          ∙ ap (onward capacity (next empty) c.rx_discarding) (sym behind)
