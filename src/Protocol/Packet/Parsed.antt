-- ===== src/Protocol/Packet/Parsed.antt =====
-- `parse` against the layout of packets.
use cobs_io_async_rs.Prelude.{
  ℕ, ◌-◌, ◌^◌, ◌≤◌, ◌<◌, ◌≡◌, refl, sym, ap, ◌∙◌, inl, inr, [], ◌∷◌, ◌++◌, Bytes, none, some, All,
  All-take, All-drop, IsByte, length, length-append, length-take, length-drop, take, drop,
  take-append, drop-append, drop-append_right, take-append-drop, drop-drop, get_or, to_be_bytes,
  from_be_bytes, length-to_be_bytes, from_be_bytes-to_be_bytes, to_be_bytes-from_be_bytes,
  from_be_bytes-lt, ◌==◌, ==_iff, Bool-cases, dec_lt, subst, arith,
}
use cobs_io_async_rs.Protocol.Crc.{crc32, crc32-lt}
use cobs_io_async_rs.Protocol.Packet.Wire.{body, sealed, packet_bytes, length-body}
use cobs_io_async_rs.Protocol.Packet.{
  Packet, data_packet, ack_packet, kind_data, kind_ack, classify, parse_body, parse,
}
use cobs_io_async_rs.Protocol.Payload.{header_len, crc_len, overhead}

-- The values that a packet can carry: integers of their widths, and in DATA a nonempty payload.
abbrev pub IsPacket : Packet → Type 0
IsPacket (data_packet session seq payload) =
    (session < 2 ^ 64) × (seq < 2 ^ 32) × (0 < length payload)
IsPacket (ack_packet session seq) = (session < 2 ^ 64) × (seq < 2 ^ 32)

parse-long :
    (decoded : Bytes)
    → overhead ≤ length decoded
    → let at = length decoded - crc_len in
      parse decoded ≡ parse_body (take at decoded) (drop at decoded)
unfolding parse
parse-long decoded h = ground arith

parse-append :
    (b crc : Bytes)
    → length crc ≡ crc_len
    → header_len ≤ length b
    → parse (b ++ crc) ≡ parse_body b crc
parse-append b crc e h =
    parse-long (b ++ crc) (omega (arith, length-append b crc))
    ∙ ap (λ x. parse_body x (drop at (b ++ crc))) (take-append b crc at_lem)
    ∙ ap (parse_body b) (drop-append b crc at_lem)
  where
    at : ℕ
    at = length (b ++ crc) - crc_len

    at_lem : at ≡ length b
    at_lem = omega (arith, length-append b crc)

-- The fields of a body, where `parse` looks for them.
module _ (kind session seq : ℕ) (payload : Bytes) where
  abbrev s8 : Bytes
  s8 = to_be_bytes 8 session

  abbrev q4 : Bytes
  q4 = to_be_bytes 4 seq

  session_field : take 8 (drop 1 (body kind session seq payload)) ≡ s8
  session_field = take-append s8 (q4 ++ payload) (sym (length-to_be_bytes 8 session))

  seq_field : take 4 (drop 9 (body kind session seq payload)) ≡ q4
  seq_field =
      ap (take 4) (drop-append s8 (q4 ++ payload) (sym (length-to_be_bytes 8 session)))
      ∙ take-append q4 payload (sym (length-to_be_bytes 4 seq))

  payload_field : drop header_len (body kind session seq payload) ≡ payload
  payload_field =
      drop-append_right s8 (q4 ++ payload) 4 {k = 12} (omega (arith, length-to_be_bytes 8 session))
      ∙ drop-append q4 payload (sym (length-to_be_bytes 4 seq))

  parse_body-body :
      session < 2 ^ 64
      → seq < 2 ^ 32
      → let b = body kind session seq payload in
        parse_body b (to_be_bytes 4 (crc32 b)) ≡ classify kind session seq payload
  unfolding parse_body
  parse_body-body hs hq =
      rw
        (
          session_field,
          seq_field,
          payload_field,
          from_be_bytes-to_be_bytes 4 (crc32 (body kind session seq payload)) (crc32-lt _),
          from_be_bytes-to_be_bytes 8 session hs,
          from_be_bytes-to_be_bytes 4 seq hq,
        )
        (ground arith)

  parse-sealed :
      session < 2 ^ 64
      → seq < 2 ^ 32
      → parse (sealed (body kind session seq payload)) ≡ classify kind session seq payload
  parse-sealed hs hq =
      let b : Bytes = body kind session seq payload in
      parse-append b (to_be_bytes 4 (crc32 b)) (length-to_be_bytes 4 (crc32 b))
        (omega (arith, length-body kind session seq payload))
      ∙ parse_body-body hs hq

-- `parse` of the bytes of a packet is that packet, if its integers have their widths and, for DATA,
-- its payload is not empty.
pub parse-packet_bytes : (p : Packet) → IsPacket p → parse (packet_bytes p) ≡ some p
unfolding classify
parse-packet_bytes (data_packet session seq []) h = absurd (omega arith)
parse-packet_bytes (data_packet session seq (b ∷ payload)) h =
    parse-sealed kind_data session seq (b ∷ payload) h.0 h.1
parse-packet_bytes (ack_packet session seq) h = parse-sealed kind_ack session seq [] h.0 h.1

-- A body is laid out from the fields that `parse` takes from it.
body-fields :
    (b : Bytes)
    → header_len ≤ length b
    → All IsByte b
    → b
      ≡ body
          (get_or b 0 0)
          (from_be_bytes (take 8 (drop 1 b)))
          (from_be_bytes (take 4 (drop 9 b)))
          (drop header_len b)
body-fields [] h bs = absurd (omega arith)
body-fields (k ∷ b) h bs =
    let rest : Bytes = drop 8 b in
    ap (λ r. k ∷ r)
      (sym (take-append-drop 8 b)
        ∙ ap (λ r. take 8 b ++ r)
            (sym (take-append-drop 4 rest) ∙ ap (λ r. take 4 rest ++ r) (drop-drop 4 8 b refl))
        ∙ sym (
            rw (
              to_be_bytes-from_be_bytes 8 (take 8 b) (omega (arith, length-take 8 b))
                  (All-take IsByte 8 b bs.1),
              to_be_bytes-from_be_bytes 4 (take 4 rest)
                  (omega (arith, length-take 4 rest, length-drop 8 b))
                  (All-take IsByte 4 rest (All-drop IsByte 8 b bs.1)),
            )))

classify-some :
    (kind session seq : ℕ) (payload : Bytes) {p : Packet}
    → classify kind session seq payload ≡ some p
    → session < 2 ^ 64
    → seq < 2 ^ 32
    → (sealed (body kind session seq payload) ≡ packet_bytes p) × IsPacket p
unfolding classify
classify-some kind session seq [] {p} e hs hq = elim (Bool-cases (kind == kind_ack)) [
  | inl k ↦
      subst (λ p. (sealed (body kind session seq []) ≡ packet_bytes p) × IsPacket p)
        (let found : ack_packet session seq ≡ p = ground arith in found)
        (ap (λ n. sealed (body n session seq [])) ((==_iff kind kind_ack).0 k), (hs, hq))
  | inr k ↦ absurd (ground arith)
]
classify-some kind session seq (b ∷ payload) {p} e hs hq = elim (Bool-cases (kind == kind_data)) [
  | inl k ↦
      subst (λ p. (sealed (body kind session seq (b ∷ payload)) ≡ packet_bytes p) × IsPacket p)
        (let found : data_packet session seq (b ∷ payload) ≡ p = ground arith in found)
        (
          ap (λ n. sealed (body n session seq (b ∷ payload))) ((==_iff kind kind_data).0 k),
          (hs, hq, omega arith),
        )
  | inr k ↦ absurd (ground arith)
]

-- A body that `parse` accepts, and its checksum.
parse_body-some :
    (b crc : Bytes) {p : Packet}
    → parse_body b crc ≡ some p
    → (crc32 b ≡ from_be_bytes crc)
      × (classify
            (get_or b 0 0)
            (from_be_bytes (take 8 (drop 1 b)))
            (from_be_bytes (take 4 (drop 9 b)))
            (drop header_len b)
          ≡ some p)
unfolding parse_body
parse_body-some b crc e = elim (Bool-cases (crc32 b == from_be_bytes crc)) [
  | inl same ↦ ((==_iff _ _).0 same, rw same at e)
  | inr other ↦ absurd (ground arith)
]

parse_body_sound :
    (b crc : Bytes) {p : Packet}
    → header_len ≤ length b
    → length crc ≡ crc_len
    → All IsByte b
    → All IsByte crc
    → parse_body b crc ≡ some p
    → (b ++ crc ≡ packet_bytes p) × IsPacket p
parse_body_sound b crc h e bs cs found =
    let (sum, fields) = parse_body-some b crc found in
    let (same, valid) =
      classify-some _ _ _ _ fields
        (from_be_bytes-lt 8 (take 8 (drop 1 b))
          (omega (arith, length-take 8 (drop 1 b), length-drop 1 b))
          (All-take IsByte 8 (drop 1 b) (All-drop IsByte 1 b bs)))
        (from_be_bytes-lt 4 (take 4 (drop 9 b))
          (omega (arith, length-take 4 (drop 9 b), length-drop 9 b))
          (All-take IsByte 4 (drop 9 b) (All-drop IsByte 9 b bs))) in
    (ap (λ c. b ++ c) checksum ∙ ap sealed (body-fields b h bs) ∙ same, valid)
  where
    checksum : crc ≡ to_be_bytes 4 (crc32 b)
    checksum =
        sym (to_be_bytes-from_be_bytes 4 crc (omega (arith, e)) cs)
        ∙ ap (to_be_bytes 4) (sym (parse_body-some b crc found).0)

parse_short : (decoded : Bytes) → length decoded < overhead → parse decoded ≡ none
unfolding parse
parse_short decoded h = ground arith

-- If `parse` accepts a sequence of bytes, then these are the bytes of the packet that it returns,
-- checksum included, the packet's integers have their widths, and a DATA packet has a payload.
pub parse_sound :
    (decoded : Bytes) {p : Packet}
    → All IsByte decoded
    → parse decoded ≡ some p
    → (decoded ≡ packet_bytes p) × IsPacket p
parse_sound decoded {p} bs e = elim (dec_lt (length decoded) overhead) [
  | yes short ↦ absurd (cc (e, parse_short decoded short))
  | no long ↦
      let n : ℕ = length decoded - crc_len in
      let (same, valid) =
        parse_body_sound (take n decoded) (drop n decoded) (omega (arith, length-take n decoded))
          (omega (arith, length-drop n decoded)) (All-take IsByte n decoded bs)
          (All-drop IsByte n decoded bs) (sym (parse-long decoded (omega arith)) ∙ e) in
      (sym (take-append-drop n decoded) ∙ same, valid)
]

-- The checksum of what `parse` accepts.
pub parse_checked :
    (decoded : Bytes) {p : Packet}
    → parse decoded ≡ some p
    → let at = length decoded - crc_len in
      (overhead ≤ length decoded) × (crc32 (take at decoded) ≡ from_be_bytes (drop at decoded))
parse_checked decoded e = elim (dec_lt (length decoded) overhead) [
  | yes short ↦ absurd (cc (e, parse_short decoded short))
  | no long ↦
      let n : ℕ = length decoded - crc_len in
      (
        omega arith,
        (parse_body-some (take n decoded) (drop n decoded)
            (sym (parse-long decoded (omega arith)) ∙ e)).0,
      )
]
