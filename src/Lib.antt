-- ===== src/Lib.antt =====
-- A model of the crate cobs-io-async: COBS framing on slices, and a reliable, ordered byte stream
-- over an unreliable link.
--
-- The program's parts. `src/sync.rs` encodes a slice into another one; `src/codec/decode.rs` decodes
-- one frame of a slice by a state machine on bytes. `src/lib.rs` has the sizes that the encoder
-- needs. `src/protocol.rs` lays DATA and ACK packets out, with a CRC-32, in delimited COBS frames,
-- and parses decoded frames. `src/connection.rs` is `Reliable`, the stop-and-wait connection: its
-- poll functions run a driver that writes and flushes frames, reads and processes input, and
-- retransmits at a deadline, over a link and a clock that implement the traits of
-- `src/transport.rs` and `src/timer.rs`.
--
-- The files and the code:
--   Prelude, Prelude/*    lists of bytes, Boolean tests, code that may panic, big-endian integers, exclusive or,
--                         lists that record the past
--   Error                 `src/error.rs`, `DecodeProgress` of `src/codec/decode.rs`
--   Error/Display         the texts of the errors of `src/error.rs`
--   Sizes                 `max_encoding_overhead`, `max_encoding_length` of `src/lib.rs`
--   Sync/Output           `SliceOutput` of `src/sync.rs`, and the monad of code that writes to one
--   Sync/Encode           `encode_from_slice`, `encode_from_slice_including_sentinels`
--   Sync/Stuffing         the encoded body, by blocks: what the encoder is compared with
--   Codec/Decode          `DecoderState`, `decode_slice`; `decode_to_slice` of `src/sync.rs`
--   Protocol/Crc          `CRC_TABLE`, `crc32` of `src/protocol.rs`
--   Protocol/Payload      the packet sizes and `max_payload`
--   Protocol/Packet       `seal`, `header`, `encode_data`, `encode_ack`, `parse`
--   Transport             the traits `Transport` and `Timer`
--   Connection/State      the types of `src/connection.rs` and the fields of `Reliable`
--   Connection/Waiters    `Waiters`
--   Connection/Output     `poll_output`
--   Connection/Deadline   `poll_timer`
--   Connection/Input      `poll_input`, `process_input`, `process_frame`
--   Connection/Drive      `step`, `drive`, `fail`, `failure`
--   Connection/Valid      the invariant of a connection, and the operations against it
--   Connection/Kept       predicates on a connection that the driver keeps
--   Connection/History    a connection against what its user wrote and read, from `new` on
--   Connection/Delivery   two connections, and the frames or the bytes that go between them
--   Connection/Stream     the bytes that go over a link, against the frames that are begun and decoded
--   Connection/Budget     the calls of the link that an operation makes
--   Connection/Retries    how often the frame of a packet is begun
--   Connection/Api        `new`, the poll functions, `queue_packet`, `finish`, `notify`, `cancel_pending`
--   Tests, Tests/*        runs on concrete inputs, and the theorems applied at them
-- Files below one of these hold what is shown about it.
--
-- Correspondence. A byte is a number, and so is an integer of any width; where the code can wrap, the
-- remainder is written out, and `usize` has 64 bits. A `&mut` slice is a list that is taken and
-- returned, so that what an error leaves in it is seen. A field of a struct is a field of a record of
-- the same name. `Result` with `?` is a monad on the state, which keeps what was written before the
-- error. What Rust answers with a panic (an index out of range, a failed `expect`) is the value
-- `panic` of `Exec`. The branches of a `match` on what the link returns are a function of their own,
-- named for what has happened. The capacity `N`, the link and the clock are parameters. A link is a
-- record of functions from its state and the waker to its state and the result; it may do anything,
-- also return more bytes than it was offered. A waker is a number, `will_wake` is equality, and
-- `woken` lists the wakers that the connection has woken. Two more added fields record the past, and
-- no operation reads them: `seen` has the decoded frames that `process_frame` handed to `parse`, and
-- `begun` the frames that `begin_output` began to write. `logged link` of Connection/Stream
-- is a link that does what `link` does and notes the bytes that it accepts and gives.
--
-- Fuel. `process_loop` has as many rounds as there are bytes in the input buffer, and one more: each
-- round that goes on removes at least the delimiter. `drive_loop` has as many rounds as there is
-- budget left, and one more: each round that goes on spends budget. Running out of fuel is `panic`.
-- The other loops are structural.
--
-- Not modelled: the derives, the serde and defmt implementations; the machinery of `core::task` below the
-- waker's identity; `set_sequences`, which exists in test builds only; the tests and benchmarks.
pub mod Prelude
pub mod Error
pub mod Sizes
pub mod Sync
pub mod Codec
pub mod Protocol
pub mod Transport
pub mod Connection
mod Tests
