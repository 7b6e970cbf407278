-- ===== src/Protocol.antt =====
-- src/protocol.rs: packets, their checksum and their frames. What panics in the source (a slice out
-- of range, the `expect` of `seal`) is `panic` here.
pub mod Crc
pub mod Payload
pub mod Packet
