-- ===== src/Sync.antt =====
-- src/sync.rs: COBS encoding and decoding between slices in memory. A `&mut [u8]` argument is a list
-- that the function returns with its writes done, also where it fails.
pub mod Output
pub mod Stuffing
pub mod Encode
pub use Output.*
