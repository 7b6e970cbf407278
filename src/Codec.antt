-- ===== src/Codec.antt =====
-- src/codec: the decoder that src/sync.rs offers as `decode_to_slice`.
pub mod Decode
