-- ===== src/Error.antt =====
-- The error types of src/error.rs, and `DecodeProgress` of src/codec/decode.rs, which one of them
-- carries.
pub mod Display
use cobs_io_async_rs.Prelude.{ℕ, Option}

pub data SeekableError : Type 0 where
  out_of_bounds : SeekableError

pub record DecodeProgress : Type 0 where
  pub consumed : ℕ
  pub written : ℕ
  pub frame_len : Option ℕ

pub data DecodeError (SourceError DestinationError : Type 0) : Type 0 where
  source : SourceError → DecodeError SourceError DestinationError
  destination : DestinationError → DecodeError SourceError DestinationError
  unexpected_source_eof : DecodeError SourceError DestinationError
  empty_frame : DecodeError SourceError DestinationError
  invalid_frame : DecodeProgress → DecodeError SourceError DestinationError

pub data ConfigError : Type 0 where
  buffer_too_small : ConfigError

pub data ConnectionError (TransportError : Type 0) : Type 0 where
  transport : TransportError → ConnectionError TransportError
  unexpected_eof : ConnectionError TransportError
  write_zero : ConnectionError TransportError
  timeout : ConnectionError TransportError
  sequence_exhausted : ConnectionError TransportError
  failed : ConnectionError TransportError
