-- ===== src/Error/Display.antt =====
-- The texts of the errors of src/error.rs. What an error of the caller's own type and a
-- `DecodeProgress` print as is the caller's and the compiler's to say.
pub mod Distinct
use Prim.Native.String.{String, ◌++◌}
use cobs_io_async_rs.Error.{
  SeekableError, out_of_bounds, DecodeProgress, DecodeError, source, destination,
  unexpected_source_eof, empty_frame, invalid_frame, ConfigError, buffer_too_small, ConnectionError,
  transport, unexpected_eof, write_zero, timeout, sequence_exhausted, failed,
}

unfoldable pub decode_error :
    {S D : Type 0}
    → (S → String)
    → (D → String)
    → (DecodeProgress → String)
    → DecodeError S D
    → String
decode_error show_source show_destination debug (source e) = "Source error: " ++ show_source e
decode_error show_source show_destination debug (destination e) =
    "Destination error: " ++ show_destination e
decode_error show_source show_destination debug unexpected_source_eof = "Unexpected source EOF"
decode_error show_source show_destination debug empty_frame = "Empty frame"
decode_error show_source show_destination debug (invalid_frame progress) =
    "Invalid frame after decoding " ++ debug progress

unfoldable pub seekable_error : SeekableError → String
seekable_error out_of_bounds = "Out of bounds"

unfoldable pub config_error : ConfigError → String
config_error buffer_too_small = "Buffer cannot hold a protocol packet"

unfoldable pub connection_error : {E : Type 0} → (E → String) → ConnectionError E → String
connection_error show (transport e) = "Transport error: " ++ show e
connection_error show unexpected_eof = "Transport closed unexpectedly"
connection_error show write_zero = "Transport accepted zero bytes"
connection_error show timeout = "Retransmission attempts exhausted"
connection_error show sequence_exhausted = "Sequence numbers exhausted"
connection_error show failed = "Connection previously failed"
