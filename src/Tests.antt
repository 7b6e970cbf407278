-- ===== src/Tests.antt =====
-- Runs of the model at concrete inputs, and each theorem of the results applied at one.
mod Wire
mod Codec
mod Protocol
mod Connection
mod Valid
mod Exchange
