-- ===== src/Tests.antt =====
-- Concrete runs, and the theorems at concrete inputs.
mod Codec
mod Buffers
mod Sessions
mod Receiving
mod Streams
mod Connections
mod Texts
mod Pairs
mod Examples
