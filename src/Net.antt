-- ===== src/Net.antt =====
-- include/smpp/net: the session and what it is built from.
pub mod PduVariant
pub mod FlatBuffer
pub mod Session
