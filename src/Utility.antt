-- ===== src/Utility.antt =====
-- include/smpp/utility: what a program needs to read and write the texts of short messages.
pub mod DataCoding
pub mod ShortMessage
pub mod Unicode
