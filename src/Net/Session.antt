-- ===== src/Net/Session.antt =====
-- include/smpp/net/session.hpp: the sequence numbers, the send operations and the receive operation.
pub mod Sequence
pub mod Send
pub mod Receive
pub mod Loopback
pub mod Stream
pub mod Silence
pub mod Connection
pub mod Pair
pub mod Unbind
use smpp.Common.{ℕ, Bool, true, false}

-- boost::system::error_code: no error, asio::error::operation_aborted, any other error of the
-- system, and the values of smpp::error (include/smpp/net/error.hpp).
pub data ErrorCode : Type 0 where
  no_error operation_aborted : ErrorCode
  system_error : ℕ → ErrorCode
  serialization_failed enquire_link_timeout unbinded : ErrorCode

-- `ec == asio::error::operation_aborted`
abbrev pub is_aborted : ErrorCode → Bool
is_aborted operation_aborted = true
is_aborted ec = false

-- The conversion of an error_code to bool.
abbrev pub is_error : ErrorCode → Bool
is_error no_error = false
is_error ec = true
