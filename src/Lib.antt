-- ===== src/Lib.antt =====
-- smpp, a header-only C++ library for the SMPP 3.4 protocol: PDU types, their serialization, and a
-- session that sends and receives them over a TCP socket.
--
-- The parts of the program, under include/smpp, and the files that model them:
-- - common/serialization.hpp: Serialization. Each rule struct is a pair of functions,
--   `deserialize_c_octet_str` for c_octet_str::deserialize and so on; `Rule` is the template argument
--   of `mem`, `PduMeta` is pdu_meta of a PDU type with the fields that it points to, and
--   `serialize_to` and `deserialize` are the two entry points, generic in the PDU type.
-- - pdu/*.hpp: Pdu. A record and an instance of PduMeta for each of the 21 structs.
-- - net/pdu_variant.hpp, net/invalid_pdu.hpp: Net.PduVariant, with the choice of the alternative by
--   command_id in session::receive_op.
-- - net/detail/header_serialization.hpp: Header. common/command_id.hpp, is_response.hpp,
--   request_pdu.hpp and response_pdu.hpp: CommandId.
-- - common/command_status.hpp and the enums of param/*.hpp: Enums, a data type for each, with the number
--   of each enumerator. A field of a PDU holds any number of the underlying type, so it is a number.
-- - param/*.hpp: Param for the flag structs and the default values, Oparam for the optional
--   parameters. A std::map is the list of its entries in the order of the keys (Oparam.Map).
-- - net/detail/static_flat_buffer.hpp: Net.FlatBuffer. Pointers are positions in the array.
-- - net/session.hpp: Net.Session. Session.Sequence is next_sequence_number. Session.Send has the two
--   async_send operations and async_send_command: `attempt` is a call, up to the wait or the write,
--   `resume` the completion of a wait on send_cv_, and `write_end` the completion of a write. `Step`
--   adds what boost::asio and the caller do: which wait or write completes, with what error, and
--   whether the caller cancelled it. Serialization is an argument of the operations.
--   Session.Receive is receive_op: `receive_loop` runs its loop until it waits or ends, and a function
--   `after_...` is what follows the wait that it names. Session.Loopback joins the two, and
--   Session.Stream is a caller that calls async_receive again after each PDU, and a peer whose bytes
--   arrive in pieces; in Session.Silence reads time out in between. Session.Connection has the
--   histories of a session whose operations serialize PDUs, and joins what went out to the caller of
--   the other session. Session.Unbind is the end of a session. Session.Pair joins two sessions that
--   both send and receive: `Acts` is what a session and its caller do, `after_send` is how the receive
--   operation goes on when one of its own sends has ended, and `Meets` is a history of both.
-- - utility/data_coding_unicode.hpp, utility/short_message.hpp, utility/unicode_converter.hpp:
--   Utility.DataCoding, Utility.ShortMessage and Utility.Unicode. user_data_header is the list of its
--   headers; whether char is signed is an argument of get_multi_part_data.
-- - example/client.cpp and example/server.cpp: Example. `Action` is what a coroutine awaits, `client` and
--   `server` give it for each point of the two coroutines, `Plays` and `Observes` are the steps of a
--   coroutine with its session, and `Converses` is a history of the two. main, the acceptor, the
--   connection of the sockets and the output are left out.
--
-- Conventions. A byte is a number below 256, and a string, vector or span of bytes is a list of
-- numbers. An enum with a fixed underlying type holds every number of that type. An exception is a
-- value of `Exception` with the message that the code builds, and a function that may throw returns
-- a `Result`. The loops of oparam and user_data_header run on fuel: one more than the length of the
-- buffer, which each round shortens; `stuck` stands for fuel that ran out. The loop of receive_op
-- is given its fuel, since a peer can keep it going without end. `drive` of Session.Stream also counts
-- the waits that end; for a stream of whole PDUs some number of them is enough.
--
-- Not modelled: the names in param/priority_flag.hpp but for the default, the reads of the
-- socket themselves, and the bytes that a write which failed had sent.
pub mod Common
pub mod Exceptions
pub mod CommandId
pub mod Header
pub mod Param
pub mod Oparam
pub mod Serialization
pub mod Pdu
pub mod Net
pub mod Utility
pub mod Enums
pub mod Example
mod Tests
