-- ===== src/Tests/Pairs.antt =====
-- The theorem on two sessions that are joined, with both their callers, at a concrete history: a
-- request and the response to it.
use smpp.Common.{ℕ, ◌≡◌, refl, ap, inl, false, arith, [], ◌∷◌, ◌++◌, some}
use smpp.Exceptions.{ok}
use smpp.CommandId
use smpp.Serialization.{
  deserialize, deserialize_members, deserialize_value, deserialize_c_octet_str, deserialize_enum_u8,
  find_null, serialize_to, serialize_members, serialize_value, serialize_c_octet_str,
  serialize_enum_u8,
}
use smpp.Header.{deserialize_header, u32_at, deserialize_u32, serialize_header, serialize_u32, rok}
use smpp.Net.FlatBuffer.{
  FlatBuffer, capacity, size, contents, prepare, commit, write_prepared, consume,
}
use smpp.Net.PduVariant.{receive_pdu, deserialize_variant}
use smpp.Net.Session.{no_error}
use smpp.Net.Session.Sequence.{next_sequence_number}
use smpp.Net.Session.Send.{Write, new_sender, attempt, write_end}
use smpp.Net.Session.Loopback.{pdu_frame}
use smpp.Net.Session.Receive.{Receiver, reads, delivers, after_read, receive_loop, new_receiver}
use smpp.Net.Session.Stream.{room}
use smpp.Net.Session.Connection.{Message, response_of, serialize_variant, call, ends}
use smpp.Net.Session.Silence.Good.{IsPrefix}
use smpp.Net.Session.Pair.{
  Endpoint, waits, new_endpoint, Meets, opens, we_act, they_act, calls, goes_on, reads_end,
  given_to,
}
use smpp.Net.Session.Pair.Prefix.{IsEmptyBuffer, Meets-IsPrefix}
use smpp.Tests.Connections.{query, resp, message, empty, empty-IsBuffer, query_write}

abbrev replies : ℕ → Message
replies id = response_of resp 1 rok

abbrev reply_write : Write
reply_write = record { op = call replies 0; sequence_number = 0; frame = pdu_frame resp rok 1 }

abbrev reading : FlatBuffer → Receiver
reading b = record (new_receiver b) { needs_post = false }

abbrev waiting : Receiver
waiting = reading (record empty { last_pos = 21 })

abbrev has_query : Receiver
has_query = reading (record empty { buf = query_write.frame; last_pos = 21 })

abbrev has_reply : Receiver
has_reply = reading (record empty { buf = reply_write.frame ++ (0 ∷ 0 ∷ 0 ∷ []); last_pos = 21 })

receives_lem :
    (receive_loop 22 (new_receiver empty) ≡ some (reads waiting))
    × (after_read 22 query_write.frame no_error false waiting
        ≡ some (delivers has_query (ok query) 1 rok))
    × (after_read 22 reply_write.frame no_error false waiting
        ≡ some (delivers has_reply (ok resp) 1 rok))
unfolding receive_loop after_read size prepare commit write_prepared consume serialize_header
    serialize_u32 deserialize_header u32_at deserialize_u32 receive_pdu deserialize_variant
    deserialize deserialize_members deserialize_value deserialize_c_octet_str deserialize_enum_u8
    find_null
receives_lem = (refl, refl, refl)

-- A session that sent its message, with what is left for it to read.
abbrev sent : Write → (ℕ → Message) → Endpoint
sent write said = record (new_endpoint 22 empty) {
  sender =
      write_end write no_error false (record (attempt (call said 0) new_sender) { writing = [] });
}

sends_lem :
    ((attempt (call message 0) new_sender).writing ≡ query_write ∷ [])
    × ((attempt (call message 0) new_sender).send_buf ≡ query_write.frame)
    × ((attempt (call replies 0) new_sender).writing ≡ reply_write ∷ [])
    × ((attempt (call replies 0) new_sender).send_buf ≡ reply_write.frame)
unfolding attempt next_sequence_number serialize_variant serialize_to serialize_members
    serialize_value serialize_c_octet_str serialize_enum_u8 serialize_header serialize_u32
sends_lem = (refl, refl, refl, refl)

-- The request of the first caller and its delivery, then the response of the second one and its delivery.
abbrev first : Endpoint
first = record {
  sender = (sent query_write message).sender;
  operation = waits (receive_loop 22 (new_receiver has_reply.receive_buf));
  inbox = [];
  given = (ok resp, 1, rok) ∷ [];
  gone = (ok query, 1, rok) ∷ [];
}

abbrev second : Endpoint
second = record {
  sender = (sent reply_write replies).sender;
  operation = waits (receive_loop 22 (new_receiver has_query.receive_buf));
  inbox = [];
  given = (ok query, 1, rok) ∷ [];
  gone = (ok resp, 1, rok) ∷ [];
}

abbrev Answered : Type 0
Answered = Meets message replies 21 empty empty first second

asks-Answered : Answered
unfolding CommandId.request_pdu serialize_header room serialize_u32 CommandId.response_pdu
asks-Answered =
    we_act
      (we_act
        (they_act
          (they_act
            (they_act
              (they_act
                (we_act
                  (we_act opens (calls 0 tt (refl, omega arith, inl (omega arith, omega arith))))
                  (goes_on (ends query_write [] [] no_error false sends_lem.0)))
                (reads_end waiting query_write.frame [] no_error false (ap waits receives_lem.0)
                  (ap (λ xs. xs ++ []) sends_lem.1) (omega arith)))
              (given_to has_query (ok query) 1 rok (ap waits receives_lem.1)))
            (calls 0 tt
              (refl, omega arith, inl (omega arith, omega arith), omega arith, omega arith)))
          (goes_on (ends reply_write [] [] no_error false sends_lem.2)))
        (reads_end waiting reply_write.frame [] no_error false (ap waits receives_lem.0)
          (ap (λ xs. xs ++ []) sends_lem.3) (omega arith)))
      (given_to has_reply (ok resp) 1 rok (ap waits receives_lem.2))

empty-IsEmptyBuffer : IsEmptyBuffer 21 empty
unfolding contents capacity
empty-IsEmptyBuffer = record { is_buffer = empty-IsBuffer; same_capacity = refl; is_empty = refl }

Meets-IsPrefix_example : IsPrefix first.given second.gone × IsPrefix second.given first.gone
Meets-IsPrefix_example =
    Meets-IsPrefix message replies 21 empty empty (omega arith) (omega arith) empty-IsEmptyBuffer
      empty-IsEmptyBuffer asks-Answered
