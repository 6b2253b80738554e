-- ===== src/Tests/Examples.antt =====
-- The conversation of the two programs, up to the delivery of the bind.
use smpp.Common.{ℕ, ◌≡◌, ◌≢◌, refl, ap, inl, false, arith, [], ◌∷◌, ◌++◌, some}
use smpp.Exceptions.{ok}
use smpp.CommandId
use smpp.Serialization.{
  deserialize, deserialize_members, deserialize_value, deserialize_c_octet_str, deserialize_enum_u8,
  find_null, serialize_to, serialize_members, serialize_value, serialize_c_octet_str,
  serialize_enum_u8,
}
use smpp.Header.{deserialize_header, u32_at, deserialize_u32, serialize_header, serialize_u32, rok}
use smpp.Net.FlatBuffer.{
  FlatBuffer, capacity, size, contents, prepare, commit, write_prepared, consume,
}
use smpp.Net.PduVariant.{receive_pdu, deserialize_variant, PduVariant, bind_transceiver_pdu}
use smpp.Net.Session.{no_error}
use smpp.Net.Session.Sequence.{next_sequence_number}
use smpp.Net.Session.Send.{Write, Sender, new_sender, attempt, write_end}
use smpp.Net.Session.Send.Once.{sum_of, pending, finished}
use smpp.Net.Session.Loopback.{pdu_frame}
use smpp.Net.Session.Receive.{Receiver, reads, delivers, after_read, receive_loop, new_receiver}
use smpp.Net.Session.Stream.{room}
use smpp.Net.Session.Silence.Good.{IsPrefix}
use smpp.Net.Session.Connection.{Message, request_of, serialize_variant, call, ends}
use smpp.Net.Session.Pair.{Endpoint, waits, goes_on, reads_end}
use smpp.Net.Session.Pair.Prefix.{IsEmptyBuffer}
use smpp.Example.Program.{at, bad_variant_access, sent, sends, receives, meanwhile}
use smpp.Example.Client.{binding, client, bind_request}
use smpp.Example.Server.{answering, server}
use smpp.Example.Conversation.{
  Converses, opens, client_plays, client_observes, server_plays, answers,
}
use smpp.Example.Conversation.Shapes.{Requests}
use smpp.Example.Conversation.Fine.{Converses-fine}

abbrev bind : PduVariant
bind = bind_transceiver_pdu bind_request

abbrev ours : ℕ → Message
ours id = request_of bind

abbrev blank : FlatBuffer
blank = record {
  buf =
      0 ∷ 0 ∷ 0 ∷ 0 ∷ 0 ∷ 0 ∷ 0 ∷ 0 ∷ 0 ∷ 0 ∷ 0 ∷ 0 ∷ 0 ∷ 0 ∷ 0 ∷ 0 ∷ 0 ∷ 0 ∷ 0 ∷ 0 ∷ 0 ∷ 0 ∷ 0 ∷ 0
      ∷ 0 ∷ 0 ∷ 0 ∷ 0 ∷ 0 ∷ 0 ∷ 0 ∷ 0 ∷ [];
  in_pos = 0;
  out_pos = 0;
  last_pos = 0;
}

blank-IsEmptyBuffer : IsEmptyBuffer 32 blank
unfolding contents capacity
blank-IsEmptyBuffer = record { is_buffer = omega arith; same_capacity = refl; is_empty = refl }

abbrev bind_write : Write
bind_write = record { op = call ours 0; sequence_number = 1; frame = pdu_frame bind rok 1 }

abbrev reading : FlatBuffer → Receiver
reading b = record (new_receiver b) { needs_post = false }

abbrev waiting : Receiver
waiting = reading (record blank { last_pos = 32 })

abbrev has_bind : Receiver
has_bind = reading (record blank { buf = bind_write.frame; last_pos = 32 })

binds_lem :
    (receive_loop 33 (new_receiver blank) ≡ some (reads waiting))
    × (after_read 33 bind_write.frame no_error false waiting
        ≡ some (delivers has_bind (ok bind) 1 rok))
unfolding receive_loop after_read size prepare commit write_prepared consume serialize_header
    serialize_u32 deserialize_header u32_at deserialize_u32 receive_pdu deserialize_variant
    deserialize deserialize_members deserialize_value deserialize_c_octet_str deserialize_enum_u8
    find_null
binds_lem = (refl, refl)

-- The client has called async_send, and the bind is written.
abbrev called_first : Sender
called_first = attempt (call ours 0) new_sender

abbrev sent_first : Sender
sent_first = write_end bind_write no_error false (record called_first { writing = [] })

sends_lem :
    (called_first.writing ≡ bind_write ∷ [])
    × (called_first.send_buf ≡ bind_write.frame)
    × (sent_first.completed ≡ record { id = 0; ec = no_error; sequence_number = 1 } ∷ [])
unfolding attempt write_end next_sequence_number serialize_variant serialize_to serialize_members
    serialize_value serialize_c_octet_str serialize_enum_u8 serialize_header serialize_u32
sends_lem = (refl, refl, refl)

abbrev first : Endpoint
first = record {
  sender = sent_first;
  operation = waits (receive_loop 33 (new_receiver blank));
  inbox = [];
  given = [];
  gone = (ok bind, 1, rok) ∷ [];
}

abbrev second : Endpoint
second = record {
  sender = new_sender;
  operation = waits (receive_loop 33 (new_receiver has_bind.receive_buf));
  inbox = [];
  given = (ok bind, 1, rok) ∷ [];
  gone = [];
}

bound-Converses : Converses ours ours 32 blank blank first (at binding) second (at (answering 1))
unfolding CommandId.request_pdu serialize_header room serialize_u32 client server pending finished
    sum_of
bound-Converses =
    server_plays
      (server_plays
        (client_observes
          (client_plays
            (client_plays opens
              (sends 0 refl tt (refl, omega arith, inl (omega arith, omega arith)) refl refl))
            (meanwhile (goes_on (ends bind_write [] [] no_error false sends_lem.0)) tt))
          (sent _ [] [] sends_lem.2))
        (meanwhile
          (reads_end waiting bind_write.frame [] no_error false (ap waits binds_lem.0)
            (ap (λ xs. xs ++ []) sends_lem.1) (omega arith))
          tt))
      (receives _ has_bind (ok bind) 1 rok refl (ap waits binds_lem.1))

Converses-fine_example :
    (at binding ≢ bad_variant_access)
    × (at (answering 1) ≢ bad_variant_access)
    × Requests first.gone
    × IsPrefix second.given first.gone
    × IsPrefix second.gone (answers second.given)
    × IsPrefix first.given second.gone
Converses-fine_example =
    Converses-fine ours ours 32 blank blank (omega arith) (omega arith) blank-IsEmptyBuffer
      blank-IsEmptyBuffer bound-Converses
