-- ===== src/Tests/Connections.antt =====
-- The theorems on two sessions that are joined, at concrete histories.
use smpp.Common.{ℕ, zero, suc, ◌+◌, ◌≡◌, refl, inl, false, arith, [], ◌∷◌, ◌++◌, some, true}
use smpp.Exceptions.{ok}
use smpp.CommandId
use smpp.Serialization.{
  serialize_to, serialize_members, serialize_value, serialize_c_octet_str, serialize_enum_u8,
}
use smpp.Header.{serialize_header, serialize_u32, rok}
use smpp.Net.FlatBuffer.{FlatBuffer, capacity, size, contents}
use smpp.Net.FlatBuffer.Invariant.{IsBuffer}
use smpp.Net.PduVariant.{PduVariant, submit_sm_resp_pdu, query_sm_pdu}
use smpp.Net.Session.{no_error, operation_aborted, unbinded}
use smpp.Net.Session.Sequence.{next_sequence_number}
use smpp.Net.Session.Send.{Write, Sender, new_sender, attempt, send_unbind, resume, write_end}
use smpp.Net.Session.Loopback.{pdu_frame}
use smpp.Net.Session.Receive.{
  Receiver, sends, closes, consumed, receive_loop, after_send_unbind_resp, new_receiver,
}
use smpp.Net.Session.Stream.{drive}
use smpp.Net.Session.Stream.Sent.{stream}
use smpp.Net.Session.Connection.{
  Message, request_of, response_of, serialize_variant, call, Talk, opens, calls, goes_on, resumes,
  ends,
}
use smpp.Net.Session.Unbind.{unbind_resp_op, send_unbind-unbinded}
use smpp.Net.Session.Connection.Delivered.{drive-Talk}

abbrev pub query : PduVariant
query =
    query_sm_pdu (record {
      message_id = 0x61 ∷ [];
      source_addr_ton = 0;
      source_addr_npi = 0;
      source_addr = [];
    })

abbrev pub resp : PduVariant
resp = submit_sm_resp_pdu (record { message_id = 0x62 ∷ [] })

-- A request, and the response to a request with the number 9.
abbrev pub message : ℕ → Message
message zero = request_of query
message (suc id) = response_of resp 9 rok

abbrev pub empty : FlatBuffer
empty = record {
  buf = 0 ∷ 0 ∷ 0 ∷ 0 ∷ 0 ∷ 0 ∷ 0 ∷ 0 ∷ 0 ∷ 0 ∷ 0 ∷ 0 ∷ 0 ∷ 0 ∷ 0 ∷ 0 ∷ 0 ∷ 0 ∷ 0 ∷ 0 ∷ 0 ∷ [];
  in_pos = 0;
  out_pos = 0;
  last_pos = 0;
}

pub empty-IsBuffer : IsBuffer empty
empty-IsBuffer = omega arith

abbrev pub query_write : Write
query_write = record { op = call message 0; sequence_number = 1; frame = pdu_frame query rok 1 }

abbrev pub resp_write : Write
resp_write = record { op = call message 1; sequence_number = 0; frame = pdu_frame resp rok 9 }

-- The request is being written, and the response waits.
abbrev both : Sender
both = attempt (call message 1) (attempt (call message 0) new_sender)

abbrev one_out : Sender
one_out = write_end query_write no_error false (record both { writing = [] })

abbrev again : Sender
again = resume (call message 1) operation_aborted false (record one_out { woken = [] })

abbrev two_out : Sender
two_out = write_end resp_write no_error false (record again { writing = [] })

states_lem :
    (both.writing ≡ query_write ∷ [])
    × (one_out.woken ≡ call message 1 ∷ [])
    × (again.writing ≡ resp_write ∷ [])
    × (two_out.wire ≡ query_write.frame ∷ resp_write.frame ∷ [])
unfolding attempt resume write_end next_sequence_number serialize_variant serialize_to
    serialize_members serialize_value serialize_c_octet_str serialize_enum_u8 serialize_header
    serialize_u32
states_lem = (refl, refl, refl, refl)

two_pdus-Talk : Talk message (capacity empty) ((ok query, 1, rok) ∷ (ok resp, 9, rok) ∷ []) two_out
unfolding capacity CommandId.request_pdu CommandId.response_pdu
two_pdus-Talk = goes_on (ends resp_write [] [] no_error false states_lem.2) (
    goes_on (resumes (call message 1) [] [] false states_lem.1) (
      goes_on (ends query_write [] [] no_error false states_lem.0) (
        calls 1 (refl, omega arith, inl (omega arith, omega arith), omega arith, omega arith)
          (calls 0 (refl, omega arith, inl (omega arith, omega arith)) opens))))

drive-Talk_example :
    (k : ℕ) × ((more : ℕ)
      → drive
          (λ bs. 4)
          (suc (capacity empty))
          (k + more)
          (stream two_out.wire)
          (receive_loop (suc (capacity empty)) (new_receiver empty))
        ≡ (ok query, 1, rok) ∷ (ok resp, 9, rok) ∷ [])
unfolding contents capacity serialize_header serialize_u32
drive-Talk_example =
    drive-Talk message (λ bs. 4) empty empty-IsBuffer refl (omega arith) two_pdus-Talk

-- The first unbind of a session, and the response to it.
abbrev unbind_receiver : Receiver
unbind_receiver = new_receiver (record {
  buf = 0 ∷ 0 ∷ 0 ∷ 16 ∷ 0 ∷ 0 ∷ 0 ∷ 6 ∷ 0 ∷ 0 ∷ 0 ∷ 0 ∷ 0 ∷ 0 ∷ 0 ∷ 1 ∷ [];
  in_pos = 0;
  out_pos = 16;
  last_pos = 16;
})

abbrev unbind_resp_receiver : Receiver
unbind_resp_receiver = new_receiver (record {
  buf = 0 ∷ 0 ∷ 0 ∷ 16 ∷ 128 ∷ 0 ∷ 0 ∷ 6 ∷ 0 ∷ 0 ∷ 0 ∷ 0 ∷ 0 ∷ 0 ∷ 0 ∷ 1 ∷ [];
  in_pos = 0;
  out_pos = 16;
  last_pos = 16;
})

unbind_lem :
    (contents unbind_receiver.receive_buf ≡ (send_unbind 1 new_sender).send_buf ++ [])
    × (contents unbind_resp_receiver.receive_buf
        ≡ (attempt (unbind_resp_op 2 (next_sequence_number 0)) new_sender).send_buf ++ [])
unfolding contents size send_unbind attempt next_sequence_number serialize_header serialize_u32
unbind_lem = (refl, refl)

send_unbind-unbinded_example :
    (receive_loop 1 unbind_receiver
      ≡ some (sends unbind_receiver CommandId.unbind_resp (some (next_sequence_number 0))))
    × (after_send_unbind_resp no_error unbind_receiver
        ≡ some (closes (consumed unbind_receiver) unbinded))
    × (contents (consumed unbind_receiver).receive_buf ≡ [])
    × (receive_loop 1 unbind_resp_receiver ≡ some (closes (consumed unbind_resp_receiver) unbinded))
    × (contents (consumed unbind_resp_receiver).receive_buf ≡ [])
send_unbind-unbinded_example =
    send_unbind-unbinded 1 2 new_sender new_sender 0 unbind_resp_receiver unbind_receiver [] [] refl
      refl (omega arith) (omega arith) refl refl (unbind_lem.0) (unbind_lem.1)

-- Nothing arrives at first; then an enquire_link goes out, and the query arrives at once.
abbrev waits : Receiver
waits = record (new_receiver (record empty { last_pos = 21 })) { needs_post = false }

abbrev waits_again : Receiver
waits_again = record waits { pending_enquire_link = true }

abbrev has_query : Receiver
has_query = record waits { receive_buf = record empty { buf = query_write.frame; last_pos = 21 } }
