-- ===== src/Tests/Receiving.antt =====
-- The theorems on the receive operation, at concrete inputs.
use smpp.Common.{◌≡◌, ◌⊎◌, refl, inl, false, arith, [], ◌∷◌, ◌++◌, drop, none, some}
use smpp.Exceptions.{Bytes}
use smpp.CommandId
use smpp.Net.PduVariant.{PduVariant, submit_sm_resp_pdu}
use smpp.Exceptions.{ok}
use smpp.Net.Session.Loopback.{pdu_frame, receive_loop-pdu_frame}
use smpp.Header.{serialize_header, serialize_u32}
use smpp.Header.{header_length, deserialize_header, u32_at, deserialize_u32}
use smpp.Net.FlatBuffer.{FlatBuffer, size, contents}
use smpp.Net.FlatBuffer.Invariant.{IsBuffer}
use smpp.Net.PduVariant.{receive_pdu}
use smpp.Net.Session.{no_error, operation_aborted, enquire_link_timeout}
use smpp.Net.Session.Receive.{
  Receiver, reads, sends, closes, delivers, header, consumed, receive_loop, after_read,
  after_send_enquire_link, after_send_unbind, new_receiver,
}
use smpp.Net.Session.Receive.Framing.{IsPduFrame, receive_loop-delivers}
use smpp.Net.Session.Receive.Fuel.{Skips, receive_loop-Skips}
use smpp.Net.Session.Receive.Rounds.{Ends, Spins, receive_loop-Ends}
use smpp.Net.Session.Receive.Keepalive.{after_read-after_read}

-- A generic_nack without a body, and the first bytes of the next PDU.
abbrev nack : Bytes
nack = 0 ∷ 0 ∷ 0 ∷ 16 ∷ 128 ∷ 0 ∷ 0 ∷ 0 ∷ 0 ∷ 0 ∷ 0 ∷ 3 ∷ 0 ∷ 0 ∷ 0 ∷ 7 ∷ []

abbrev after_nack : Bytes
after_nack = 0 ∷ 0 ∷ []

abbrev full : FlatBuffer
full = record { buf = nack ++ after_nack; in_pos = 0; out_pos = 18; last_pos = 18 }

full-IsBuffer : IsBuffer full
full-IsBuffer = omega arith

nack-IsPduFrame : IsPduFrame nack
unfolding deserialize_header u32_at deserialize_u32
nack-IsPduFrame = record {
  is_frame = (omega arith, refl);
  not_enquire_link = omega arith;
  not_enquire_link_resp = omega arith;
  not_unbind = omega arith;
  not_unbind_resp = omega arith;
}

abbrev receiver : Receiver
receiver = record (new_receiver full) { needs_post = false }

receive_loop-delivers_example :
    (receive_loop 1 receiver
      ≡ some (
          delivers
            (consumed receiver)
            (receive_pdu (deserialize_header nack).command_id nack (drop header_length nack))
            (deserialize_header nack).sequence_number
            (deserialize_header nack).command_status))
    × (contents (consumed receiver).receive_buf ≡ after_nack)
receive_loop-delivers_example =
    receive_loop-delivers receiver full-IsBuffer nack after_nack nack-IsPduFrame 0 refl refl
      (unfold contents size in refl)

-- An enquire_link_resp, and the first bytes of the next PDU.
abbrev answered : Receiver
answered = new_receiver (record {
  buf = 0 ∷ 0 ∷ 0 ∷ 16 ∷ 128 ∷ 0 ∷ 0 ∷ 21 ∷ 0 ∷ 0 ∷ 0 ∷ 0 ∷ 0 ∷ 0 ∷ 0 ∷ 1 ∷ 0 ∷ 0 ∷ [];
  in_pos = 0;
  out_pos = 18;
  last_pos = 18;
})

receive_loop-Ends_example : Ends 19 answered ⊎ Spins answered
receive_loop-Ends_example = receive_loop-Ends 19 answered (omega arith) (unfold size in omega arith)

-- An enquire_link_resp that says that it has no bytes.
abbrev no_progress : Receiver
no_progress = new_receiver (record {
  buf = 0 ∷ 0 ∷ 0 ∷ 0 ∷ 128 ∷ 0 ∷ 0 ∷ 21 ∷ 0 ∷ 0 ∷ 0 ∷ 0 ∷ 0 ∷ 0 ∷ 0 ∷ 1 ∷ [];
  in_pos = 0;
  out_pos = 16;
  last_pos = 16;
})

no_progress-Skips : Skips no_progress
unfolding header deserialize_header u32_at deserialize_u32 contents size
no_progress-Skips = (refl, omega arith, omega arith, refl)

no_progress_length : (header no_progress).command_length ≡ 0
unfolding header deserialize_header u32_at deserialize_u32 contents size
no_progress_length = refl

receive_loop-Skips_example : receive_loop 100 no_progress ≡ none
receive_loop-Skips_example = receive_loop-Skips no_progress no_progress-Skips no_progress_length 100

-- Two bytes of a PDU.
abbrev two_bytes : FlatBuffer
two_bytes = record full { in_pos = 16 }

two_bytes-IsBuffer : IsBuffer two_bytes
two_bytes-IsBuffer = omega arith

after_read-after_read_example :
    (asked again : Receiver) × (after_read 5 [] operation_aborted false (new_receiver two_bytes)
      ≡ some (sends asked CommandId.enquire_link none))
    × (after_send_enquire_link 5 no_error asked ≡ some (reads again))
    × (contents again.receive_buf ≡ contents two_bytes)
    × (after_read 5 [] operation_aborted false again ≡ some (sends again CommandId.unbind none))
    × (after_send_unbind again ≡ some (closes again enquire_link_timeout))
after_read-after_read_example =
    after_read-after_read 5 4 5 (new_receiver two_bytes) two_bytes-IsBuffer
      (refl, inl (unfold size in omega arith)) refl

-- A submit_sm_resp, and the first bytes of the next PDU.
abbrev resp : PduVariant
resp = submit_sm_resp_pdu (record { message_id = 0x61 ∷ [] })

abbrev resp_receiver : Receiver
resp_receiver =
    record (new_receiver (record {
      buf = 0 ∷ 0 ∷ 0 ∷ 18 ∷ 128 ∷ 0 ∷ 0 ∷ 4 ∷ 0 ∷ 0 ∷ 0 ∷ 0 ∷ 0 ∷ 0 ∷ 0 ∷ 7 ∷ 0x61 ∷ 0 ∷ 0 ∷ [];
      in_pos = 0;
      out_pos = 19;
      last_pos = 19;
    })) { needs_post = false }

resp-contents : contents resp_receiver.receive_buf ≡ pdu_frame resp 0 7 ++ (0 ∷ [])
unfolding contents size serialize_header serialize_u32
resp-contents = refl

receive_loop-pdu_frame_example :
    (receive_loop 1 resp_receiver ≡ some (delivers (consumed resp_receiver) (ok resp) 7 0))
    × (contents (consumed resp_receiver).receive_buf ≡ 0 ∷ [])
receive_loop-pdu_frame_example =
    receive_loop-pdu_frame resp 0 7 0 resp_receiver (0 ∷ []) (omega arith) (omega arith) refl refl
      resp-contents
