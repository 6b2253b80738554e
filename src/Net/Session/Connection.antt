-- ===== src/Net/Session/Connection.antt =====
-- Two sessions that are joined: what one of them sends, by any interleaving of its operations, and
-- what the caller of the other one is given.
pub mod Frames
pub mod Invariant
pub mod Steps
pub mod Moves
pub mod Delivered
use smpp.Common.{false, ℕ, ◌+◌, ◌≤◌, ◌≡◌, ◌⊎◌, Bool, true, List, [], ◌∷◌, ◌++◌, length}
use smpp.Exceptions.{Bytes, Exception, Result, ok, throws}
use smpp.CommandId.{CommandId, request_pdu, response_pdu}
use smpp.CommandId
use smpp.Header.{header_length, rok}
use smpp.Header.RoundTrip.{IsU32}
use smpp.Serialization.{serialize_to}
use smpp.Pdu.Bind.{bind_receiver, bind_transmitter, bind_transceiver}
use smpp.Pdu.BindResp.{bind_receiver_resp, bind_transmitter_resp, bind_transceiver_resp, outbind}
use smpp.Pdu.Submit.{submit_sm, submit_sm_resp}
use smpp.Pdu.Deliver.{deliver_sm, deliver_sm_resp}
use smpp.Pdu.Transfer.{data_sm, data_sm_resp, alert_notification, generic_nack}
use smpp.Pdu.Query.{query_sm, query_sm_resp, cancel_sm, cancel_sm_resp}
use smpp.Pdu.Replace.{replace_sm, replace_sm_resp}
use smpp.Net.PduVariant.{
  PduVariant, alert_notification_pdu, bind_receiver_pdu, bind_receiver_resp_pdu,
  bind_transceiver_pdu, bind_transceiver_resp_pdu, bind_transmitter_pdu, bind_transmitter_resp_pdu,
  cancel_sm_pdu, cancel_sm_resp_pdu, data_sm_pdu, data_sm_resp_pdu, deliver_sm_pdu,
  deliver_sm_resp_pdu, generic_nack_pdu, outbind_pdu, query_sm_pdu, query_sm_resp_pdu,
  replace_sm_pdu, replace_sm_resp_pdu, submit_sm_pdu, submit_sm_resp_pdu, invalid_pdu,
}
use smpp.Net.PduVariant.Dispatch.{IsVariant, variant_id, variant_body}
use smpp.Net.Session.{ErrorCode, no_error, operation_aborted}
use smpp.Net.Session.Sequence.{next_sequence_number}
use smpp.Net.Session.Send.{
  Kind, command, request, response, SendOp, Write, Sender, new_sender, header_space, attempt,
  resume, write_end,
}
use smpp.Net.Session.Stream.{Delivery}

-- `serialize_to` on the alternative that the variant holds; an invalid_pdu cannot be sent.
unfoldable pub serialize_variant : PduVariant → Bytes → Result Bytes
serialize_variant (alert_notification_pdu pdu) vec = serialize_to vec pdu
serialize_variant (bind_receiver_pdu pdu) vec = serialize_to vec pdu
serialize_variant (bind_receiver_resp_pdu pdu) vec = serialize_to vec pdu
serialize_variant (bind_transceiver_pdu pdu) vec = serialize_to vec pdu
serialize_variant (bind_transceiver_resp_pdu pdu) vec = serialize_to vec pdu
serialize_variant (bind_transmitter_pdu pdu) vec = serialize_to vec pdu
serialize_variant (bind_transmitter_resp_pdu pdu) vec = serialize_to vec pdu
serialize_variant (cancel_sm_pdu pdu) vec = serialize_to vec pdu
serialize_variant (cancel_sm_resp_pdu pdu) vec = serialize_to vec pdu
serialize_variant (data_sm_pdu pdu) vec = serialize_to vec pdu
serialize_variant (data_sm_resp_pdu pdu) vec = serialize_to vec pdu
serialize_variant (deliver_sm_pdu pdu) vec = serialize_to vec pdu
serialize_variant (deliver_sm_resp_pdu pdu) vec = serialize_to vec pdu
serialize_variant (generic_nack_pdu pdu) vec = serialize_to vec pdu
serialize_variant (outbind_pdu pdu) vec = serialize_to vec pdu
serialize_variant (query_sm_pdu pdu) vec = serialize_to vec pdu
serialize_variant (query_sm_resp_pdu pdu) vec = serialize_to vec pdu
serialize_variant (replace_sm_pdu pdu) vec = serialize_to vec pdu
serialize_variant (replace_sm_resp_pdu pdu) vec = serialize_to vec pdu
serialize_variant (submit_sm_pdu pdu) vec = serialize_to vec pdu
serialize_variant (submit_sm_resp_pdu pdu) vec = serialize_to vec pdu
serialize_variant (invalid_pdu pdu) vec = ok vec

-- What a caller, or the receive operation, has the session send: a request, a response with the
-- number and the status of its own, and one of the session's commands with its number.
pub data Message : Type 0 where
  request_of : PduVariant → Message
  response_of : PduVariant → ℕ → ℕ → Message
  command_of : CommandId → ℕ → Message

abbrev pub kind_of : Message → Kind
kind_of (request_of v) = request (variant_id v) (serialize_variant v)
kind_of (response_of v number status) = response (variant_id v) (serialize_variant v) number status
kind_of (command_of command_id number) = command command_id number

-- The frame of the PDU fits into the buffer of the other session, or the PDU cannot be serialized.
abbrev pub IsSendable : ℕ → PduVariant → Type 0
IsSendable total v =
    (IsVariant v × (length (variant_body v) + header_length ≤ total))
    ⊎ ((e : Exception) × (serialize_variant v header_space ≡ throws e))

-- The commands that a session sends of itself; those of an unbind where the flag says so.
pub data IsOwn (leaving : Bool) (id : CommandId) : Type 0 where
  enquire_link_id : id ≡ CommandId.enquire_link → IsOwn leaving id
  enquire_link_resp_id : id ≡ CommandId.enquire_link_resp → IsOwn leaving id
  unbind_id : leaving ≡ true → id ≡ CommandId.unbind → IsOwn leaving id
  unbind_resp_id : leaving ≡ true → id ≡ CommandId.unbind_resp → IsOwn leaving id

-- What the send operations ask of their arguments.
abbrev pub IsMessage : ℕ → Bool → Message → Type 0
IsMessage total leaving (request_of v) =
    (request_pdu (variant_id v) ≡ true) × IsU32 (variant_id v) × IsSendable total v
IsMessage total leaving (response_of v number status) =
    (response_pdu (variant_id v) ≡ true)
    × IsU32 (variant_id v)
    × IsSendable total v
    × IsU32 number
    × IsU32 status
IsMessage total leaving (command_of command_id number) =
    IsOwn leaving command_id × IsU32 number × (header_length ≤ total)

-- What the other caller is to be given of a message that went out, with the number of its write.
abbrev pub received_as : Message → ℕ → List Delivery
received_as (request_of v) number = (ok v, number, rok) ∷ []
received_as (response_of v number status) reported = (ok v, number, status) ∷ []
received_as (command_of command_id number) reported = []

-- A message goes out when its write ends without an error.
abbrev pub went_out : ErrorCode → Message → ℕ → List Delivery
went_out no_error m number = received_as m number
went_out ec m number = []

abbrev pub frames_out : ErrorCode → Bytes → List Bytes
frames_out no_error frame = frame ∷ []
frames_out ec frame = []

-- The session has taken the next number.
abbrev pub renumbered : Sender → Sender
renumbered s = record s { sequence_number = next_sequence_number s.sequence_number }

module _ (message : ℕ → Message) where
  -- The operation that sends the message of that id.
  abbrev pub call : ℕ → SendOp
  call id = record { id = id; kind = kind_of (message id) }

  -- The events of `Step` but for the calls, with the PDUs and the frames that go out by them.
  pub data Events : Sender → List Delivery → List Bytes → Sender → Type 0 where
    resumes :
        {s : Sender} (op : SendOp) (before behind : List SendOp) (cancelled : Bool)
        → s.woken ≡ before ++ (op ∷ behind)
        → Events s [] []
            (resume op operation_aborted cancelled (record s { woken = before ++ behind }))
    cancels :
        {s : Sender} (op : SendOp) (before behind : List SendOp)
        → s.waiting ≡ before ++ (op ∷ behind)
        → Events s [] []
            (resume op operation_aborted true (record s { waiting = before ++ behind }))
    ends :
        {s : Sender} (w : Write) (before behind : List Write) (ec : ErrorCode) (cancelled : Bool)
        → s.writing ≡ before ++ (w ∷ behind)
        → Events s
            (went_out ec (message w.op.id) w.sequence_number)
            (frames_out ec s.send_buf)
            (write_end w ec cancelled (record s { writing = before ++ behind }))

module _ (message : ℕ → Message) (total : ℕ) where
  -- The histories of a new session until it sends an unbind, with what went out: calls, the
  -- enquire_links of the receive operation, which take a number when they are called, and the events
  -- of the operations, with any errors and cancellations.
  pub data Talk : List Delivery → Sender → Type 0 where
    opens : Talk [] new_sender
    calls :
        {ds : List Delivery} {s : Sender} (id : ℕ)
        → IsMessage total false (message id)
        → Talk ds s
        → Talk ds (attempt (call message id) s)
    keeps_alive :
        {ds : List Delivery} {s : Sender} (id : ℕ)
        → header_length ≤ total
        → message id ≡ command_of CommandId.enquire_link (next_sequence_number s.sequence_number)
        → Talk ds s
        → Talk ds (attempt (call message id) (renumbered s))
    goes_on :
        {ds out : List Delivery} {frames : List Bytes} {s t : Sender}
        → Events message s out frames t
        → Talk ds s
        → Talk (ds ++ out) t
