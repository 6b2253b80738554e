-- ===== src/Net/Session/Connection/Frames.antt =====
-- What each message is sent as, and what the frame is delivered as.
use smpp.Common.{
  Bool, ◌∙◌, inl, inr, ℕ, ◌+◌, ◌≤◌, ◌≡◌, refl, ap, arith, List, [], ◌∷◌, ◌++◌, length,
}
use smpp.Exceptions.{Bytes, ok}
use smpp.CommandId.{CommandId}
use smpp.Header.{Header, header_length, rok, serialize_header, deserialize_header}
use smpp.Header.RoundTrip.{IsU32, deserialize_header-serialize_header, length-serialize_header}
use smpp.Serialization.Pdus.{serialize_to-bytes}
use smpp.Net.PduVariant.{
  PduVariant, alert_notification_pdu, bind_receiver_pdu, bind_receiver_resp_pdu,
  bind_transceiver_pdu, bind_transceiver_resp_pdu, bind_transmitter_pdu, bind_transmitter_resp_pdu,
  cancel_sm_pdu, cancel_sm_resp_pdu, data_sm_pdu, data_sm_resp_pdu, deliver_sm_pdu,
  deliver_sm_resp_pdu, generic_nack_pdu, outbind_pdu, query_sm_pdu, query_sm_resp_pdu,
  replace_sm_pdu, replace_sm_resp_pdu, submit_sm_pdu, submit_sm_resp_pdu, invalid_pdu,
}
use smpp.Pdu.Bind.{bind_receiver, bind_transmitter, bind_transceiver}
use smpp.Pdu.BindResp.{bind_receiver_resp, bind_transmitter_resp, bind_transceiver_resp, outbind}
use smpp.Pdu.Submit.{submit_sm, submit_sm_resp}
use smpp.Pdu.Deliver.{deliver_sm, deliver_sm_resp}
use smpp.Pdu.Transfer.{data_sm, data_sm_resp, alert_notification, generic_nack}
use smpp.Pdu.Query.{query_sm, query_sm_resp, cancel_sm, cancel_sm_resp}
use smpp.Pdu.Replace.{replace_sm, replace_sm_resp}
use smpp.Net.PduVariant.Dispatch.{IsVariant, variant_body}
use smpp.Net.Session.Send.{header_space}
use smpp.Net.Session.Send.Lock.{IsFrame, serialize_header-IsFrame}
use smpp.Net.Session.Loopback.{IsOutgoing, pdu_frame, length-pdu_frame}
use smpp.Net.Session.Stream.{Delivery}
use smpp.Net.Session.Stream.Sent.{Sent, silent, pdu, asks, answers, quits}
use smpp.Net.Session.Stream.Pdus.{outgoing-Sent}
use smpp.Net.Session.Connection.{
  serialize_variant, IsOwn, enquire_link_id, enquire_link_resp_id, unbind_id, unbind_resp_id,
}

pub serialize_variant-bytes :
    (v : PduVariant) (vec : Bytes)
    → IsVariant v
    → serialize_variant v vec ≡ ok (vec ++ variant_body v)
unfolding serialize_variant
serialize_variant-bytes (alert_notification_pdu p) vec h = serialize_to-bytes vec p h
serialize_variant-bytes (bind_receiver_pdu p) vec h = serialize_to-bytes vec p h
serialize_variant-bytes (bind_receiver_resp_pdu p) vec h = serialize_to-bytes vec p h
serialize_variant-bytes (bind_transceiver_pdu p) vec h = serialize_to-bytes vec p h
serialize_variant-bytes (bind_transceiver_resp_pdu p) vec h = serialize_to-bytes vec p h
serialize_variant-bytes (bind_transmitter_pdu p) vec h = serialize_to-bytes vec p h
serialize_variant-bytes (bind_transmitter_resp_pdu p) vec h = serialize_to-bytes vec p h
serialize_variant-bytes (cancel_sm_pdu p) vec h = serialize_to-bytes vec p h
serialize_variant-bytes (cancel_sm_resp_pdu p) vec h = serialize_to-bytes vec p h
serialize_variant-bytes (data_sm_pdu p) vec h = serialize_to-bytes vec p h
serialize_variant-bytes (data_sm_resp_pdu p) vec h = serialize_to-bytes vec p h
serialize_variant-bytes (deliver_sm_pdu p) vec h = serialize_to-bytes vec p h
serialize_variant-bytes (deliver_sm_resp_pdu p) vec h = serialize_to-bytes vec p h
serialize_variant-bytes (generic_nack_pdu p) vec h = serialize_to-bytes vec p h
serialize_variant-bytes (outbind_pdu p) vec h = serialize_to-bytes vec p h
serialize_variant-bytes (query_sm_pdu p) vec h = serialize_to-bytes vec p h
serialize_variant-bytes (query_sm_resp_pdu p) vec h = serialize_to-bytes vec p h
serialize_variant-bytes (replace_sm_pdu p) vec h = serialize_to-bytes vec p h
serialize_variant-bytes (replace_sm_resp_pdu p) vec h = serialize_to-bytes vec p h
serialize_variant-bytes (submit_sm_pdu p) vec h = serialize_to-bytes vec p h
serialize_variant-bytes (submit_sm_resp_pdu p) vec h = serialize_to-bytes vec p h
serialize_variant-bytes (invalid_pdu p) vec h = absurd h

-- One after the other.
pub Sent-append :
    {total : ℕ} {leaving : Bool} {frames others : List Bytes} {ds es : List Delivery}
    → Sent total leaving frames ds
    → Sent total leaving others es
    → Sent total leaving (frames ++ others) (ds ++ es)
Sent-append silent t = t
Sent-append (pdu frame f small s) t = pdu frame f small (Sent-append s t)
Sent-append (asks frame f small id s) t = asks frame f small id (Sent-append s t)
Sent-append (answers frame f small id s) t = answers frame f small id (Sent-append s t)
Sent-append (quits frame l f small id s) t = quits frame l f small id (Sent-append s t)

-- A PDU behind its header.
pub pdu_frame-Sent :
    (total : ℕ) (leaving : Bool) (v : PduVariant) (status number : ℕ)
    → IsOutgoing v status number
    → length (variant_body v) + header_length ≤ total
    → Sent total leaving (pdu_frame v status number ∷ []) ((ok v, number, status) ∷ [])
pdu_frame-Sent total leaving v status number o small =
    outgoing-Sent total leaving (record { variant = v; status = status; number = number } ∷ [])
      ((o, omega (arith, length-pdu_frame v status number o)), tt)

-- A header alone.
abbrev pub command_header : CommandId → ℕ → Header
command_header command_id number = record {
  command_length = header_length;
  command_id = command_id;
  command_status = rok;
  sequence_number = number;
}

module _ (command_id number : ℕ) (c : IsU32 command_id) (n : IsU32 number) where
  pub command-IsFrame : IsFrame (serialize_header header_space (command_header command_id number))
  command-IsFrame =
      serialize_header-IsFrame header_space _ (omega arith, c, omega arith, n) (omega arith) refl

  pub deserialize_header-command :
      deserialize_header (serialize_header header_space (command_header command_id number))
      ≡ command_header command_id number
  deserialize_header-command =
      (deserialize_header-serialize_header header_space (command_header command_id number)
        (omega arith, c, omega arith, n)).0

  length-command :
      length (serialize_header header_space (command_header command_id number)) ≡ header_length
  length-command =
      length-serialize_header header_space (command_header command_id number) (omega arith)

pub IsOwn-IsU32 : (leaving : Bool) (id : CommandId) → IsOwn leaving id → IsU32 id
IsOwn-IsU32 leaving id (enquire_link_id e) = omega arith
IsOwn-IsU32 leaving id (enquire_link_resp_id e) = omega arith
IsOwn-IsU32 leaving id (unbind_id l e) = omega arith
IsOwn-IsU32 leaving id (unbind_resp_id l e) = omega arith

-- A command is a frame that is not delivered.
pub command-Sent :
    (total : ℕ) (leaving : Bool) (command_id number : ℕ)
    → IsOwn leaving command_id
    → IsU32 number
    → header_length ≤ total
    → Sent total leaving (serialize_header header_space (command_header command_id number) ∷ []) []
command-Sent total leaving command_id number own n small = elim own [
  | enquire_link_id e ↦ asks _ frame fits (id ∙ e) silent
  | enquire_link_resp_id e ↦ answers _ frame fits (id ∙ e) silent
  | unbind_id l e ↦ quits _ l frame fits (inl (id ∙ e)) silent
  | unbind_resp_id l e ↦ quits _ l frame fits (inr (id ∙ e)) silent
]
  where
    c : IsU32 command_id
    c = IsOwn-IsU32 leaving command_id own

    frame : IsFrame (serialize_header header_space (command_header command_id number))
    frame = command-IsFrame command_id number c n

    fits : length (serialize_header header_space (command_header command_id number)) ≤ total
    fits = omega (arith, length-command command_id number c n)

    id :
        (deserialize_header
          (serialize_header header_space (command_header command_id number))).command_id
        ≡ command_id
    id = ap (λ (h : Header). h.command_id) (deserialize_header-command command_id number c n)
