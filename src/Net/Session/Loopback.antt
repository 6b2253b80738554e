-- ===== src/Net/Session/Loopback.antt =====
-- A PDU that one session sends, as the other one receives it.
use smpp.Common.{
  ℕ, suc, ◌+◌, ◌%◌, ◌^◌, ◌<◌, ◌≡◌, ◌≢◌, sym, ap, subst, ◌∙◌, arith, ◌++◌, length, drop, some, false,
}
use smpp.Exceptions.{Bytes, ok}
use smpp.CommandId.{CommandId}
use smpp.CommandId
use smpp.Header.{Header, header_length, serialize_header, deserialize_header}
use smpp.Header.RoundTrip.{
  IsU32, IsHeader, deserialize_header-serialize_header, length-serialize_header,
}
use smpp.Net.FlatBuffer.{contents}
use smpp.Net.FlatBuffer.Invariant.{IsBuffer}
use smpp.Net.PduVariant.{PduVariant, receive_pdu}
use smpp.Net.PduVariant.Dispatch.{
  IsVariant, variant_id, variant_body, deserialize_variant-variant_body,
}
use smpp.Net.PduVariant.Total.{receive_pdu-ok}
use smpp.Net.Session.Send.{header_space}
use smpp.Net.Session.Send.Lock.{serialize_header-IsFrame}
use smpp.Net.Session.Receive.{Receiver, delivers, consumed, receive_loop}
use smpp.Net.Session.Receive.Framing.{IsPduFrame, receive_loop-delivers}
use smpp.Net.PduVariant.{
  alert_notification_pdu, bind_receiver_pdu, bind_receiver_resp_pdu, bind_transceiver_pdu,
}
use smpp.Net.PduVariant.{
  bind_transceiver_resp_pdu, bind_transmitter_pdu, bind_transmitter_resp_pdu, cancel_sm_pdu,
}
use smpp.Net.PduVariant.{cancel_sm_resp_pdu, data_sm_pdu, data_sm_resp_pdu, deliver_sm_pdu}
use smpp.Net.PduVariant.{deliver_sm_resp_pdu, generic_nack_pdu, outbind_pdu, query_sm_pdu}
use smpp.Net.PduVariant.{query_sm_resp_pdu, replace_sm_pdu, replace_sm_resp_pdu, submit_sm_pdu}
use smpp.Net.PduVariant.{submit_sm_resp_pdu, invalid_pdu}

-- The ids that the session does not keep for itself.
abbrev pub IsData : CommandId → Type 0
IsData id =
    IsU32 id
    × (id ≢ CommandId.enquire_link)
    × (id ≢ CommandId.enquire_link_resp)
    × (id ≢ CommandId.unbind)
    × (id ≢ CommandId.unbind_resp)

variant_id-IsData : (v : PduVariant) → IsVariant v → IsData (variant_id v)
variant_id-IsData (alert_notification_pdu pdu) h = omega arith
variant_id-IsData (bind_receiver_pdu pdu) h = omega arith
variant_id-IsData (bind_receiver_resp_pdu pdu) h = omega arith
variant_id-IsData (bind_transceiver_pdu pdu) h = omega arith
variant_id-IsData (bind_transceiver_resp_pdu pdu) h = omega arith
variant_id-IsData (bind_transmitter_pdu pdu) h = omega arith
variant_id-IsData (bind_transmitter_resp_pdu pdu) h = omega arith
variant_id-IsData (cancel_sm_pdu pdu) h = omega arith
variant_id-IsData (cancel_sm_resp_pdu pdu) h = omega arith
variant_id-IsData (data_sm_pdu pdu) h = omega arith
variant_id-IsData (data_sm_resp_pdu pdu) h = omega arith
variant_id-IsData (deliver_sm_pdu pdu) h = omega arith
variant_id-IsData (deliver_sm_resp_pdu pdu) h = omega arith
variant_id-IsData (generic_nack_pdu pdu) h = omega arith
variant_id-IsData (outbind_pdu pdu) h = omega arith
variant_id-IsData (query_sm_pdu pdu) h = omega arith
variant_id-IsData (query_sm_resp_pdu pdu) h = omega arith
variant_id-IsData (replace_sm_pdu pdu) h = omega arith
variant_id-IsData (replace_sm_resp_pdu pdu) h = omega arith
variant_id-IsData (submit_sm_pdu pdu) h = omega arith
variant_id-IsData (submit_sm_resp_pdu pdu) h = omega arith
variant_id-IsData (invalid_pdu pdu) h = absurd h

-- The header that a send operation writes before the body of a PDU.
abbrev pub pdu_header : PduVariant → ℕ → ℕ → Header
pdu_header v status number = record {
  command_length = length (header_space ++ variant_body v) % 2 ^ 32;
  command_id = variant_id v;
  command_status = status;
  sequence_number = number;
}

abbrev pub pdu_frame : PduVariant → ℕ → ℕ → Bytes
pdu_frame v status number =
    serialize_header (header_space ++ variant_body v) (pdu_header v status number)

-- What is asked of a PDU that is sent with this status and number.
pub record IsOutgoing (v : PduVariant) (status number : ℕ) : Type 0 where
  pub is_variant : IsVariant v
  pub status_u32 : IsU32 status
  pub number_u32 : IsU32 number
  pub short : length (variant_body v) + header_length < 2 ^ 32

module _ (v : PduVariant) (status number : ℕ) (o : IsOutgoing v status number) where
  pdu_header-IsHeader : IsHeader (pdu_header v status number)
  pdu_header-IsHeader =
      (omega arith, (variant_id-IsData v o.is_variant).0, o.status_u32, o.number_u32)

  pub deserialize_header-pdu_frame :
      deserialize_header (pdu_frame v status number) ≡ pdu_header v status number
  deserialize_header-pdu_frame =
      (deserialize_header-serialize_header (header_space ++ variant_body v)
        (pdu_header v status number) pdu_header-IsHeader).0

  pub pdu_frame-IsPduFrame : IsPduFrame (pdu_frame v status number)
  pdu_frame-IsPduFrame =
      let (u, a, b, c, d) = variant_id-IsData v o.is_variant in
      let id : (deserialize_header (pdu_frame v status number)).command_id ≡ variant_id v =
        ap (λ (h : Header). h.command_id) deserialize_header-pdu_frame in
      record {
        is_frame =
            serialize_header-IsFrame (header_space ++ variant_body v) (pdu_header v status number)
              pdu_header-IsHeader (omega arith) (omega (arith, o.short));
        not_enquire_link = subst (λ i. i ≢ CommandId.enquire_link) (sym id) a;
        not_enquire_link_resp = subst (λ i. i ≢ CommandId.enquire_link_resp) (sym id) b;
        not_unbind = subst (λ i. i ≢ CommandId.unbind) (sym id) c;
        not_unbind_resp = subst (λ i. i ≢ CommandId.unbind_resp) (sym id) d;
      }

  pub length-pdu_frame :
      length (pdu_frame v status number) ≡ length (variant_body v) + header_length
  length-pdu_frame = omega (
    arith,
    length-serialize_header (header_space ++ variant_body v) (pdu_header v status number)
        (omega arith),
  )

  -- The frame is dispatched to the PDU that it was made of.
  pub receive_pdu-pdu_frame :
      receive_pdu
        (variant_id v)
        (pdu_frame v status number)
        (drop header_length (pdu_frame v status number))
      ≡ ok v
  receive_pdu-pdu_frame =
      ap (receive_pdu (variant_id v) (pdu_frame v status number)) (
        (deserialize_header-serialize_header (header_space ++ variant_body v)
          (pdu_header v status number) pdu_header-IsHeader).1)
      ∙ receive_pdu-ok (variant_id v) (pdu_frame v status number) (variant_body v) v
          (deserialize_variant-variant_body v o.is_variant)

-- A PDU of the 21 types whose fields its rules can carry and whose length a uint32_t can hold,
-- written behind its header as the send operations write it, is what the receive operation
-- delivers, with the same status and sequence number, when those bytes are the first of its buffer
-- and it neither waits for more bytes nor has to post; the bytes behind them stay.
pub receive_loop-pdu_frame :
    (v : PduVariant) (status number fuel : ℕ) (r : Receiver) (rest : Bytes)
    → IsOutgoing v status number
    → IsBuffer r.receive_buf
    → r.needs_more ≡ false
    → r.needs_post ≡ false
    → contents r.receive_buf ≡ pdu_frame v status number ++ rest
    → (receive_loop (suc fuel) r ≡ some (delivers (consumed r) (ok v) number status))
      × (contents (consumed r).receive_buf ≡ rest)
receive_loop-pdu_frame v status number fuel r rest o buffer m p e =
    let frame = pdu_frame v status number in
    let (delivered, left) =
      receive_loop-delivers r buffer frame rest (pdu_frame-IsPduFrame v status number o) fuel m p
        e in
    (
      delivered
          ∙ ap
              (λ (h : Header). some (
                delivers (consumed r) (receive_pdu h.command_id frame (drop header_length frame))
                  h.sequence_number h.command_status))
              (deserialize_header-pdu_frame v status number o)
          ∙ ap (λ pdu. some (delivers (consumed r) pdu number status))
              (receive_pdu-pdu_frame v status number o),
      left,
    )
