-- ===== src/Net/Session/Stream/Pdus.antt =====
-- PDUs as they are sent one after the other: a stream of whole frames.
use smpp.Common.{Bool, ℕ, ◌≤◌, ◌≡◌, ap, subst, ◌∙◌, List, [], ◌∷◌, All, length, map, drop}
use smpp.Exceptions.{Bytes, Result, ok}
use smpp.Header.{Header, header_length}
use smpp.Net.PduVariant.{PduVariant, receive_pdu}
use smpp.Net.Session.Loopback.{
  IsOutgoing, pdu_frame, pdu_frame-IsPduFrame, deserialize_header-pdu_frame, receive_pdu-pdu_frame,
}
use smpp.Net.Session.Stream.{Delivery}
use smpp.Net.Session.Stream.Sent.{Sent, silent, pdu, delivery}

-- A PDU with its status and its number.
pub record Outgoing : Type 0 where
  pub variant : PduVariant
  pub status : ℕ
  pub number : ℕ

abbrev pub frame_of : Outgoing → Bytes
frame_of o = pdu_frame o.variant o.status o.number

abbrev pub given : Outgoing → Delivery
given o = (ok o.variant, o.number, o.status)

-- It can be sent, and fits into a buffer.
abbrev pub Fits : ℕ → Outgoing → Type 0
Fits total o = IsOutgoing o.variant o.status o.number × (length (frame_of o) ≤ total)

delivery-frame_of :
    (o : Outgoing) → IsOutgoing o.variant o.status o.number → delivery (frame_of o) ≡ given o
delivery-frame_of o v =
    ap
      (λ (h : Header). (
        receive_pdu h.command_id (frame_of o) (drop header_length (frame_of o)),
        h.sequence_number,
        h.command_status,
      ))
      (deserialize_header-pdu_frame o.variant o.status o.number v)
    ∙ ap (λ (r : Result PduVariant). (r, o.number, o.status))
        (receive_pdu-pdu_frame o.variant o.status o.number v)

pub outgoing-Sent :
    (total : ℕ) (leaving : Bool) (os : List Outgoing)
    → All (Fits total) os
    → Sent total leaving (map frame_of os) (map given os)
outgoing-Sent total leaving [] v = silent
outgoing-Sent total leaving (o ∷ os) (v, vs) =
    subst (λ d. Sent total leaving (map frame_of (o ∷ os)) (d ∷ map given os))
      (delivery-frame_of o v.0)
      (pdu (frame_of o) (pdu_frame-IsPduFrame o.variant o.status o.number v.0) v.1
        (outgoing-Sent total leaving os vs))
