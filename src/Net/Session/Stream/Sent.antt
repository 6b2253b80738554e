-- ===== src/Net/Session/Stream/Sent.antt =====
-- A stream of whole frames, and what the caller at its end is to be given.
use smpp.Common.{Bool, true, ◌⊎◌, ℕ, ◌≤◌, ◌≡◌, List, [], ◌∷◌, ◌++◌, length, drop}
use smpp.Exceptions.{Bytes}
use smpp.CommandId
use smpp.Header.{header_length, deserialize_header}
use smpp.Net.PduVariant.{receive_pdu}
use smpp.Net.Session.Send.Lock.{IsFrame}
use smpp.Net.Session.Receive.Framing.{IsPduFrame}
use smpp.Net.Session.Stream.{Delivery}

-- What a PDU for the caller is delivered as.
abbrev pub delivery : Bytes → Delivery
delivery frame =
    let h = deserialize_header frame in
    (receive_pdu h.command_id frame (drop header_length frame), h.sequence_number, h.command_status)

-- A peer sends PDUs for the caller, enquire_links and their responses, each of which fits into the
-- buffer, and, where the flag says so, unbinds and their responses; the list has the PDUs for the
-- caller, as they are delivered.
pub data Sent (total : ℕ) (leaving : Bool) : List Bytes → List Delivery → Type 0 where
  silent : Sent total leaving [] []
  pdu :
      {frames : List Bytes} {ds : List Delivery} (frame : Bytes)
      → IsPduFrame frame
      → length frame ≤ total
      → Sent total leaving frames ds
      → Sent total leaving (frame ∷ frames) (delivery frame ∷ ds)
  asks :
      {frames : List Bytes} {ds : List Delivery} (frame : Bytes)
      → IsFrame frame
      → length frame ≤ total
      → (deserialize_header frame).command_id ≡ CommandId.enquire_link
      → Sent total leaving frames ds
      → Sent total leaving (frame ∷ frames) ds
  answers :
      {frames : List Bytes} {ds : List Delivery} (frame : Bytes)
      → IsFrame frame
      → length frame ≤ total
      → (deserialize_header frame).command_id ≡ CommandId.enquire_link_resp
      → Sent total leaving frames ds
      → Sent total leaving (frame ∷ frames) ds
  quits :
      {frames : List Bytes} {ds : List Delivery} (frame : Bytes)
      → leaving ≡ true
      → IsFrame frame
      → length frame ≤ total
      → ((deserialize_header frame).command_id ≡ CommandId.unbind)
        ⊎ ((deserialize_header frame).command_id ≡ CommandId.unbind_resp)
      → Sent total leaving frames ds
      → Sent total leaving (frame ∷ frames) ds

abbrev pub stream : List Bytes → Bytes
stream [] = []
stream (frame ∷ frames) = frame ++ stream frames
