-- ===== src/Net/Session/Silence.antt =====
-- Reads that time out between those that receive something.
pub mod Good
pub mod Loop
pub mod Prefix
use smpp.Common.{ℕ, suc, ◌≤◌, List, [], ◌∷◌, ◌++◌, length, some, none, false, Option}
use smpp.CommandId
use smpp.Exceptions.{Bytes, Result}
use smpp.Net.FlatBuffer.{FlatBuffer}
use smpp.Net.PduVariant.{PduVariant}
use smpp.Net.Session.{no_error, operation_aborted}
use smpp.Net.Session.Receive.{
  Receiver, Effect, reads, posts, sends, delivers, receive_loop, after_post, after_read,
  after_send_enquire_link, after_send_enquire_link_resp, new_receiver,
}
use smpp.Net.Session.Stream.{Delivery, room}

-- The histories of a caller that receives again and again: the bytes that have not arrived yet, what
-- its operation waits for, and what it was given. A read receives any part of those bytes, or times
-- out; what the operation sends goes out.
pub data Hears (inner : ℕ) (b : FlatBuffer) (bytes : Bytes)
    : Bytes → Option Effect → List Delivery → Type 0 where
  begins : Hears inner b bytes bytes (receive_loop inner (new_receiver b)) []
  arrives :
      {given : List Delivery} (r : Receiver) (chunk later : Bytes)
      → 1 ≤ length chunk
      → length chunk ≤ room r.receive_buf
      → Hears inner b bytes (chunk ++ later) (some (reads r)) given
      → Hears inner b bytes later (after_read inner chunk no_error false r) given
  times_out :
      {given : List Delivery} {later : Bytes} (r : Receiver)
      → Hears inner b bytes later (some (reads r)) given
      → Hears inner b bytes later (after_read inner [] operation_aborted false r) given
  asked :
      {given : List Delivery} {later : Bytes} (r : Receiver) (number : Option ℕ)
      → Hears inner b bytes later (some (sends r CommandId.enquire_link number)) given
      → Hears inner b bytes later (after_send_enquire_link inner no_error r) given
  answered :
      {given : List Delivery} {later : Bytes} (r : Receiver) (number : Option ℕ)
      → Hears inner b bytes later (some (sends r CommandId.enquire_link_resp number)) given
      → Hears inner b bytes later (after_send_enquire_link_resp inner r) given
  posted :
      {given : List Delivery} {later : Bytes} (r : Receiver)
      → Hears inner b bytes later (some (posts r)) given
      → Hears inner b bytes later (after_post r) given
  given_to :
      {given : List Delivery} {later : Bytes} (r : Receiver) (pdu : Result PduVariant)
      (number status : ℕ)
      → Hears inner b bytes later (some (delivers r pdu number status)) given
      → Hears inner b bytes later
          (receive_loop inner (new_receiver r.receive_buf))
          (given ++ ((pdu, number, status) ∷ []))
