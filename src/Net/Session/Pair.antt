-- ===== src/Net/Session/Pair.antt =====
-- Two sessions that are joined, and both callers: each session sends, answers, asks and receives while
-- the other one does, and the receive operation sends its commands by the send operations.
pub mod Holds
pub mod Ends
pub mod Prefix
use smpp.Common.{
  ℕ, suc, ◌≤◌, ◌≡◌, Bool, true, List, [], ◌∷◌, ◌++◌, length, Option, none, some, if◌then◌else◌,
  ◌==◌,
}
use smpp.CommandId.{CommandId}
use smpp.CommandId
use smpp.Exceptions.{Bytes, Result}
use smpp.Header.{header_length}
use smpp.Header.RoundTrip.{IsU32}
use smpp.Net.FlatBuffer.{FlatBuffer}
use smpp.Net.PduVariant.{PduVariant}
use smpp.Net.Session.{ErrorCode}
use smpp.Net.Session.Sequence.{next_sequence_number}
use smpp.Net.Session.Send.{Completion, Sender, new_sender, attempt}
use smpp.Net.Session.Receive.{
  Receiver, Effect, reads, posts, sends, delivers, fails, receive_loop, after_post, after_read,
  after_send_unbind, after_send_enquire_link, after_send_enquire_link_resp, after_send_unbind_resp,
  new_receiver,
}
use smpp.Net.Session.Stream.{Delivery, room}
use smpp.Net.Session.Stream.Sent.{stream}
use smpp.Net.Session.Connection.{
  Message, request_of, response_of, command_of, IsOwn, IsMessage, call, renumbered, Events,
}

-- Where the receive operation stands: at a wait, or at an async_send_command of its own, which is the
-- send operation of that id.
pub data Operation : Type 0 where
  waits : Option Effect → Operation
  sending : Receiver → CommandId → ℕ → Operation

-- The completion of async_send_command, by what was sent.
pub after_send : ℕ → CommandId → ErrorCode → Receiver → Option Effect
unfolding after_send_enquire_link after_send_enquire_link_resp after_send_unbind
    after_send_unbind_resp
after_send fuel id ec r =
    if id == CommandId.enquire_link
    then after_send_enquire_link fuel ec r
    else if id == CommandId.enquire_link_resp
    then after_send_enquire_link_resp fuel r
    else if id == CommandId.unbind
    then after_send_unbind r
    else after_send_unbind_resp ec r

-- One session and its caller: what was given to the caller by the calls of async_receive before the
-- last one, the bytes that wait in its socket, and the PDUs of its writes that ended without an error.
pub record Endpoint : Type 0 where
  pub sender : Sender
  pub operation : Operation
  pub inbox : Bytes
  pub given : List Delivery
  pub gone : List Delivery

abbrev pub new_endpoint : ℕ → FlatBuffer → Endpoint
new_endpoint fuel b = record {
  sender = new_sender;
  operation = waits (receive_loop fuel (new_receiver b));
  inbox = [];
  given = [];
  gone = [];
}

-- The number that the receive operation gives its command: the one that it names, or the next one.
abbrev pub own_number : Option ℕ → Sender → ℕ
own_number none s = next_sequence_number s.sequence_number
own_number (some number) s = number

abbrev pub numbered_by : Option ℕ → Sender → Sender
numbered_by none s = renumbered s
numbered_by (some number) s = s

-- What the caller sends by async_send.
abbrev pub IsPduMessage : Message → Type 0
IsPduMessage (request_of v) = Unit {0}
IsPduMessage (response_of v number status) = Unit {0}
IsPduMessage (command_of id number) = ⊥

module _ (message : ℕ → Message) (total : ℕ) where
  -- What one session and its caller do, with the frames that go out.
  pub data Acts : Endpoint → List Bytes → Endpoint → Type 0 where
    calls :
        {x : Endpoint} (id : ℕ)
        → IsPduMessage (message id)
        → IsMessage total true (message id)
        → Acts x [] (record x { sender = attempt (call message id) x.sender })
    unbinds :
        {x : Endpoint} (id : ℕ)
        → message id ≡ command_of CommandId.unbind (next_sequence_number x.sender.sequence_number)
        → Acts x [] (record x { sender = attempt (call message id) (renumbered x.sender) })
    goes_on :
        {x : Endpoint} {out : List Delivery} {frames : List Bytes} {s : Sender}
        → Events message x.sender out frames s
        → Acts x frames (record x { sender = s; gone = x.gone ++ out })
    sends_own :
        {x : Endpoint} (id : ℕ) (r : Receiver) (own : CommandId) (number : Option ℕ)
        → x.operation ≡ waits (some (sends r own number))
        → IsOwn true own
        → IsU32 (own_number number x.sender)
        → message id ≡ command_of own (own_number number x.sender)
        → Acts x [] (record x {
          sender = attempt (call message id) (numbered_by number x.sender);
          operation = sending r own id;
        })
    own_sent :
        {x : Endpoint} (r : Receiver) (own : CommandId) (done : Completion)
        (before behind : List Completion)
        → x.operation ≡ sending r own done.id
        → x.sender.completed ≡ before ++ (done ∷ behind)
        → Acts x [] (record x {
          sender = record x.sender { completed = before ++ behind };
          operation = waits (after_send (suc total) own done.ec r);
        })
    reads_end :
        {x : Endpoint} (r : Receiver) (chunk later : Bytes) (ec : ErrorCode) (cancelled : Bool)
        → x.operation ≡ waits (some (reads r))
        → x.inbox ≡ chunk ++ later
        → length chunk ≤ room r.receive_buf
        → Acts x [] (record x {
          operation = waits (after_read (suc total) chunk ec cancelled r);
          inbox = later;
        })
    posted :
        {x : Endpoint} (r : Receiver)
        → x.operation ≡ waits (some (posts r))
        → Acts x [] (record x { operation = waits (after_post r) })
    given_to :
        {x : Endpoint} (r : Receiver) (pdu : Result PduVariant) (number status : ℕ)
        → x.operation ≡ waits (some (delivers r pdu number status))
        → Acts x [] (record x {
          operation = waits (receive_loop (suc total) (new_receiver r.receive_buf));
          given = x.given ++ ((pdu, number, status) ∷ []);
        })
    tries_again :
        {x : Endpoint} (r : Receiver) (ec : ErrorCode)
        → x.operation ≡ waits (some (fails r ec))
        → Acts x []
            (record x { operation = waits (receive_loop (suc total) (new_receiver r.receive_buf)) })

abbrev pub arriving : List Bytes → Endpoint → Endpoint
arriving frames x = record x { inbox = x.inbox ++ stream frames }

-- The histories of two new sessions that are joined.
pub data Meets (ours theirs : ℕ → Message) (total : ℕ) (b c : FlatBuffer)
    : Endpoint → Endpoint → Type 0 where
  opens : Meets ours theirs total b c (new_endpoint (suc total) b) (new_endpoint (suc total) c)
  we_act :
      {x y z : Endpoint} {frames : List Bytes}
      → Meets ours theirs total b c x y
      → Acts ours total x frames z
      → Meets ours theirs total b c z (arriving frames y)
  they_act :
      {x y z : Endpoint} {frames : List Bytes}
      → Meets ours theirs total b c x y
      → Acts theirs total y frames z
      → Meets ours theirs total b c (arriving frames x) z
