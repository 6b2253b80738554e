-- ===== src/Example/Program.antt =====
-- A coroutine that uses a session, as the two examples are: what it co_awaits at each point, and the
-- steps that it takes with the session.
pub mod Trace
pub mod Sending
pub mod Calls
pub mod Gone
pub mod Background
pub mod Follows
use smpp.Common.{ℕ, suc, ◌≡◌, Bool, true, false, List, [], ◌∷◌, ◌++◌, Option, none, some}
use smpp.CommandId
use smpp.Exceptions.{Bytes, Result}
use smpp.Net.PduVariant.{PduVariant}
use smpp.Net.Session.{ErrorCode, no_error}
use smpp.Net.Session.Sequence.{next_sequence_number}
use smpp.Net.Session.Send.{Completion, attempt}
use smpp.Net.Session.Send.Once.{only, pending, finished}
use smpp.Net.Session.Receive.{Receiver, delivers, fails, closes, receive_loop, new_receiver}
use smpp.Net.Session.Stream.{Delivery}
use smpp.Net.Session.Connection.{Message, command_of, IsMessage, call, renumbered}
use smpp.Net.Session.Pair.{
  waits, Endpoint, IsPduMessage, Acts, calls, unbinds, goes_on, sends_own, own_sent, reads_end,
  posted, given_to, tries_again,
}

-- What a coroutine co_awaits, and where it goes on. The function of async_receive has no value where
-- std::get throws std::bad_variant_access.
pub data Action (P : Type 0) : Type 0 where
  async_send : Message → P → Action P
  async_send_unbind : P → Action P
  async_receive : (Result PduVariant → ℕ → Option P) → Action P
  async_wait : P → Action P
  co_return : Action P

-- `std::get` on a variant that may hold another alternative.
abbrev pub get : {P : Type 0} → Bool → P → Option P
get true p = some p
get false p = none

-- Where a coroutine stands: before what it awaits at a point, in the send of an id, or in an exception.
pub data Thread (P : Type 0) : Type 0 where
  at : P → Thread P
  sending : ℕ → P → Thread P
  unbinding : ℕ → P → Thread P
  system_error : Thread P
  bad_variant_access : Thread P

-- The awaitable of an operation throws where the operation ends with an error.
abbrev pub resumed : {P : Type 0} → ErrorCode → P → Thread P
resumed no_error p = at p
resumed ec p = system_error

abbrev pub received : {P : Type 0} → Option P → Thread P
received (some p) = at p
received none = bad_variant_access

-- The acts of the session alone.
abbrev pub IsBackground :
    {message : ℕ → Message} {total : ℕ} {x z : Endpoint} {frames : List Bytes}
    → Acts message total x frames z
    → Type 0
IsBackground (calls id pdu h) = ⊥
IsBackground (unbinds id e) = ⊥
IsBackground (goes_on event) = Unit {0}
IsBackground (sends_own id r own number o known u e) = Unit {0}
IsBackground (own_sent r own done before behind o c) = Unit {0}
IsBackground (reads_end r chunk later ec cancelled o i fits) = Unit {0}
IsBackground (posted r o) = Unit {0}
IsBackground (given_to r pdu number status o) = ⊥
IsBackground (tries_again r ec o) = ⊥

module _ {P : Type 0} (program : P → Action P) where
  -- The steps that change nothing but the coroutine.
  pub data Observes (x : Endpoint) : Thread P → Thread P → Type 0 where
    sent :
        {p : P} (done : Completion) (before behind : List Completion)
        → x.sender.completed ≡ before ++ (done ∷ behind)
        → Observes x (sending done.id p) (resumed done.ec p)
    unbind_sent :
        {p : P} (done : Completion) (before behind : List Completion)
        → x.sender.completed ≡ before ++ (done ∷ behind)
        → Observes x (unbinding done.id p) (resumed done.ec p)
    waited : {p q : P} → program p ≡ async_wait q → Observes x (at p) (at q)
    receive_failed :
        {p : P} (k : Result PduVariant → ℕ → Option P) (r : Receiver) (ec : ErrorCode)
        → program p ≡ async_receive k
        → x.operation ≡ waits (some (fails r ec))
        → Observes x (at p) system_error
    receive_closed :
        {p : P} (k : Result PduVariant → ℕ → Option P) (r : Receiver) (ec : ErrorCode)
        → program p ≡ async_receive k
        → x.operation ≡ waits (some (closes r ec))
        → Observes x (at p) system_error

  module _ (message : ℕ → Message) (total : ℕ) where
    -- The steps of the coroutine with its session. The id of a call is new.
    pub data Plays : Endpoint → Thread P → List Bytes → Endpoint → Thread P → Type 0 where
      sends :
          {x : Endpoint} {p q : P} (id : ℕ)
          → program p ≡ async_send (message id) q
          → IsPduMessage (message id)
          → IsMessage total true (message id)
          → pending (only id) x.sender ≡ 0
          → finished (only id) x.sender ≡ 0
          → Plays x
              (at p)
              []
              (record x { sender = attempt (call message id) x.sender })
              (sending id q)
      leaves :
          {x : Endpoint} {p q : P} (id : ℕ)
          → program p ≡ async_send_unbind q
          → message id ≡ command_of CommandId.unbind (next_sequence_number x.sender.sequence_number)
          → Plays x
              (at p)
              []
              (record x { sender = attempt (call message id) (renumbered x.sender) })
              (unbinding id q)
      receives :
          {x : Endpoint} {p : P} (k : Result PduVariant → ℕ → Option P) (r : Receiver)
          (pdu : Result PduVariant) (number status : ℕ)
          → program p ≡ async_receive k
          → x.operation ≡ waits (some (delivers r pdu number status))
          → Plays x
              (at p)
              []
              (record x {
                operation = waits (receive_loop (suc total) (new_receiver r.receive_buf));
                given = x.given ++ ((pdu, number, status) ∷ []);
              })
              (received (k pdu number))
      meanwhile :
          {x z : Endpoint} {t : Thread P} {frames : List Bytes}
          (act : Acts message total x frames z)
          → IsBackground act
          → Plays x t frames z t

    -- Every step is an act of the session.
    pub Plays-Acts :
        {x z : Endpoint} {t u : Thread P} {frames : List Bytes}
        → Plays x t frames z u
        → Acts message total x frames z
    Plays-Acts (sends id e pdu h new never) = calls id pdu h
    Plays-Acts (leaves id e c) = unbinds id c
    Plays-Acts (receives k r pdu number status e o) = given_to r pdu number status o
    Plays-Acts (meanwhile act b) = act
