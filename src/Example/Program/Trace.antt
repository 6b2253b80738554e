-- ===== src/Example/Program/Trace.antt =====
-- What a coroutine was given and what went out for it, at each point of its program.
use smpp.Common.{ℕ, ◌≡◌, subst, ◌⊎◌, List, [], ◌∷◌, ◌++◌, All, Option, some, none}
use smpp.Exceptions.{Result}
use smpp.Net.PduVariant.{PduVariant}
use smpp.Net.Session.Send.{Completion, Sender}
use smpp.Net.Session.Send.Once.{only, finished, tally}
use smpp.Net.Session.Send.Effects.{InFlight}
use smpp.Net.Session.Stream.{Delivery}
use smpp.Net.Session.Connection.{
  Message, request_of, response_of, command_of, received_as, went_out,
}
use smpp.Net.Session.Connection.Moves.{IsKnown}
use smpp.Net.Session.Pair.{Operation, Endpoint, IsPduMessage}
use smpp.Net.Session.Pair
use smpp.Example.Program.{
  Action, async_send, async_send_unbind, async_receive, async_wait, co_return, Thread, at, sending,
  unbinding, system_error, bad_variant_access,
}

abbrev pub IsCommand : Message → Type 0
IsCommand (request_of v) = ⊥
IsCommand (response_of v number status) = ⊥
IsCommand (command_of id number) = Unit {0}

pub IsCommand-IsPduMessage : (m : Message) → IsPduMessage m → IsCommand m → ⊥
IsCommand-IsPduMessage (request_of v) p c = c
IsCommand-IsPduMessage (response_of v number status) p c = c
IsCommand-IsPduMessage (command_of id number) p c = p

module _ (message : ℕ → Message) where
  abbrev pub IsCommandId : ℕ → Type 0
  IsCommandId id = IsCommand (message id)

  abbrev pub IsCommandOr : ℕ → ℕ → Type 0
  IsCommandOr id j = IsCommandId j ⊎ (j ≡ id)

  -- No PDU of the coroutine is in flight.
  abbrev pub Quiet : Sender → Type 0
  Quiet s = InFlight (IsKnown message IsCommandId) s

  -- The send of one id is awaited: it is in flight or has completed, and its completion says whether
  -- the PDU has gone out.
  pub record Awaits (id : ℕ) (before gone : List Delivery) (s : Sender) : Type 0 where
    pub flying : InFlight (IsKnown message (IsCommandOr id)) s
    pub once : tally (only id) s ≡ 1
    pub reported :
        All
          (λ (c : Completion).
            c.id ≡ id → gone ≡ before ++ went_out c.ec (message id) c.sequence_number)
          s.completed
    pub silent : finished (only id) s ≡ 0 → gone ≡ before

  -- The receive operation sends commands.
  abbrev pub OwnCommand : Operation → Type 0
  OwnCommand (Pair.waits e) = Unit {0}
  OwnCommand (Pair.sending r own id) = IsCommandId id

module _ {P : Type 0} (program : P → Action P) (start : P) where
  -- The program reaches the point when it is given the first PDUs, and the second ones have gone out.
  pub data Trace : P → List Delivery → List Delivery → Type 0 where
    begins : Trace start [] []
    has_sent :
        {p q : P} {given gone : List Delivery} (m : Message) (number : ℕ)
        → Trace p given gone
        → program p ≡ async_send m q
        → Trace q given (gone ++ received_as m number)
    has_left :
        {p q : P} {given gone : List Delivery}
        → Trace p given gone
        → program p ≡ async_send_unbind q
        → Trace q given gone
    has_received :
        {p q : P} {given gone : List Delivery} (k : Result PduVariant → ℕ → Option P)
        (pdu : Result PduVariant) (number status : ℕ)
        → Trace p given gone
        → program p ≡ async_receive k
        → k pdu number ≡ some q
        → Trace q (given ++ ((pdu, number, status) ∷ [])) gone
    has_waited :
        {p q : P} {given gone : List Delivery}
        → Trace p given gone
        → program p ≡ async_wait q
        → Trace q given gone

  module _ (message : ℕ → Message) where
    pub record Talks (id : ℕ) (q : P) (x : Endpoint) : Type 0 where
      pub point : P
      pub before : List Delivery
      pub trace : Trace point x.given before
      pub asks : program point ≡ async_send (message id) q
      pub is_pdu : IsPduMessage (message id)
      pub awaits : Awaits message id before x.gone x.sender

    -- A PDU of another type than the program expects was the last that was given.
    pub record Wrong (x : Endpoint) : Type 0 where
      pub point : P
      pub before : List Delivery
      pub trace : Trace point before x.gone
      pub k : Result PduVariant → ℕ → Option P
      pub asks : program point ≡ async_receive k
      pub pdu : Result PduVariant
      pub number : ℕ
      pub status : ℕ
      pub no_way : k pdu number ≡ none
      pub all_given : x.given ≡ before ++ ((pdu, number, status) ∷ [])

    abbrev pub Says : Endpoint → Thread P → Type 0
    Says x (at p) = Trace p x.given x.gone × Quiet message x.sender
    Says x (sending id q) = Talks id q x
    Says x (unbinding id q) = Trace q x.given x.gone × Quiet message x.sender
    Says x system_error = ((p : P) × Trace p x.given x.gone) × Quiet message x.sender
    Says x bad_variant_access = Wrong x × Quiet message x.sender

-- What a program has to keep of a predicate on its points, the PDUs that it was given and those that
-- went out.
abbrev pub Keeps :
    {P : Type 0}
    → (P → List Delivery → List Delivery → Type 0)
    → Action P
    → List Delivery
    → List Delivery
    → Type 0
Keeps I (async_send m q) given gone = (number : ℕ) → I q given (gone ++ received_as m number)
Keeps I (async_send_unbind q) given gone = I q given gone
Keeps {P} I (async_receive k) given gone =
    (pdu : Result PduVariant) (number status : ℕ) (q : P)
    → k pdu number ≡ some q
    → I q (given ++ ((pdu, number, status) ∷ [])) gone
Keeps I (async_wait q) given gone = I q given gone
Keeps I co_return given gone = Unit {0}

pub Trace-Keeps :
    {P : Type 0} (program : P → Action P) (start : P)
    (I : P → List Delivery → List Delivery → Type 0)
    → ((p : P) (given gone : List Delivery) → I p given gone → Keeps I (program p) given gone)
    → I start [] []
    → {p : P} {given gone : List Delivery} → Trace program start p given gone
    → I p given gone
Trace-Keeps program start I step first begins = first
Trace-Keeps program start I step first (has_sent {p} {q} {given} {gone} m number t a) =
    subst (λ a. Keeps I a given gone) a
      (step p given gone (Trace-Keeps program start I step first t)) number
Trace-Keeps program start I step first (has_left {p} {q} {given} {gone} t a) =
    subst (λ a. Keeps I a given gone) a
      (step p given gone (Trace-Keeps program start I step first t))
Trace-Keeps program start I step first
      (has_received {p} {q} {given} {gone} k pdu number status t a e) =
    subst (λ a. Keeps I a given gone) a
      (step p given gone (Trace-Keeps program start I step first t)) pdu number status q e
Trace-Keeps program start I step first (has_waited {p} {q} {given} {gone} t a) =
    subst (λ a. Keeps I a given gone) a
      (step p given gone (Trace-Keeps program start I step first t))
