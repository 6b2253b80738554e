-- ===== src/Example/Program/Background.antt =====
-- What the acts of the session alone leave to the coroutine that uses it.
use smpp.Common.{
  ℕ, ◌<◌, ◌^◌, ◌≤◌, ◌≡◌, refl, ap, sym, subst, ◌∙◌, true, List, ◌++◌, append-nil, Option, none,
  some,
}
use smpp.Exceptions.{Bytes}
use smpp.Header.{header_length}
use smpp.Net.Session.Send.{Sender}
use smpp.Net.Session.Send.Lock.{IsSender}
use smpp.Net.Session.Stream.{Delivery}
use smpp.Net.Session.Connection.{Message, IsMessage}
use smpp.Net.Session.Connection.Steps.{call-IsOp}
use smpp.Net.Session.Connection.Moves.{Events-Moves}
use smpp.Net.Session.Pair.{
  Endpoint, IsPduMessage, numbered_by, Acts, calls, unbinds, goes_on, sends_own, own_sent,
  reads_end, posted, given_to, tries_again,
}
use smpp.Example.Program.{IsBackground}
use smpp.Example.Program.Trace.{IsCommand, IsCommandId, IsCommandOr, Quiet, Awaits, OwnCommand}
use smpp.Example.Program.Calls.{
  Moves-Quiet, Moves-Awaits, attempt-Awaits, renumber-Awaits, taken-Awaits, attempt-Quiet,
  renumber-Quiet, taken-Quiet,
}

module _ (message : ℕ → Message) where
  -- What the acts of the session alone leave to the coroutine.
  pub record Kept (x z : Endpoint) : Type 0 where
    pub same_given : z.given ≡ x.given
    pub quiet : Quiet message x.sender → Quiet message z.sender × (z.gone ≡ x.gone)
    pub awaits :
        (id : ℕ) (before : List Delivery)
        → IsPduMessage (message id)
        → Awaits message id before x.gone x.sender
        → Awaits message id before z.gone z.sender
    pub own : OwnCommand message z.operation

  numbered_by-Quiet :
      (number : Option ℕ) (s : Sender) → Quiet message s → Quiet message (numbered_by number s)
  numbered_by-Quiet none s v = renumber-Quiet message _ s v
  numbered_by-Quiet (some n) s v = v

  numbered_by-Awaits :
      (number : Option ℕ) (id : ℕ) (p : IsPduMessage (message id)) (before gone : List Delivery)
      (s : Sender)
      → Awaits message id before gone s
      → Awaits message id before gone (numbered_by number s)
  numbered_by-Awaits none id p before gone s v = renumber-Awaits message id p before gone s v _
  numbered_by-Awaits (some n) id p before gone s v = v

module _ (message : ℕ → Message) (total : ℕ) (small : total < 2 ^ 32)
    (long : header_length ≤ total) where
  pub Acts-Kept :
      {x z : Endpoint} {frames : List Bytes} (act : Acts message total x frames z)
      → IsBackground act
      → IsSender x.sender
      → OwnCommand message x.operation
      → Kept message x z
  Acts-Kept (calls id pdu h) b v own = absurd b
  Acts-Kept (unbinds id e) b v own = absurd b
  Acts-Kept (goes_on {x} {out} event) b v own = record {
    same_given = refl;
    quiet = λ q.
        let (r, nothing) =
          Moves-Quiet message (Events-Moves message (IsCommandId message) event v q) in
        (r, ap (λ xs. x.gone ++ xs) nothing ∙ append-nil x.gone);
    awaits = λ id before p a.
        Moves-Awaits message id p before x.gone x.sender a
          (Events-Moves message (IsCommandOr message id) event v a.flying);
    own = own;
  }
  Acts-Kept (sends_own {x} j r id number o known u e) b v own =
      let c : IsCommandId message j = subst IsCommand (sym e) tt in
      let h : IsMessage total true (message j) =
        subst (IsMessage total true) (sym e) (known, u, long) in
      record {
        same_given = refl;
        quiet =
            λ q. (attempt-Quiet message j _ c (numbered_by-Quiet message number x.sender q), refl);
        awaits = λ id before p a.
            attempt-Awaits message id p before x.gone _
              (numbered_by-Awaits message number id p before x.gone x.sender a) j c
              (call-IsOp message total true small j h);
        own = c;
      }
  Acts-Kept (own_sent {x} r id done front behind o e) b v own =
      let c : IsCommandId message done.id = subst (OwnCommand message) o own in
      record {
        same_given = refl;
        quiet = λ q. (taken-Quiet message _ x.sender q, refl);
        awaits = λ id before p a.
            taken-Awaits message id p before x.gone x.sender a done front behind c e;
        own = tt;
      }
  Acts-Kept (reads_end r chunk later ec cancelled o i fits) b v own = record {
    same_given = refl;
    quiet = λ q. (q, refl);
    awaits = λ id before p a. a;
    own = tt;
  }
  Acts-Kept (posted r o) b v own = record {
    same_given = refl;
    quiet = λ q. (q, refl);
    awaits = λ id before p a. a;
    own = tt;
  }
  Acts-Kept (given_to r pdu number status o) b v own = absurd b
  Acts-Kept (tries_again r ec o) b v own = record {
    same_given = refl;
    quiet = λ q. (q, refl);
    awaits = λ id before p a. a;
    own = tt;
  }
