-- ===== src/Example/Program/Follows.antt =====
-- A coroutine with its session follows its program, whatever the session does meanwhile.
use smpp.Common.{
  ℕ, ◌<◌, ◌^◌, ◌≤◌, ◌≡◌, refl, sym, subst, ◌∙◌, true, List, [], ◌∷◌, ◌++◌, append-nil, Option, none,
  some,
}
use smpp.Exceptions.{Bytes, Result}
use smpp.Header.{header_length}
use smpp.Net.PduVariant.{PduVariant}
use smpp.Net.Session.{
  ErrorCode, no_error, operation_aborted, serialization_failed, enquire_link_timeout, unbinded,
}
use smpp.Net.Session
use smpp.Net.Session.Send.Lock.{IsSender}
use smpp.Net.Session.Stream.{Delivery}
use smpp.Net.Session.Connection.{Message, went_out}
use smpp.Net.Session.Connection.Steps.{call-IsOp}
use smpp.Net.Session.Pair.{Endpoint}
use smpp.Example.Program.{
  Action, async_send, async_receive, Thread, at, sending, unbinding, system_error,
  bad_variant_access, resumed, received, Observes, sent, unbind_sent, waited, receive_failed,
  receive_closed, Plays, sends, leaves, receives, meanwhile,
}
use smpp.Example.Program.Trace.{
  IsCommand, Trace, has_sent, has_left, has_received, has_waited, Quiet, Says, OwnCommand,
}
use smpp.Example.Program.Calls.{completed-Quiet, attempt-begins, attempt-Quiet, renumber-Quiet}
use smpp.Example.Program.Background.{Kept, Acts-Kept}

module _ {P : Type 0} (program : P → Action P) (start : P) (message : ℕ → Message) where
  Trace-like :
      (x z : Endpoint) {p : P}
      → z.given ≡ x.given
      → z.gone ≡ x.gone
      → Trace program start p x.given x.gone
      → Trace program start p z.given z.gone
  Trace-like x z {p} e f t =
      subst (λ gs. Trace program start p gs z.gone) (sym e)
        (subst (Trace program start p x.given) (sym f) t)

  pub Kept-Says :
      (x z : Endpoint) (t : Thread P)
      → Kept message x z
      → Says program start message x t
      → Says program start message z t
  Kept-Says x z (at p) k (t, q) = let (r, e) = k.quiet q in (Trace-like x z k.same_given e t, r)
  Kept-Says x z (sending id q) k t = record {
    point = t.point;
    before = t.before;
    trace = subst (λ gs. Trace program start t.point gs t.before) (sym k.same_given) t.trace;
    asks = t.asks;
    is_pdu = t.is_pdu;
    awaits = k.awaits id t.before t.is_pdu t.awaits;
  }
  Kept-Says x z (unbinding id p) k (t, q) =
      let (r, e) = k.quiet q in (Trace-like x z k.same_given e t, r)
  Kept-Says x z system_error k ((p, t), q) =
      let (r, e) = k.quiet q in ((p, Trace-like x z k.same_given e t), r)
  Kept-Says x z bad_variant_access k (w, q) =
      let (r, e) = k.quiet q in
      (
        record {
          point = w.point;
          before = w.before;
          trace = subst (Trace program start w.point w.before) (sym e) w.trace;
          k = w.k;
          asks = w.asks;
          pdu = w.pdu;
          number = w.number;
          status = w.status;
          no_way = w.no_way;
          all_given = k.same_given ∙ w.all_given;
        },
        r,
      )

  -- The send of a PDU returns or throws.
  sent-Says :
      (x : Endpoint) (p q : P) (before : List Delivery) (m : Message) (ec : ErrorCode) (number : ℕ)
      → Trace program start p x.given before
      → program p ≡ async_send m q
      → x.gone ≡ before ++ went_out ec m number
      → Quiet message x.sender
      → Says program start message x (resumed ec q)
  sent-Says x p q before m no_error number t a e v =
      (subst (Trace program start q x.given) (sym e) (has_sent m number t a), v)
  sent-Says x p q before m operation_aborted number t a e v =
      ((p, subst (Trace program start p x.given) (sym (e ∙ append-nil before)) t), v)
  sent-Says x p q before m (Session.system_error n) number t a e v =
      ((p, subst (Trace program start p x.given) (sym (e ∙ append-nil before)) t), v)
  sent-Says x p q before m serialization_failed number t a e v =
      ((p, subst (Trace program start p x.given) (sym (e ∙ append-nil before)) t), v)
  sent-Says x p q before m enquire_link_timeout number t a e v =
      ((p, subst (Trace program start p x.given) (sym (e ∙ append-nil before)) t), v)
  sent-Says x p q before m unbinded number t a e v =
      ((p, subst (Trace program start p x.given) (sym (e ∙ append-nil before)) t), v)

  unbind_sent-Says :
      (x : Endpoint) (q : P) (ec : ErrorCode)
      → Trace program start q x.given x.gone
      → Quiet message x.sender
      → Says program start message x (resumed ec q)
  unbind_sent-Says x q no_error t v = (t, v)
  unbind_sent-Says x q operation_aborted t v = ((q, t), v)
  unbind_sent-Says x q (Session.system_error n) t v = ((q, t), v)
  unbind_sent-Says x q serialization_failed t v = ((q, t), v)
  unbind_sent-Says x q enquire_link_timeout t v = ((q, t), v)
  unbind_sent-Says x q unbinded t v = ((q, t), v)

  pub Observes-Says :
      (x : Endpoint) {t u : Thread P}
      → Observes program x t u
      → Says program start message x t
      → Says program start message x u
  Observes-Says x (sent {p} done front behind e) t =
      let (v, says) =
        completed-Quiet message done.id t.is_pdu t.before x.gone x.sender t.awaits done front behind
          e refl in
      sent-Says x t.point p t.before (message done.id) done.ec done.sequence_number t.trace t.asks
        says v
  Observes-Says x (unbind_sent {p} done front behind e) (t, v) = unbind_sent-Says x p done.ec t v
  Observes-Says x (waited a) (t, v) = (has_waited t a, v)
  Observes-Says x (receive_failed {p} k r ec a o) (t, v) = ((p, t), v)
  Observes-Says x (receive_closed {p} k r ec a o) (t, v) = ((p, t), v)

  received-Says :
      (x z : Endpoint) {p : P} (k : Result PduVariant → ℕ → Option P) (pdu : Result PduVariant)
      (number status : ℕ) (o : Option P)
      → k pdu number ≡ o
      → program p ≡ async_receive k
      → z.given ≡ x.given ++ ((pdu, number, status) ∷ [])
      → z.gone ≡ x.gone
      → Trace program start p x.given x.gone
      → Quiet message z.sender
      → Says program start message z (received o)
  received-Says x z {p} k pdu number status none e a g f t v = (
    record {
      point = p;
      before = x.given;
      trace = subst (Trace program start p x.given) (sym f) t;
      k = k;
      asks = a;
      pdu = pdu;
      number = number;
      status = status;
      no_way = e;
      all_given = g;
    },
    v,
  )
  received-Says x z {p} k pdu number status (some q) e a g f t v = (
    subst (λ gs. Trace program start q gs z.gone) (sym g)
        (subst (Trace program start q _) (sym f) (has_received k pdu number status t a e)),
    v,
  )

  module _ (total : ℕ) (small : total < 2 ^ 32) (long : header_length ≤ total) where
    -- Every step of the coroutine or of its session.
    pub Plays-Says :
        {x z : Endpoint} {t u : Thread P} {frames : List Bytes}
        → Plays program message total x t frames z u
        → IsSender x.sender
        → Says program start message x t × OwnCommand message x.operation
        → Says program start message z u × OwnCommand message z.operation
    Plays-Says (sends {x} {p} {q} id a pdu h new never) v ((t, quiet), own) = (
      record {
        point = p;
        before = x.gone;
        trace = t;
        asks = a;
        is_pdu = pdu;
        awaits =
            attempt-begins message id x.gone x.sender (call-IsOp message total true small id h) new
              never quiet;
      },
      own,
    )
    Plays-Says (leaves {x} id a e) v ((t, quiet), own) = (
      (
        has_left t a,
        attempt-Quiet message id _ (subst IsCommand (sym e) tt)
            (renumber-Quiet message _ x.sender quiet),
      ),
      own,
    )
    Plays-Says (receives {x} k r pdu number status a o) v ((t, quiet), own) =
        (received-Says x _ k pdu number status (k pdu number) refl a refl refl t quiet, tt)
    Plays-Says (meanwhile {x} {z} {t} act b) v (says, own) =
        let k = Acts-Kept message total small long act b v own in (Kept-Says x z t k says, k.own)
