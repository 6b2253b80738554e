-- ===== src/Net/Session/Pair/Ends.antt =====
-- What each of the two sessions keeps, whatever it does and whatever arrives.
use smpp.Common.{
  ℕ, ◌≤◌, ◌<◌, ◌^◌, ◌≡◌, refl, sym, subst, ◌∙◌, true, List, [], ◌++◌, append-nil, Option, none,
  some,
}
use smpp.Exceptions.{Bytes}
use smpp.Header.{header_length}
use smpp.Net.Session.Send.{Sender, attempt}
use smpp.Net.Session.Send.Lock.{
  completed-IsSender, IsSender, attempt-IsSender, renumber-IsSender, next_sequence_number-IsU32,
}
use smpp.Net.Session.Receive.{reads}
use smpp.Net.Session.Stream.{Delivery}
use smpp.Net.Session.Stream.Sent.{Sent, silent}
use smpp.Net.Session.Connection.{Message, IsMessage, unbind_id, call, renumbered}
use smpp.Net.Session.Connection.Invariant.{
  IsTalk, attempt-IsTalk, renumber-IsTalk, completed-IsTalk,
}
use smpp.Net.Session.Connection.Steps.{call-IsOp, Events-IsTalk}
use smpp.Net.Session.Silence.Loop.{after_post-Good}
use smpp.Net.Session.Pair.{
  Operation, waits, Endpoint, numbered_by, Acts, calls, unbinds, goes_on, sends_own, own_sent,
  reads_end, posted, given_to, tries_again, arriving,
}
use smpp.Net.Session.Pair.Holds.{
  Holds, Good-Waits, again-Waits, after_read-Waits, after_send-Waits, Holds-extends,
}

module _ (message : ℕ → Message) (total : ℕ) where
  -- The send operations of one session, with what went out.
  abbrev pub Speaks : List Delivery → Sender → Type 0
  Speaks gone s = IsSender s × IsTalk message total true gone s

  -- One session while the PDUs of the list went out at the other one.
  pub record IsEnd (ds : List Delivery) (x : Endpoint) : Type 0 where
    pub speaks : Speaks x.gone x.sender
    pub holds : Holds total ds x.inbox x.operation x.given

  -- What went out by an act is a part of the stream.
  pub record GoesOut (x z : Endpoint) (frames : List Bytes) : Type 0 where
    pub out : List Delivery
    pub is_sent : Sent total true frames out
    pub all_gone : z.gone ≡ x.gone ++ out

module _ (message : ℕ → Message) (total : ℕ) (small : total < 2 ^ 32)
    (long : header_length ≤ total) where
  quiet : (x z : Endpoint) → z.gone ≡ x.gone → GoesOut message total x z []
  quiet x z e = record { out = []; is_sent = silent; all_gone = e ∙ sym (append-nil x.gone) }

  call-Speaks :
      (id : ℕ) (gone : List Delivery) (s : Sender)
      → IsMessage total true (message id)
      → Speaks message total gone s
      → Speaks message total gone (attempt (call message id) s)
  call-Speaks id gone s h (v, t) = (
    attempt-IsSender _ s (call-IsOp message total true small id h) v,
    attempt-IsTalk message total true small gone _ s (refl, h) t,
  )

  renumbered-Speaks :
      (gone : List Delivery) (s : Sender)
      → Speaks message total gone s
      → Speaks message total gone (renumbered s)
  renumbered-Speaks gone s (v, t) =
      let n = next_sequence_number-IsU32 s.sequence_number in
      (renumber-IsSender _ s n v, renumber-IsTalk message total true gone _ s n t)

  numbered_by-Speaks :
      (number : Option ℕ) (gone : List Delivery) (s : Sender)
      → Speaks message total gone s
      → Speaks message total gone (numbered_by number s)
  numbered_by-Speaks none gone s v = renumbered-Speaks gone s v
  numbered_by-Speaks (some number) gone s v = v

  module _ (ds : List Delivery) where
    stands :
        (x : Endpoint) {o : Operation}
        → x.operation ≡ o
        → IsEnd message total ds x
        → Holds total ds x.inbox o x.given
    stands x e v = subst (λ o. Holds total ds x.inbox o x.given) e v.holds

    -- Every act of a session.
    pub Acts-IsEnd :
        {x z : Endpoint} {frames : List Bytes}
        → Acts message total x frames z
        → IsEnd message total ds x
        → IsEnd message total ds z × GoesOut message total x z frames
    Acts-IsEnd (calls {x} id pdu h) v = (
      record { speaks = call-Speaks id x.gone x.sender h v.speaks; holds = v.holds },
      quiet _ _ refl,
    )
    Acts-IsEnd (unbinds {x} id e) v =
        let n = next_sequence_number-IsU32 x.sender.sequence_number in
        let h = subst (IsMessage total true) (sym e) (unbind_id refl refl, n, long) in
        (
          record {
            speaks = call-Speaks id x.gone _ h (renumbered-Speaks x.gone x.sender v.speaks);
            holds = v.holds;
          },
          quiet _ _ refl,
        )
    Acts-IsEnd (goes_on {x} {out} event) v =
        let (w, t, sent) = Events-IsTalk message total true small event v.speaks.0 v.speaks.1 in
        (
          record { speaks = (w, t); holds = v.holds },
          record { out = out; is_sent = sent; all_gone = refl },
        )
    Acts-IsEnd (sends_own {x} id r own number o known u e) v =
        let h = subst (IsMessage total true) (sym e) (known, u, long) in
        let good = stands x o v in
        (
          record {
            speaks = call-Speaks id x.gone _ h (numbered_by-Speaks number x.gone x.sender v.speaks);
            holds = (known, (good.0, good.1, good.2, good.3));
          },
          quiet _ _ refl,
        )
    Acts-IsEnd (own_sent {x} r own done before behind o c) v =
        let (known, good) = stands x o v in
        (
          record {
            speaks = (
              completed-IsSender (before ++ behind) x.sender v.speaks.0,
              completed-IsTalk message total true x.gone (before ++ behind) x.sender v.speaks.1,
            );
            holds = after_send-Waits total ds own done.ec r none x.inbox x.given known good;
          },
          quiet _ _ refl,
        )
    Acts-IsEnd (reads_end {x} r chunk later ec cancelled o i fits) v =
        let a =
          subst (λ bytes. Holds total ds bytes (waits (some (reads r))) x.given) i (stands x o v) in
        (
          record {
            speaks = v.speaks;
            holds = after_read-Waits total ds r chunk later ec cancelled x.given fits a;
          },
          quiet _ _ refl,
        )
    Acts-IsEnd (posted {x} r o) v = (
      record {
        speaks = v.speaks;
        holds =
            Good-Waits total ds x.inbox _ x.given
              (after_post-Good total true ds x.inbox r x.given (stands x o v));
      },
      quiet _ _ refl,
    )
    Acts-IsEnd (given_to {x} r pdu number status o) v = (
      record { speaks = v.speaks; holds = again-Waits total ds x.inbox r _ (stands x o v) },
      quiet _ _ refl,
    )
    Acts-IsEnd (tries_again {x} r ec o) v = (
      record { speaks = v.speaks; holds = again-Waits total ds x.inbox r x.given (stands x o v) },
      quiet _ _ refl,
    )

  -- What goes out at the other session arrives.
  pub arriving-IsEnd :
      (ds out : List Delivery) (frames : List Bytes) (x : Endpoint)
      → Sent total true frames out
      → IsEnd message total ds x
      → IsEnd message total (ds ++ out) (arriving frames x)
  arriving-IsEnd ds out frames x s v = record {
    speaks = v.speaks;
    holds = Holds-extends total ds out frames s x.inbox x.operation x.given v.holds;
  }
