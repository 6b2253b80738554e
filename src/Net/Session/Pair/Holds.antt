-- ===== src/Net/Session/Pair/Holds.antt =====
-- Where the receive operation stands, the buffer and the bytes that have not arrived yet are the rest of
-- the stream.
use smpp.Common.{
  ℕ, suc, ◌≤◌, ◌≡◌, refl, sym, ap, subst, ◌∙◌, inl, inr, Bool, true, false, not, ◌&&◌, Bool-cases,
  List, [], ◌∷◌, ◌++◌, length, append_assoc, Option, none, some, if◌then◌else◌,
}
use smpp.CommandId.{CommandId}
use smpp.Exceptions.{Bytes}
use smpp.Net.FlatBuffer.{contents}
use smpp.Net.Session.{ErrorCode, is_aborted, is_error}
use smpp.Net.Session.Receive.{
  Receiver, Effect, reads, posts, sends, delivers, fails, closes, leaves, undefined_span, consumed,
  arrived, after_read, receive_loop, new_receiver,
}
use smpp.Net.Session.Receive.Reading.{arrived-IsReading, after_read-arrived}
use smpp.Net.Session.Receive.Keepalive.{after_read-times_out}
use smpp.Net.Session.Stream.{Delivery, room}
use smpp.Net.Session.Stream.Sent.{Sent, stream}
use smpp.Net.Session.Stream.Order.{again-IsReading}
use smpp.Net.Session.Connection.{
  IsOwn, enquire_link_id, enquire_link_resp_id, unbind_id, unbind_resp_id,
}
use smpp.Net.Session.Connection.Frames.{Sent-append}
use smpp.Net.Session.Silence.Good.{IsPrefix, At, Good, Sent-At, At-IsPrefix, Good-IsPrefix}
use smpp.Net.Session.Silence.Loop.{At-Good, times_out-Good}
use smpp.Net.Session.Pair.{Operation, waits, sending, after_send}

stream-append : (xs ys : List Bytes) → stream (xs ++ ys) ≡ stream xs ++ stream ys
stream-append [] ys = refl
stream-append (x ∷ xs) ys =
    ap (λ zs. x ++ zs) (stream-append xs ys) ∙ sym (append_assoc x (stream xs) (stream ys))

module _ (total : ℕ) (ds : List Delivery) where
  -- An operation that failed has lost no byte, so the next one goes on from there.
  abbrev pub Waits : Bytes → Option Effect → List Delivery → Type 0
  Waits later (some (fails r ec)) given = At total true ds later r given
  Waits later e given = Good total true ds later e given

  abbrev pub Holds : Bytes → Operation → List Delivery → Type 0
  Holds later (waits e) given = Waits later e given
  Holds later (sending r own id) given =
      IsOwn true own × Good total true ds later (some (sends r own none)) given

  pub Good-Waits :
      (later : Bytes) (e : Option Effect) (given : List Delivery)
      → Good total true ds later e given
      → Waits later e given
  Good-Waits later (some (reads r)) given g = g
  Good-Waits later (some (posts r)) given g = g
  Good-Waits later (some (sends r id number)) given g = g
  Good-Waits later (some (delivers r p number status)) given g = g
  Good-Waits later (some (fails r ec)) given g = absurd g
  Good-Waits later (some (closes r ec)) given g = g
  Good-Waits later (some (leaves e)) given g = g
  Good-Waits later (some undefined_span) given g = g
  Good-Waits later none given g = g

  Waits-IsPrefix :
      (later : Bytes) (e : Option Effect) (given : List Delivery)
      → Waits later e given
      → IsPrefix given ds
  Waits-IsPrefix later (some (reads r)) given g =
      Good-IsPrefix total true ds later (some (reads r)) given g
  Waits-IsPrefix later (some (posts r)) given g =
      Good-IsPrefix total true ds later (some (posts r)) given g
  Waits-IsPrefix later (some (sends r id number)) given g = g.3
  Waits-IsPrefix later (some (delivers r p number status)) given g =
      Good-IsPrefix total true ds later (some (delivers r p number status)) given g
  Waits-IsPrefix later (some (fails r ec)) given g = At-IsPrefix total true ds g
  Waits-IsPrefix later (some (closes r ec)) given g = g.1
  Waits-IsPrefix later (some (leaves e)) given g = absurd g
  Waits-IsPrefix later (some undefined_span) given g = absurd g
  Waits-IsPrefix later none given g = absurd g

  pub Holds-IsPrefix :
      (later : Bytes) (o : Operation) (given : List Delivery)
      → Holds later o given
      → IsPrefix given ds
  Holds-IsPrefix later (waits e) given h = Waits-IsPrefix later e given h
  Holds-IsPrefix later (sending r own id) given h = h.1.3

  pub At-Waits :
      (later : Bytes) (r : Receiver) (given : List Delivery)
      → At total true ds later r given
      → Waits later (receive_loop (suc total) r) given
  At-Waits later r given a = Good-Waits later _ given (At-Good total true ds later r given a)

  -- A new operation on the buffer.
  pub again-Waits :
      (later : Bytes) (r : Receiver) (given : List Delivery)
      → At total true ds later r given
      → Waits later (receive_loop (suc total) (new_receiver r.receive_buf)) given
  again-Waits later r given a = At-Waits later (new_receiver r.receive_buf) given (
      Sent-At total true ds a.is_sent (again-IsReading total r a.is_reading) a.same_bytes
        a.same_pdus)

  -- However a read ends.
  pub after_read-Waits :
      (r : Receiver) (chunk later : Bytes) (ec : ErrorCode) (cancelled : Bool)
      (given : List Delivery)
      → length chunk ≤ room r.receive_buf
      → At total true ds (chunk ++ later) r given
      → Waits later (after_read (suc total) chunk ec cancelled r) given
  after_read-Waits r chunk later ec cancelled given fits a =
      let (reading, more) = arrived-IsReading total chunk r a.is_reading (unfold room in fits) in
      let here : At total true ds later (arrived chunk r) given =
        Sent-At total true ds a.is_sent reading
          (ap (λ xs. xs ++ later) more
            ∙ append_assoc (contents r.receive_buf) chunk later
            ∙ a.same_bytes)
          a.same_pdus in
      subst (λ x. Waits later x given) (sym (after_read-arrived (suc total) chunk ec cancelled r))
        (elim (Bool-cases (is_aborted ec && not cancelled)) [
          | inl late ↦ rw late (
              subst (λ x. Waits later x given)
                (sym (after_read-times_out (suc total) (arrived chunk r)))
                (Good-Waits later _ given (
                  times_out-Good total true ds later (arrived chunk r) given
                    (arrived chunk r).pending_enquire_link here)))
          | inr in_time ↦ rw in_time (elim (Bool-cases (is_error ec)) [
            | inl bad ↦ rw bad here
            | inr fine ↦ rw fine (At-Waits later (arrived chunk r) given here)
          ])
        ])

  fails_or_Waits :
      (e : Bool) (r : Receiver) (ec : ErrorCode) (next : Option Effect) (later : Bytes)
      (given : List Delivery)
      → At total true ds later r given
      → Waits later next given
      → Waits later (if e then some (fails r ec) else next) given
  fails_or_Waits true r ec next later given a w = a
  fails_or_Waits false r ec next later given a w = w

  -- However a send of the receive operation ends.
  pub after_send-Waits :
      (own : CommandId) (ec : ErrorCode) (r : Receiver) (number : Option ℕ) (later : Bytes)
      (given : List Delivery)
      → IsOwn true own
      → Good total true ds later (some (sends r own number)) given
      → Waits later (after_send (suc total) own ec r) given
  unfolding after_send
  after_send-Waits own ec r number later given (enquire_link_id e) g =
      rw e
        (fails_or_Waits (is_error ec) r ec _ later given (g.0 e) (At-Waits later r given (g.0 e)))
  after_send-Waits own ec r number later given (enquire_link_resp_id e) g =
      rw e (At-Waits later (consumed r) given (g.1 e))
  after_send-Waits own ec r number later given (unbind_id l e) g = rw e (refl, g.3)
  after_send-Waits own ec r number later given (unbind_resp_id l e) g =
      rw e (fails_or_Waits (is_error ec) r ec _ later given (g.2 e) (refl, g.3))

module _ (total : ℕ) (ds out : List Delivery) (frames : List Bytes)
    (s : Sent total true frames out) where
  At-extends :
      (later : Bytes) (r : Receiver) (given : List Delivery)
      → At total true ds later r given
      → At total true (ds ++ out) (later ++ stream frames) r given
  At-extends later r given a =
      Sent-At total true (ds ++ out) (Sent-append a.is_sent s) a.is_reading
        (sym (append_assoc (contents r.receive_buf) later (stream frames))
          ∙ ap (λ xs. xs ++ stream frames) a.same_bytes
          ∙ sym (stream-append a.frames frames))
        (sym (append_assoc given a.rest out) ∙ ap (λ xs. xs ++ out) a.same_pdus)

  IsPrefix-extends : (given : List Delivery) → IsPrefix given ds → IsPrefix given (ds ++ out)
  IsPrefix-extends given (rest, e) =
      (rest ++ out, sym (append_assoc given rest out) ∙ ap (λ xs. xs ++ out) e)

  sends-extends :
      (later : Bytes) (r : Receiver) (id : CommandId) (number : Option ℕ) (given : List Delivery)
      → Good total true ds later (some (sends r id number)) given
      → Good total true (ds ++ out) (later ++ stream frames) (some (sends r id number)) given
  sends-extends later r id number given (a, b, c, p) = (
    (λ e. At-extends later r given (a e)),
    (λ e. At-extends later (consumed r) given (b e)),
    (λ e. At-extends later r given (c e)),
    IsPrefix-extends given p,
  )

  Waits-extends :
      (later : Bytes) (e : Option Effect) (given : List Delivery)
      → Waits total ds later e given
      → Waits total (ds ++ out) (later ++ stream frames) e given
  Waits-extends later (some (reads r)) given g = At-extends later r given g
  Waits-extends later (some (posts r)) given g = record {
    frame = g.frame;
    left = g.left;
    is_pdu_frame = g.is_pdu_frame;
    is_first = g.is_first;
    is_reading = g.is_reading;
    behind = At-extends later (consumed r) _ g.behind;
  }
  Waits-extends later (some (sends r id number)) given g = sends-extends later r id number given g
  Waits-extends later (some (delivers r p number status)) given g = At-extends later r _ g
  Waits-extends later (some (fails r ec)) given g = At-extends later r given g
  Waits-extends later (some (closes r ec)) given (l, p) = (l, IsPrefix-extends given p)
  Waits-extends later (some (leaves e)) given g = g
  Waits-extends later (some undefined_span) given g = g
  Waits-extends later none given g = g

  -- More frames are under way.
  pub Holds-extends :
      (later : Bytes) (o : Operation) (given : List Delivery)
      → Holds total ds later o given
      → Holds total (ds ++ out) (later ++ stream frames) o given
  Holds-extends later (waits e) given h = Waits-extends later e given h
  Holds-extends later (sending r own id) given h = (h.0, sends-extends later r own none given h.1)
