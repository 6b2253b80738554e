-- ===== src/Net/Session/Connection/Delivered.antt =====
-- What the caller of the other session is given.
use smpp.Common.{false, ℕ, suc, ◌+◌, ◌<◌, ◌^◌, ◌≡◌, refl, ap, sym, subst, arith, List, [], ◌++◌}
use smpp.Exceptions.{Bytes}
use smpp.Net.FlatBuffer.{FlatBuffer, capacity, contents}
use smpp.Net.FlatBuffer.Invariant.{IsBuffer}
use smpp.Net.Session.Send.{Sender}
use smpp.Net.Session.Send.Lock.{
  IsSender, attempt-IsSender, renumber-IsSender, next_sequence_number-IsU32,
}
use smpp.Net.Session.Send.Handlers.{new_sender-IsSender}
use smpp.Net.Session.Receive.{receive_loop, new_receiver}
use smpp.Net.Session.Stream.{Delivery, drive}
use smpp.Net.Session.Stream.Sent.{silent, stream}
use smpp.Net.Session.Stream.Order.{drive-Sent}
use smpp.Net.Session.Connection.{
  Message, enquire_link_id, IsMessage, Talk, opens, calls, keeps_alive, goes_on,
}
use smpp.Net.Session.Connection.Steps.{call-IsOp, Events-IsTalk}
use smpp.Net.Session.Connection.Invariant.{IsTalk, attempt-IsTalk, renumber-IsTalk}

module _ (message : ℕ → Message) (total : ℕ) (small : total < 2 ^ 32) where
  Talk-IsTalk :
      {ds : List Delivery} {s : Sender}
      → Talk message total ds s
      → IsSender s × IsTalk message total false ds s
  Talk-IsTalk opens = (
    new_sender-IsSender,
    record {
      waiting_calls = tt;
      woken_calls = tt;
      writes = tt;
      sent = silent;
      numbers = omega arith;
    },
  )
  Talk-IsTalk (calls {ds} {s} id h r) =
      let (v, t) = Talk-IsTalk r in
      (
        attempt-IsSender _ s (call-IsOp message total false small id h) v,
        attempt-IsTalk message total false small ds _ s (refl, h) t,
      )
  Talk-IsTalk (keeps_alive {ds} {s} id fits e r) =
      let (v, t) = Talk-IsTalk r in
      let n = next_sequence_number-IsU32 s.sequence_number in
      let h : IsMessage total false (message id) =
        subst (IsMessage total false) (sym e) (enquire_link_id refl, n, fits) in
      (
        attempt-IsSender _ _ (call-IsOp message total false small id h) (renumber-IsSender _ s n v),
        attempt-IsTalk message total false small ds _ _ (refl, h)
            (renumber-IsTalk message total false ds _ s n t),
      )
  Talk-IsTalk (goes_on event r) =
      let (v, t) = Talk-IsTalk r in
      let (w, u, sent) = Events-IsTalk message total false small event v t in (w, u)

-- Where every PDU that a new session sends before an unbind has fields that its rules can carry,
-- or throws when it is serialized, every frame fits into the empty receive buffer of the other
-- session, whose size a uint32_t can hold, and a write that fails puts no bytes out: however the
-- operations interleave, fail and are cancelled, and however the bytes that went out are cut into
-- reads, the caller of the other session is given exactly the PDUs whose writes ended without an
-- error, in the order of those writes, a request with the number that its write completes with,
-- and a response with its own number and status; some number of waits, and any more, is enough.
pub drive-Talk :
    (message : ℕ → Message) (schedule : Bytes → ℕ) {ds : List Delivery} {s : Sender}
    (b : FlatBuffer)
    → IsBuffer b
    → contents b ≡ []
    → capacity b < 2 ^ 32
    → Talk message (capacity b) ds s
    → (k : ℕ) × ((more : ℕ)
        → drive schedule
            (suc (capacity b))
            (k + more)
            (stream s.wire)
            (receive_loop (suc (capacity b)) (new_receiver b))
          ≡ ds)
drive-Talk message schedule {ds} {s} b v e small talk =
    drive-Sent schedule b (stream s.wire) v (Talk-IsTalk message (capacity b) small talk).1.sent
      (ap (λ xs. xs ++ stream s.wire) e)
