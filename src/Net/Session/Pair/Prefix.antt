-- ===== src/Net/Session/Pair/Prefix.antt =====
-- What both callers are given, at any time.
use smpp.Common.{ℕ, suc, ◌≤◌, ◌<◌, ◌^◌, ◌≡◌, refl, sym, ap, subst, arith, [], ◌++◌, true}
use smpp.Header.{header_length}
use smpp.Net.FlatBuffer.{FlatBuffer, capacity, contents}
use smpp.Net.FlatBuffer.Invariant.{IsBuffer}
use smpp.Net.Session.Send.Handlers.{new_sender-IsSender}
use smpp.Net.Session.Receive.{new_receiver}
use smpp.Net.Session.Stream.Sent.{silent}
use smpp.Net.Session.Connection.{Message}
use smpp.Net.Session.Silence.Good.{IsPrefix, Sent-At}
use smpp.Net.Session.Pair.{Endpoint, new_endpoint, Meets, opens, we_act, they_act, arriving}
use smpp.Net.Session.Pair.Holds.{At-Waits, Holds-IsPrefix}
use smpp.Net.Session.Pair.Ends.{IsEnd, Acts-IsEnd, arriving-IsEnd}

-- The empty receive buffer of a session.
pub record IsEmptyBuffer (total : ℕ) (b : FlatBuffer) : Type 0 where
  pub is_buffer : IsBuffer b
  pub same_capacity : capacity b ≡ total
  pub is_empty : contents b ≡ []

new_endpoint-IsEnd :
    (message : ℕ → Message) (total : ℕ) (b : FlatBuffer)
    → IsEmptyBuffer total b
    → IsEnd message total [] (new_endpoint (suc total) b)
new_endpoint-IsEnd message total b v = record {
  speaks = (
    new_sender-IsSender,
    record {
      waiting_calls = tt;
      woken_calls = tt;
      writes = tt;
      sent = silent;
      numbers = omega arith;
    },
  );
  holds = At-Waits total [] [] (new_receiver b) [] (
      Sent-At total true [] silent
        (record { is_buffer = v.is_buffer; same_capacity = v.same_capacity; not_more = refl })
        (ap (λ xs. xs ++ []) v.is_empty) refl);
}

module _ (ours theirs : ℕ → Message) (total : ℕ) (small : total < 2 ^ 32)
    (long : header_length ≤ total) (b c : FlatBuffer) (v : IsEmptyBuffer total b)
    (w : IsEmptyBuffer total c) where
  pub Meets-IsEnd :
      {x y : Endpoint}
      → Meets ours theirs total b c x y
      → IsEnd ours total y.gone x × IsEnd theirs total x.gone y
  Meets-IsEnd opens = (new_endpoint-IsEnd ours total b v, new_endpoint-IsEnd theirs total c w)
  Meets-IsEnd (we_act {x} {y} {z} {frames} h act) =
      let (us, them) = Meets-IsEnd h in
      let (end, goes) = Acts-IsEnd ours total small long y.gone act us in
      (
        end,
        subst (λ ds. IsEnd theirs total ds (arriving frames y)) (sym goes.all_gone)
            (arriving-IsEnd theirs total small long x.gone goes.out frames y goes.is_sent them),
      )
  Meets-IsEnd (they_act {x} {y} {z} {frames} h act) =
      let (us, them) = Meets-IsEnd h in
      let (end, goes) = Acts-IsEnd theirs total small long x.gone act them in
      (
        subst (λ ds. IsEnd ours total ds (arriving frames x)) (sym goes.all_gone)
            (arriving-IsEnd ours total small long y.gone goes.out frames x goes.is_sent us),
        end,
      )

-- Two new sessions are joined, with empty receive buffers of one size below 2^32 that holds a header,
-- and with PDUs that fit into it and have valid fields, or cannot be
-- serialized. In any order the callers send requests, responses and unbinds; sends wait, are woken,
-- cancelled, fail or end; what goes out arrives in chunks; reads end, fail and time out; and the
-- receive operations send their enquire_links and their responses by the same send operations and
-- are called again. If a write that failed wrote nothing, then at any time what each caller was given
-- is a prefix of the PDUs that went out at the other session, each with its number and its status.
pub Meets-IsPrefix :
    (ours theirs : ℕ → Message) (total : ℕ) (b c : FlatBuffer) {x y : Endpoint}
    → total < 2 ^ 32
    → header_length ≤ total
    → IsEmptyBuffer total b
    → IsEmptyBuffer total c
    → Meets ours theirs total b c x y
    → IsPrefix x.given y.gone × IsPrefix y.given x.gone
Meets-IsPrefix ours theirs total b c {x} {y} small long v w h =
    let (us, them) = Meets-IsEnd ours theirs total small long b c v w h in
    (
      Holds-IsPrefix total y.gone x.inbox x.operation x.given us.holds,
      Holds-IsPrefix total x.gone y.inbox y.operation y.given them.holds,
    )
