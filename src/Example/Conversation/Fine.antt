-- ===== src/Example/Conversation/Fine.antt =====
-- The two programs understand one another.
use smpp.Common.{
  ℕ, ◌<◌, ◌^◌, ◌≤◌, ◌≡◌, ◌≢◌, refl, ap, sym, subst, ◌∙◌, Bool, true, Bool-cases, inl, inr, ltb,
  List, [], ◌∷◌, ◌++◌, map, none, append_assoc, map-append,
}
use smpp.Exceptions.{Result, ok}
use smpp.Header.{header_length, rok}
use smpp.Net.FlatBuffer.{FlatBuffer}
use smpp.Net.PduVariant.{PduVariant, bind_transceiver_resp_pdu}
use smpp.Net.Session.Stream.{Delivery}
use smpp.Net.Session.Silence.Good.{IsPrefix}
use smpp.Net.Session.Connection.{Message}
use smpp.Net.Session.Pair.{Endpoint}
use smpp.Net.Session.Pair.Prefix.{IsEmptyBuffer, Meets-IsPrefix}
use smpp.Example.Program.{Action, async_receive, get, Thread, bad_variant_access}
use smpp.Example.Program.Trace.{Wrong, Says}
use smpp.Example.Program.Gone.{Says-Passed}
use smpp.Example.Client.{
  Client, connected, binding, round, asking, resting, closing, returned, client,
  is_bind_transceiver_resp, is_submit_sm_resp,
}
use smpp.Example.Server.{
  Server, accepted, answering, serving, responding, server, bind_response, is_bind_transceiver,
  is_submit_sm,
}
use smpp.Example.Conversation.{Converses, submit_answer, answers}
use smpp.Example.Conversation.Shapes.{
  IsBindRequest, IsSubmitRequest, IsBindResponse, IsSubmitResponse, Requests, Responses,
  first-Starts, later-Starts, ClientAt, ServerAt, Trace-ClientAt, Trace-ServerAt, ClientAt-Requests,
  ServerAt-answers, ServerAt-Responses,
}
use smpp.Example.Conversation.Says.{Converses-Meets, Converses-Says}

-- An awaited receive takes the PDU.
abbrev Takes : {P : Type 0} → Action P → Delivery → Type 0
Takes (async_receive k) (pdu, number, status) = k pdu number ≢ none
Takes a d = Unit {0}

taken :
    {P : Type 0} (test : Result PduVariant → Bool) (next : P) (pdu expected : Result PduVariant)
    → pdu ≡ expected
    → test expected ≡ true
    → get (test pdu) next ≢ none
taken test next pdu expected e same =
    subst (λ b. get b next ≢ none) (sym (ap test e ∙ same)) (λ no. cc)

client-Takes :
    (p : Client) (before gone peer : List Delivery) (d : Delivery)
    → ClientAt p before gone
    → IsPrefix (before ++ (d ∷ [])) peer
    → Responses peer
    → Takes (client p) d
unfolding client
client-Takes connected before gone peer d at prefix h = tt
client-Takes binding before gone peer (pdu, number, status) (e, full, at) prefix h =
    let is_bind =
      first-Starts IsBindResponse IsSubmitResponse (pdu, number, status) peer
        (subst (λ ds. IsPrefix (ds ++ ((pdu, number, status) ∷ [])) peer) e prefix) h in
    taken is_bind_transceiver_resp (round 0) pdu _ is_bind refl
client-Takes (round i) before gone peer d at prefix h = elim (Bool-cases (ltb i 3)) [
  | inl again ↦ rw again tt
  | inr over ↦ rw over tt
]
client-Takes (asking i) before gone peer d (full, more, at) prefix h =
    let is_submit = later-Starts IsBindResponse IsSubmitResponse before d peer full prefix h in
    taken is_submit_sm_resp (resting i) d.0 _ is_submit refl
client-Takes (resting i) before gone peer d at prefix h = tt
client-Takes closing before gone peer d at prefix h = λ no. cc
client-Takes returned before gone peer d at prefix h = tt

server-Takes :
    (p : Server) (before gone peer : List Delivery) (d : Delivery)
    → ServerAt p before gone
    → IsPrefix (before ++ (d ∷ [])) peer
    → Requests peer
    → Takes (server p) d
unfolding server
server-Takes accepted before gone peer (pdu, number, status) (e, f) prefix h =
    let is_bind =
      first-Starts IsBindRequest IsSubmitRequest (pdu, number, status) peer
        (subst (λ ds. IsPrefix (ds ++ ((pdu, number, status) ∷ [])) peer) e prefix) h in
    taken is_bind_transceiver (answering number) pdu _ is_bind refl
server-Takes (answering n) before gone peer d place prefix h = tt
server-Takes serving before gone peer (pdu, number, status) (full, f) prefix h =
    let (i, is_submit) =
      later-Starts IsBindRequest IsSubmitRequest before (pdu, number, status) peer full prefix h in
    taken is_submit_sm (responding number) pdu _ is_submit refl
server-Takes (responding n) before gone peer d place prefix h = tt

-- A PDU that is not taken is not the next one of the peer.
not_Wrong :
    {P : Type 0} (program : P → Action P) (start : P) (message : ℕ → Message) (x : Endpoint)
    (peer : List Delivery) (w : Wrong program start message x)
    → IsPrefix x.given peer
    → (IsPrefix (w.before ++ ((w.pdu, w.number, w.status) ∷ [])) peer
        → Takes (program w.point) (w.pdu, w.number, w.status))
    → ⊥
not_Wrong program start message x peer w prefix takes =
    subst (λ a. Takes a (w.pdu, w.number, w.status)) w.asks
      (takes (subst (λ ds. IsPrefix ds peer) w.all_given prefix)) w.no_way

answers-prefix : (ds es : List Delivery) → IsPrefix ds es → IsPrefix (answers ds) (answers es)
answers-prefix [] es p = (answers es, refl)
answers-prefix (d ∷ ds) es (rest, e) = (
  map submit_answer rest,
  ap (λ xs. (ok (bind_transceiver_resp_pdu bind_response), d.1, rok) ∷ xs)
        (sym (map-append submit_answer ds rest))
      ∙ ap answers e,
)

IsPrefix-trans : (ds es fs : List Delivery) → IsPrefix ds es → IsPrefix es fs → IsPrefix ds fs
IsPrefix-trans ds es fs (r, e) (q, f) =
    (r ++ q, sym (append_assoc ds r q) ∙ ap (λ xs. xs ++ q) e ∙ f)

-- The two programs of example/ converse, in any order of their steps and of the events of the two
-- sessions, with errors, cancellations and reads that time out. The sessions are new and joined, their
-- receive buffers are empty and of one size below 2^32 that holds a header, the PDUs that the programs
-- send fit into it, and a write that failed wrote nothing. Then std::get throws bad_variant_access in
-- neither program; for the client goes out the bind and then only submits, and the server is given a
-- prefix of that; for the server goes out a prefix of the responses to what it was given, in that order
-- and with the numbers of the requests, and the client is given a prefix of that.
pub Converses-fine :
    (ours theirs : ℕ → Message) (total : ℕ) (b c : FlatBuffer) {x y : Endpoint} {t : Thread Client}
    {u : Thread Server}
    → total < 2 ^ 32
    → header_length ≤ total
    → IsEmptyBuffer total b
    → IsEmptyBuffer total c
    → Converses ours theirs total b c x t y u
    → (t ≢ bad_variant_access)
      × (u ≢ bad_variant_access)
      × Requests x.gone
      × IsPrefix y.given x.gone
      × IsPrefix y.gone (answers y.given)
      × IsPrefix x.given y.gone
Converses-fine ours theirs total b c {x} {y} {t} {u} small long v w h =
    let ((us, own), (them, other)) = Converses-Says ours theirs total b c small long v w h in
    let (ours_given, theirs_given) =
      Meets-IsPrefix ours theirs total b c small long v w
        (Converses-Meets ours theirs total b c h) in
    let mine = Says-Passed client connected ours x t us in
    let its = Says-Passed server accepted theirs y u them in
    let requests = ClientAt-Requests mine.point mine.given x.gone (Trace-ClientAt mine.trace) in
    let at_server = Trace-ServerAt its.trace in
    (
      (λ e.
          let wrong = (subst (Says client connected ours x) e us).0 in
          not_Wrong client connected ours x y.gone wrong ours_given (λ prefix.
            client-Takes wrong.point wrong.before x.gone y.gone _ (Trace-ClientAt wrong.trace)
              prefix (ServerAt-Responses its.point its.given y.gone at_server))),
      (λ e.
          let wrong = (subst (Says server accepted theirs y) e them).0 in
          not_Wrong server accepted theirs y x.gone wrong theirs_given (λ prefix.
            server-Takes wrong.point wrong.before y.gone x.gone _ (Trace-ServerAt wrong.trace)
              prefix requests)),
      requests,
      theirs_given,
      IsPrefix-trans y.gone _ _ (ServerAt-answers its.point its.given y.gone at_server)
          (answers-prefix its.given y.given its.is_first),
      ours_given,
    )
