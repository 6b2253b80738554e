-- ===== src/Example/Conversation/Shapes.antt =====
-- What the two programs send, and what they take.
use smpp.Common.{
  ℕ, ◌≤◌, ◌≡◌, refl, ap, sym, subst, ◌∙◌, arith, inl, inr, List, [], ◌∷◌, ◌++◌, map, length,
  length-append, append-nil, map-append, All, All-append, Bool-cases, ltb, some, Bool, true, false,
}
use smpp.Exceptions.{Result, ok}
use smpp.Header.{rok}
use smpp.Net.PduVariant.{
  PduVariant, bind_transceiver_pdu, bind_transceiver_resp_pdu, submit_sm_pdu, submit_sm_resp_pdu,
}
use smpp.Net.Session.Stream.{Delivery}
use smpp.Net.Session.Silence.Good.{IsPrefix}
use smpp.Example.Program.{get}
use smpp.Example.Program.Trace.{Trace, Keeps, Trace-Keeps}
use smpp.Example.Client.{
  Client, connected, binding, round, asking, resting, closing, returned, client,
  is_bind_transceiver_resp, is_submit_sm_resp, bind_request, submit_request,
}
use smpp.Example.Server.{
  Server, accepted, answering, serving, responding, server, is_bind_transceiver, is_submit_sm,
  bind_response, submit_response,
}
use smpp.Example.Conversation.{submit_answer, answers}

abbrev pub IsBindRequest : Delivery → Type 0
IsBindRequest (pdu, number, status) = pdu ≡ ok (bind_transceiver_pdu bind_request)

abbrev pub IsSubmitRequest : Delivery → Type 0
IsSubmitRequest (pdu, number, status) = (i : ℕ) × (pdu ≡ ok (submit_sm_pdu (submit_request i)))

abbrev pub IsBindResponse : Delivery → Type 0
IsBindResponse (pdu, number, status) = pdu ≡ ok (bind_transceiver_resp_pdu bind_response)

abbrev pub IsSubmitResponse : Delivery → Type 0
IsSubmitResponse (pdu, number, status) = pdu ≡ ok (submit_sm_resp_pdu submit_response)

-- One PDU of the first kind, and any number of the second kind behind it.
abbrev pub Starts : (Delivery → Type 0) → (Delivery → Type 0) → List Delivery → Type 0
Starts F S [] = Unit {0}
Starts F S (d ∷ ds) = F d × All S ds

module _ (F S : Delivery → Type 0) where
  pub Starts-append :
      (ds : List Delivery) (d : Delivery)
      → 1 ≤ length ds
      → S d
      → Starts F S ds
      → Starts F S (ds ++ (d ∷ []))
  Starts-append [] d full h v = absurd (omega (arith, full))
  Starts-append (x ∷ ds) d full h (f, s) = (f, All-append S ds (d ∷ []) s (h, tt))

  last_of_All :
      (before rest : List Delivery) (d : Delivery) → All S ((before ++ (d ∷ [])) ++ rest) → S d
  last_of_All [] rest d h = h.0
  last_of_All (x ∷ before) rest d h = last_of_All before rest d h.1

  -- What a prefix of such a list ends with.
  pub first-Starts :
      (d : Delivery) (ds : List Delivery) → IsPrefix (d ∷ []) ds → Starts F S ds → F d
  first-Starts d ds (rest, e) h = (subst (Starts F S) (sym e) h).0

  pub later-Starts :
      (before : List Delivery) (d : Delivery) (ds : List Delivery)
      → 1 ≤ length before
      → IsPrefix (before ++ (d ∷ [])) ds
      → Starts F S ds
      → S d
  later-Starts [] d ds full p h = absurd (omega (arith, full))
  later-Starts (x ∷ before) d ds full (rest, e) h =
      last_of_All before rest d (subst (Starts F S) (sym e) h).1

abbrev pub Requests : List Delivery → Type 0
Requests = Starts IsBindRequest IsSubmitRequest

abbrev pub Responses : List Delivery → Type 0
Responses = Starts IsBindResponse IsSubmitResponse

-- Where the client stands, by what it was given and what went out.
abbrev pub ClientAt : Client → List Delivery → List Delivery → Type 0
ClientAt connected given gone = (given ≡ []) × (gone ≡ [])
ClientAt binding given gone = (given ≡ []) × (1 ≤ length gone) × Requests gone
ClientAt (round i) given gone = (1 ≤ length given) × (1 ≤ length gone) × Requests gone
ClientAt (asking i) given gone = (1 ≤ length given) × (1 ≤ length gone) × Requests gone
ClientAt (resting i) given gone = (1 ≤ length given) × (1 ≤ length gone) × Requests gone
ClientAt closing given gone = Requests gone
ClientAt returned given gone = Requests gone

grows : (ds : List Delivery) (d : Delivery) → 1 ≤ length (ds ++ (d ∷ []))
grows ds d = omega (arith, length-append ds (d ∷ []))

get_lem : {P : Type 0} (b : Bool) (p q : P) → get b p ≡ some q → p ≡ q
get_lem true p q e = cc
get_lem false p q e = cc

client-Keeps :
    (p : Client) (given gone : List Delivery)
    → ClientAt p given gone
    → Keeps ClientAt (client p) given gone
unfolding client
client-Keeps connected given gone (e, f) = λ number.
    let d : Delivery = (ok (bind_transceiver_pdu bind_request), number, rok) in
    (e, grows gone d, subst (λ ds. Requests (ds ++ (d ∷ []))) (sym f) (refl, tt))
client-Keeps binding given gone (e, full, h) = λ pdu number status q k.
    subst (λ p. ClientAt p (given ++ ((pdu, number, status) ∷ [])) gone)
      (get_lem (is_bind_transceiver_resp pdu) (round 0) q k) (grows given _, full, h)
client-Keeps (round i) given gone (full, more, h) = elim (Bool-cases (ltb i 3)) [
  | inl again ↦ rw again (λ number.
      (full, grows gone _, Starts-append IsBindRequest IsSubmitRequest gone _ more (i, refl) h))
  | inr over ↦ rw over h
]
client-Keeps (asking i) given gone (full, more, h) = λ pdu number status q k.
    subst (λ p. ClientAt p (given ++ ((pdu, number, status) ∷ [])) gone)
      (get_lem (is_submit_sm_resp pdu) (resting i) q k) (grows given _, more, h)
client-Keeps (resting i) given gone h = h
client-Keeps closing given gone h = λ pdu number status q k.
    let e : returned ≡ q = cc in
    subst (λ p. ClientAt p (given ++ ((pdu, number, status) ∷ [])) gone) e h
client-Keeps returned given gone h = tt

answers-append :
    (ds : List Delivery) (d : Delivery)
    → 1 ≤ length ds
    → answers (ds ++ (d ∷ [])) ≡ answers ds ++ (submit_answer d ∷ [])
answers-append [] d full = absurd (omega (arith, full))
answers-append (x ∷ ds) d full =
    ap (λ xs. (ok (bind_transceiver_resp_pdu bind_response), x.1, rok) ∷ xs)
      (map-append submit_answer ds (d ∷ []))

submit_answer-All : (ds : List Delivery) → All IsSubmitResponse (map submit_answer ds)
submit_answer-All [] = tt
submit_answer-All (d ∷ ds) = (refl, submit_answer-All ds)

answers-Responses : (ds : List Delivery) → Responses (answers ds)
answers-Responses [] = tt
answers-Responses (d ∷ ds) = (refl, submit_answer-All ds)

-- Where the server stands, by what it was given and what went out.
abbrev pub ServerAt : Server → List Delivery → List Delivery → Type 0
ServerAt accepted given gone = (given ≡ []) × (gone ≡ [])
ServerAt (answering number) given gone =
    (pdu : Result PduVariant) × (status : ℕ) × (given ≡ (pdu, number, status) ∷ []) × (gone ≡ [])
ServerAt serving given gone = (1 ≤ length given) × (gone ≡ answers given)
ServerAt (responding number) given gone =
    (before : List Delivery) × (pdu : Result PduVariant) × (status : ℕ) × (1 ≤ length before)
    × (given ≡ before ++ ((pdu, number, status) ∷ []))
    × (gone ≡ answers before)

server-Keeps :
    (p : Server) (given gone : List Delivery)
    → ServerAt p given gone
    → Keeps ServerAt (server p) given gone
unfolding server
server-Keeps accepted given gone (e, f) = λ pdu number status q k.
    subst (λ p. ServerAt p (given ++ ((pdu, number, status) ∷ [])) gone)
      (get_lem (is_bind_transceiver pdu) (answering number) q k)
      (pdu, status, ap (λ ds. ds ++ ((pdu, number, status) ∷ [])) e, f)
server-Keeps (answering number) given gone (pdu, status, e, f) = λ reported.
    let d : Delivery = (ok (bind_transceiver_resp_pdu bind_response), number, rok) in
    (
      subst (λ ds. 1 ≤ length ds) (sym e) (omega arith),
      ap (λ ds. ds ++ (d ∷ [])) f ∙ ap answers (sym e),
    )
server-Keeps serving given gone (full, f) = λ pdu number status q k.
    subst (λ p. ServerAt p (given ++ ((pdu, number, status) ∷ [])) gone)
      (get_lem (is_submit_sm pdu) (responding number) q k) (given, pdu, status, full, refl, f)
server-Keeps (responding number) given gone (before, pdu, status, full, e, f) = λ reported.
    let d : Delivery = (pdu, number, status) in
    (
      subst (λ ds. 1 ≤ length ds) (sym e) (grows before d),
      ap (λ ds. ds ++ (submit_answer d ∷ [])) f
          ∙ sym (answers-append before d full)
          ∙ ap answers (sym e),
    )

pub Trace-ClientAt :
    {p : Client} {given gone : List Delivery}
    → Trace client connected p given gone
    → ClientAt p given gone
Trace-ClientAt = Trace-Keeps client connected ClientAt client-Keeps (refl, refl)

pub Trace-ServerAt :
    {p : Server} {given gone : List Delivery}
    → Trace server accepted p given gone
    → ServerAt p given gone
Trace-ServerAt = Trace-Keeps server accepted ServerAt server-Keeps (refl, refl)

-- What goes out is of one shape at every point.
pub ClientAt-Requests :
    (p : Client) (given gone : List Delivery) → ClientAt p given gone → Requests gone
ClientAt-Requests connected given gone (e, f) = subst Requests (sym f) tt
ClientAt-Requests binding given gone (e, full, h) = h
ClientAt-Requests (round i) given gone (full, more, h) = h
ClientAt-Requests (asking i) given gone (full, more, h) = h
ClientAt-Requests (resting i) given gone (full, more, h) = h
ClientAt-Requests closing given gone h = h
ClientAt-Requests returned given gone h = h

pub ServerAt-answers :
    (p : Server) (given gone : List Delivery)
    → ServerAt p given gone
    → IsPrefix gone (answers given)
ServerAt-answers accepted given gone (e, f) = (answers given, ap (λ ds. ds ++ answers given) f)
ServerAt-answers (answering number) given gone (pdu, status, e, f) =
    (answers given, ap (λ ds. ds ++ answers given) f)
ServerAt-answers serving given gone (full, f) = ([], append-nil gone ∙ f)
ServerAt-answers (responding number) given gone (before, pdu, status, full, e, f) = (
  submit_answer (pdu, number, status) ∷ [],
  ap (λ ds. ds ++ (submit_answer (pdu, number, status) ∷ [])) f
      ∙ sym (answers-append before (pdu, number, status) full)
      ∙ ap answers (sym e),
)

Starts-prefix :
    (F S : Delivery → Type 0) (xs rest : List Delivery) → Starts F S (xs ++ rest) → Starts F S xs
Starts-prefix F S [] rest h = tt
Starts-prefix F S (x ∷ xs) rest h = (h.0, All-left xs h.1)
  where
    All-left : (xs : List Delivery) → All S (xs ++ rest) → All S xs
    All-left [] h = tt
    All-left (x ∷ xs) h = (h.0, All-left xs h.1)

pub ServerAt-Responses :
    (p : Server) (given gone : List Delivery) → ServerAt p given gone → Responses gone
ServerAt-Responses p given gone h =
    let (rest, e) = ServerAt-answers p given gone h in
    Starts-prefix IsBindResponse IsSubmitResponse gone rest
      (subst Responses (sym e) (answers-Responses given))
