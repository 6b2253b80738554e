-- ===== src/Net/Session/Silence/Good.antt =====
-- What holds between two waits, and while the operation waits.
use smpp.Common.{
  Bool, true, false, ℕ, ◌<◌, ◌≡◌, ◌⊎◌, inl, inr, sym, ap, ◌∙◌, arith, List, [], ◌∷◌, ◌++◌,
}
use smpp.Common.{
  length, length-append, append_assoc, append-split, Bool-cases, leb, Option, none, some,
}
use smpp.CommandId.{CommandId}
use smpp.CommandId
use smpp.Exceptions.{Bytes}
use smpp.Net.FlatBuffer.{contents}
use smpp.Net.Session.Send.Lock.{IsFrame}
use smpp.Net.Session.Receive.{
  Receiver, Effect, reads, posts, sends, delivers, fails, closes, leaves, undefined_span, consumed,
}
use smpp.Net.Session.Receive.Framing.{IsPduFrame}
use smpp.Net.Session.Receive.Keepalive.{Incomplete}
use smpp.Net.Session.Receive.Reading.{IsReading}
use smpp.Net.Session.Stream.{Delivery}
use smpp.Net.Session.Stream.Frames.{part-Incomplete}
use smpp.Net.Session.Stream.Sent.{Sent, delivery, stream}

-- The first PDUs of the list.
abbrev pub IsPrefix : List Delivery → List Delivery → Type 0
IsPrefix given ds = (rest : List Delivery) × (given ++ rest ≡ ds)

-- The operation waits, or gives its caller a PDU: it did not fail, or run out of fuel, and reached no
-- undefined behaviour.
abbrev pub Runs : Option Effect → Type 0
Runs (some (reads r)) = Unit {0}
Runs (some (posts r)) = Unit {0}
Runs (some (sends r id number)) = Unit {0}
Runs (some (delivers r p number status)) = Unit {0}
Runs e = ⊥

-- A frame at the head of the stream is in the buffer, or the operation has to read.
pub first_frame :
    (total : ℕ) (r : Receiver) (frame tail later : Bytes)
    → IsReading total r
    → IsFrame frame
    → contents r.receive_buf ++ later ≡ frame ++ tail
    → Incomplete r
      ⊎ ((left : Bytes) × (contents r.receive_buf ≡ frame ++ left) × (left ++ later ≡ tail))
first_frame total r frame tail later v whole e =
    elim (Bool-cases (leb (length frame) (length (contents r.receive_buf)))) [
      | inl there ↦ inr (append-split frame (contents r.receive_buf) later tail e (ground arith))
      | inr part ↦
          let (missing, same, rest) =
            append-split (contents r.receive_buf) frame tail later (sym e) (ground arith) in
          let shorter : length (contents r.receive_buf) < length frame = ground arith in
          let sizes = ap length same ∙ length-append (contents r.receive_buf) missing in
          inl (part-Incomplete (λ bs. 0) total r frame missing v whole same (omega (arith, sizes)))
    ]

module _ (total : ℕ) (leaving : Bool) (ds : List Delivery) where
  -- Between two PDUs, the buffer and what has not arrived are the rest of the stream.
  pub record At (later : Bytes) (r : Receiver) (given : List Delivery) : Type 0 where
    pub frames : List Bytes
    pub rest : List Delivery
    pub is_reading : IsReading total r
    pub is_sent : Sent total leaving frames rest
    pub same_bytes : contents r.receive_buf ++ later ≡ stream frames
    pub same_pdus : given ++ rest ≡ ds

  -- A PDU stands at the head of the buffer.
  pub record Posts (later : Bytes) (r : Receiver) (given : List Delivery) : Type 0 where
    pub frame : Bytes
    pub left : Bytes
    pub is_pdu_frame : IsPduFrame frame
    pub is_first : contents r.receive_buf ≡ frame ++ left
    pub is_reading : IsReading total r
    pub behind : At later (consumed r) (given ++ (delivery frame ∷ []))

  -- What holds while the operation waits.
  abbrev pub Good : Bytes → Option Effect → List Delivery → Type 0
  Good later (some (reads r)) given = At later r given
  Good later (some (posts r)) given = Posts later r given
  Good later (some (sends r id number)) given =
      (id ≡ CommandId.enquire_link → At later r given)
      × (id ≡ CommandId.enquire_link_resp → At later (consumed r) given)
      × (id ≡ CommandId.unbind_resp → At later r given)
      × IsPrefix given ds
  Good later (some (delivers r p number status)) given =
      At later r (given ++ ((p, number, status) ∷ []))
  Good later (some (closes r ec)) given = (leaving ≡ true) × IsPrefix given ds
  Good later e given = ⊥

  pub Sent-At :
      {frames : List Bytes} {rest : List Delivery} {r : Receiver} {later : Bytes}
      {given : List Delivery}
      → Sent total leaving frames rest
      → IsReading total r
      → contents r.receive_buf ++ later ≡ stream frames
      → given ++ rest ≡ ds
      → At later r given
  Sent-At {frames} {rest} s v e g = record {
    frames = frames;
    rest = rest;
    is_reading = v;
    is_sent = s;
    same_bytes = e;
    same_pdus = g;
  }

  pub At-IsPrefix :
      {later : Bytes} {r : Receiver} {given : List Delivery} → At later r given → IsPrefix given ds
  At-IsPrefix a = (a.rest, a.same_pdus)

  shorter-IsPrefix : (given more : List Delivery) → IsPrefix (given ++ more) ds → IsPrefix given ds
  shorter-IsPrefix given more (rest, e) = (more ++ rest, sym (append_assoc given more rest) ∙ e)

  pub Good-IsPrefix :
      (later : Bytes) (e : Option Effect) (given : List Delivery)
      → Good later e given
      → IsPrefix given ds
  Good-IsPrefix later (some (reads r)) given g = At-IsPrefix g
  Good-IsPrefix later (some (posts r)) given g = shorter-IsPrefix given _ (At-IsPrefix g.behind)
  Good-IsPrefix later (some (sends r id number)) given g = g.3
  Good-IsPrefix later (some (delivers r p number status)) given g =
      shorter-IsPrefix given _ (At-IsPrefix g)
  Good-IsPrefix later (some (fails r ec)) given g = absurd g
  Good-IsPrefix later (some (closes r ec)) given g = g.1
  Good-IsPrefix later (some (leaves e)) given g = absurd g
  Good-IsPrefix later (some undefined_span) given g = absurd g
  Good-IsPrefix later none given g = absurd g

pub Good-Runs :
    (total : ℕ) (ds : List Delivery) (later : Bytes) (e : Option Effect) (given : List Delivery)
    → Good total false ds later e given
    → Runs e
Good-Runs total ds later (some (reads r)) given g = tt
Good-Runs total ds later (some (posts r)) given g = tt
Good-Runs total ds later (some (sends r id number)) given g = tt
Good-Runs total ds later (some (delivers r p number status)) given g = tt
Good-Runs total ds later (some (fails r ec)) given g = absurd g
Good-Runs total ds later (some (closes r ec)) given g = absurd (let no : false ≡ true = g.0 in cc)
Good-Runs total ds later (some (leaves e)) given g = absurd g
Good-Runs total ds later (some undefined_span) given g = absurd g
Good-Runs total ds later none given g = absurd g
