-- ===== src/Net/Session/Receive/Framing.antt =====
-- Which bytes of the buffer become a PDU.
use smpp.Common.{ℕ, suc, ◌≡◌, ◌≢◌, refl, ap, ◌∙◌, arith, ltb, ◌==◌, Bool, false}
use smpp.Common.{Option, some, ◌++◌, length, take, drop, if◌then◌else◌}
use smpp.Common.{le→ltb}
use smpp.Common.{length-append, take-append_exact, drop-append_exact}
use smpp.Exceptions.{Bytes}
use smpp.CommandId.{CommandId}
use smpp.CommandId
use smpp.Header.RoundTrip.{deserialize_header-append}
use smpp.Header.{Header, header_length, deserialize_header}
use smpp.Net.FlatBuffer.{size, contents}
use smpp.Net.FlatBuffer.Invariant.{IsBuffer, length-contents, contents-consume}
use smpp.Net.PduVariant.{receive_pdu}
use smpp.Net.Session.Send.Lock.{IsFrame}
use smpp.Net.Session.{no_error, unbinded}
use smpp.Net.Session.Receive.{Effect}
use smpp.Net.Session.Receive.{
  Receiver, delivers, sends, closes, posts, header, consumed, more, after_post, receive_loop,
  dispatch, after_send_enquire_link_resp, after_send_unbind_resp,
}

-- A PDU for the caller.
pub record IsPduFrame (frame : Bytes) : Type 0 where
  pub is_frame : IsFrame frame
  pub not_enquire_link : (deserialize_header frame).command_id ≢ CommandId.enquire_link
  pub not_enquire_link_resp : (deserialize_header frame).command_id ≢ CommandId.enquire_link_resp
  pub not_unbind : (deserialize_header frame).command_id ≢ CommandId.unbind
  pub not_unbind_resp : (deserialize_header frame).command_id ≢ CommandId.unbind_resp

-- A test that fails.
pub if-skip {ℓ} : {A : Type ℓ} {c : Bool} {y : A} (x : A) → c ≡ false → (if c then x else y) ≡ y
if-skip x e = rw e refl

other : {a b c : ℕ} → b ≢ c → a ≡ b → (a == c) ≡ false
other h e = ground arith

-- An enquire_link is answered, and taken off the buffer once the answer is sent.
pub dispatch-enquire_link :
    (r : Receiver) (next : Option Effect)
    → (header r).command_id ≡ CommandId.enquire_link
    → dispatch next r ≡ some (sends r CommandId.enquire_link_resp (some (header r).sequence_number))
unfolding dispatch
dispatch-enquire_link r next id = rw id refl

pub after_send_enquire_link_resp-consumed :
    (fuel : ℕ) (r : Receiver) → after_send_enquire_link_resp fuel r ≡ receive_loop fuel (consumed r)
unfolding after_send_enquire_link_resp
after_send_enquire_link_resp-consumed fuel r = refl

-- An unbind is answered, and the response to one ends the operation.
pub dispatch-unbind :
    (r : Receiver) (next : Option Effect)
    → (header r).command_id ≡ CommandId.unbind
    → dispatch next r ≡ some (sends r CommandId.unbind_resp (some (header r).sequence_number))
unfolding dispatch
dispatch-unbind r next id = rw id refl

pub dispatch-unbind_resp :
    (r : Receiver) (next : Option Effect)
    → (header r).command_id ≡ CommandId.unbind_resp
    → dispatch next r ≡ some (closes (consumed r) unbinded)
unfolding dispatch
dispatch-unbind_resp r next id = rw id refl

pub after_send_unbind_resp-consumed :
    (r : Receiver) → after_send_unbind_resp no_error r ≡ some (closes (consumed r) unbinded)
unfolding after_send_unbind_resp
after_send_unbind_resp-consumed r = refl

-- A buffer that begins with a whole frame.
module _ (r : Receiver) (v : IsBuffer r.receive_buf) (frame rest : Bytes)
    (whole : IsFrame frame) where
  pub header_lem : contents r.receive_buf ≡ frame ++ rest → header r ≡ deserialize_header frame
  unfolding header
  header_lem e = ap deserialize_header e ∙ deserialize_header-append frame rest (whole.0)

  pub command_length_lem :
      contents r.receive_buf ≡ frame ++ rest → (header r).command_length ≡ length frame
  command_length_lem e = ap (λ (x : Header). x.command_length) (header_lem e) ∙ whole.1

  pub contents-consumed :
      contents r.receive_buf ≡ frame ++ rest → contents (consumed r).receive_buf ≡ rest
  unfolding consumed
  contents-consumed e =
      contents-consume r.receive_buf v (header r).command_length
      ∙ ap (drop (header r).command_length) e
      ∙ drop-append_exact frame rest (header r).command_length (command_length_lem e)

  -- The tests of the length let it pass.
  pub receive_loop-dispatch :
      (fuel : ℕ)
      → r.needs_more ≡ false
      → contents r.receive_buf ≡ frame ++ rest
      → receive_loop (suc fuel) r ≡ dispatch (receive_loop fuel (consumed r)) r
  unfolding receive_loop
  receive_loop-dispatch fuel m e =
      let length_whole = ap length e ∙ length-append frame rest in
      let there = length-contents r.receive_buf v in
      if-skip (more r) m
      ∙ if-skip (more r)
          (le→ltb (size r.receive_buf) header_length (omega (arith, length_whole, there, whole.0)))
      ∙ if-skip (more r) (
          le→ltb (size r.receive_buf) (header r).command_length
            (omega (arith, length_whole, there, command_length_lem e)))

  pub after_post-delivers :
      contents r.receive_buf ≡ frame ++ rest
      → after_post r
        ≡ some (
            delivers
              (consumed r)
              (receive_pdu (deserialize_header frame).command_id frame (drop header_length frame))
              (deserialize_header frame).sequence_number
              (deserialize_header frame).command_status)
  unfolding after_post consumed
  after_post-delivers e =
      let h = header_lem e in
      let taken : take (header r).command_length (contents r.receive_buf) ≡ frame =
        ap (take (header r).command_length) e
        ∙ take-append_exact frame rest (header r).command_length (command_length_lem e) in
      let long : ltb (header r).command_length header_length ≡ false =
        le→ltb (header r).command_length header_length
          (omega (arith, command_length_lem e, whole.0)) in
      rw (long, taken, h) refl

module _ (r : Receiver) (v : IsBuffer r.receive_buf) (frame rest : Bytes)
    (f : IsPduFrame frame) where
  -- A PDU for the caller is delivered, or the operation posts first.
  pub dispatch-pdu :
      (next : Option Effect)
      → contents r.receive_buf ≡ frame ++ rest
      → dispatch next r ≡ (if r.needs_post then some (posts r) else after_post r)
  unfolding dispatch
  dispatch-pdu next e =
      let h = header_lem r v frame rest f.is_frame e in
      let id = ap (λ (x : Header). x.command_id) h in
      if-skip (some (sends r CommandId.enquire_link_resp (some (header r).sequence_number)))
        (other (f.not_enquire_link) id)
      ∙ if-skip next (other (f.not_enquire_link_resp) id)
      ∙ if-skip (some (sends r CommandId.unbind_resp (some (header r).sequence_number)))
          (other (f.not_unbind) id)
      ∙ if-skip (some (closes (consumed r) unbinded)) (other (f.not_unbind_resp) id)

  -- When the buffer begins with a whole PDU that is none of the session's own, and the operation
  -- neither waits for more bytes nor has to post, it delivers that PDU, by its own bytes alone, and
  -- the bytes behind it stay in the buffer.
  pub receive_loop-delivers :
      (fuel : ℕ)
      → r.needs_more ≡ false
      → r.needs_post ≡ false
      → contents r.receive_buf ≡ frame ++ rest
      → (receive_loop (suc fuel) r
          ≡ some (
              delivers
                (consumed r)
                (receive_pdu (deserialize_header frame).command_id frame (drop header_length frame))
                (deserialize_header frame).sequence_number
                (deserialize_header frame).command_status))
        × (contents (consumed r).receive_buf ≡ rest)
  receive_loop-delivers fuel m p e = (
    receive_loop-dispatch r v frame rest f.is_frame fuel m e
        ∙ dispatch-pdu (receive_loop fuel (consumed r)) e
        ∙ if-skip (some (posts r)) p
        ∙ after_post-delivers r v frame rest f.is_frame e,
    contents-consumed r v frame rest f.is_frame e,
  )
