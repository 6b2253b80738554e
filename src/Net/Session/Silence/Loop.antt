-- ===== src/Net/Session/Silence/Loop.antt =====
-- The loop of the receive operation comes to a wait that is good.
use smpp.Common.{
  Bool, true, ◌⊎◌, inl, inr, ℕ, zero, suc, ◌<◌, ◌≡◌, inl, inr, sym, ap, subst, ◌∙◌, arith, List, [],
  ◌∷◌, ◌++◌,
}
use smpp.Common.{length, length-append, append_assoc, Bool, true, false, none, some, if◌then◌else◌}
use smpp.CommandId.{CommandId}
use smpp.CommandId
use smpp.Exceptions.{Bytes}
use smpp.Header.{deserialize_header, Header}
use smpp.Net.FlatBuffer.{size, contents}
use smpp.Net.FlatBuffer.Invariant.{length-contents}
use smpp.Net.Session.Send.Lock.{IsFrame}
use smpp.Net.Session.Receive.{Receiver, posts, sends, consumed, receive_loop, after_post}
use smpp.Net.Session.Receive.Framing.{
  IsPduFrame, header_lem, command_length_lem, contents-consumed, receive_loop-dispatch,
  dispatch-pdu, dispatch-enquire_link, dispatch-unbind, dispatch-unbind_resp, after_post-delivers,
}
use smpp.Net.Session.Receive.Fuel.{receive_loop_skip, size-consumed}
use smpp.Net.Session.Receive.Keepalive.{Incomplete}
use smpp.Net.Session.Receive.Reading.{IsReading, receive_loop-reads}
use smpp.Net.Session.Stream.{Delivery}
use smpp.Net.Session.Stream.Sent.{Sent, silent, pdu, asks, answers, quits, delivery, stream}
use smpp.Net.Session.Stream.Order.{consumed-IsReading, size-lt}
use smpp.Net.Session.Silence.Good.{At, Posts, Good, first_frame, At-IsPrefix, Sent-At}

module _ (total : ℕ) (leaving : Bool) (ds : List Delivery) where
  Good-waits :
      (fuel : ℕ) (r : Receiver) (later : Bytes) (given : List Delivery)
      → Incomplete r
      → At total leaving ds later r given
      → Good total leaving ds later (receive_loop (suc fuel) r) given
  Good-waits fuel r later given i a =
      let (waiting, e, w, same, space) = receive_loop-reads total fuel r a.is_reading i in
      subst (λ x. Good total leaving ds later x given) (sym e)
        (Sent-At total leaving ds a.is_sent w (ap (λ xs. xs ++ later) same ∙ a.same_bytes)
          a.same_pdus)

  pub after_post-Good :
      (later : Bytes) (r : Receiver) (given : List Delivery)
      → Posts total leaving ds later r given
      → Good total leaving ds later (after_post r) given
  after_post-Good later r given p =
      subst (λ x. Good total leaving ds later x given)
        (sym (
          after_post-delivers r p.is_reading.is_buffer p.frame p.left p.is_pdu_frame.is_frame
            p.is_first))
        p.behind

  posts-Good :
      (later : Bytes) (r : Receiver) (given : List Delivery) (needs_post : Bool)
      → Posts total leaving ds later r given
      → Good total leaving ds later (if needs_post then some (posts r) else after_post r) given
  posts-Good later r given true p = p
  posts-Good later r given false p = after_post-Good later r given p

  -- A frame that is in the buffer as a whole.
  module _ (frame : Bytes) (frames : List Bytes) (rest given : List Delivery) (r : Receiver)
      (later left : Bytes) (v : IsReading total r) (s : Sent total leaving frames rest)
      (first : contents r.receive_buf ≡ frame ++ left) (tail : left ++ later ≡ stream frames) where
    behind_lem : IsFrame frame → contents (consumed r).receive_buf ++ later ≡ stream frames
    behind_lem f =
        ap (λ xs. xs ++ later) (contents-consumed r v.is_buffer frame left f first) ∙ tail

    pdu-Good :
        (f : IsPduFrame frame) (fuel : ℕ)
        → given ++ (delivery frame ∷ rest) ≡ ds
        → Good total leaving ds later (receive_loop (suc fuel) r) given
    pdu-Good f fuel g =
        subst (λ x. Good total leaving ds later x given)
          (sym (
            receive_loop-dispatch r v.is_buffer frame left f.is_frame fuel v.not_more first
            ∙ dispatch-pdu r v.is_buffer frame left f (receive_loop fuel (consumed r)) first))
          (posts-Good later r given r.needs_post (record {
            frame = frame;
            left = left;
            is_pdu_frame = f;
            is_first = first;
            is_reading = v;
            behind =
                Sent-At total leaving ds s (consumed-IsReading total r v) (behind_lem f.is_frame)
                  (append_assoc given (delivery frame ∷ []) rest ∙ g);
          }))

    asks-Good :
        (f : IsFrame frame) (fuel : ℕ)
        → (deserialize_header frame).command_id ≡ CommandId.enquire_link
        → given ++ rest ≡ ds
        → Good total leaving ds later (receive_loop (suc fuel) r) given
    asks-Good f fuel id g =
        let same =
          ap (λ (x : Header). x.command_id) (header_lem r v.is_buffer frame left f first) in
        subst (λ x. Good total leaving ds later x given)
          (sym (
            receive_loop-dispatch r v.is_buffer frame left f fuel v.not_more first
            ∙ dispatch-enquire_link r (receive_loop fuel (consumed r)) (same ∙ id)))
          (
            (λ (x : CommandId.enquire_link_resp ≡ CommandId.enquire_link). absurd (omega arith)),
            (λ x. Sent-At total leaving ds s (consumed-IsReading total r v) (behind_lem f) g),
            (λ (x : CommandId.enquire_link_resp ≡ CommandId.unbind_resp). absurd (omega arith)),
            (rest, g),
          )

    quits-Good :
        (f : IsFrame frame) (fuel : ℕ)
        → leaving ≡ true
        → ((deserialize_header frame).command_id ≡ CommandId.unbind)
          ⊎ ((deserialize_header frame).command_id ≡ CommandId.unbind_resp)
        → given ++ rest ≡ ds
        → At total leaving ds later r given
        → Good total leaving ds later (receive_loop (suc fuel) r) given
    quits-Good f fuel l (inl id) g a =
        let same =
          ap (λ (x : Header). x.command_id) (header_lem r v.is_buffer frame left f first) in
        subst (λ x. Good total leaving ds later x given)
          (sym (
            receive_loop-dispatch r v.is_buffer frame left f fuel v.not_more first
            ∙ dispatch-unbind r (receive_loop fuel (consumed r)) (same ∙ id)))
          (
            (λ (x : CommandId.unbind_resp ≡ CommandId.enquire_link). absurd (omega arith)),
            (λ (x : CommandId.unbind_resp ≡ CommandId.enquire_link_resp). absurd (omega arith)),
            (λ x. a),
            (rest, g),
          )
    quits-Good f fuel l (inr id) g a =
        let same =
          ap (λ (x : Header). x.command_id) (header_lem r v.is_buffer frame left f first) in
        subst (λ x. Good total leaving ds later x given)
          (sym (
            receive_loop-dispatch r v.is_buffer frame left f fuel v.not_more first
            ∙ dispatch-unbind_resp r (receive_loop fuel (consumed r)) (same ∙ id)))
          (l, (rest, g))

    answers-Good :
        (f : IsFrame frame) (fuel : ℕ)
        → (deserialize_header frame).command_id ≡ CommandId.enquire_link_resp
        → size r.receive_buf < suc fuel
        → (size (consumed r).receive_buf < fuel
            → Good total leaving ds later (receive_loop fuel (consumed r)) given)
        → Good total leaving ds later (receive_loop (suc fuel) r) given
    answers-Good f fuel id h next =
        let same =
          ap (λ (x : Header). x.command_id) (header_lem r v.is_buffer frame left f first) in
        let long = command_length_lem r v.is_buffer frame left f first in
        let sizes = ap length first ∙ length-append frame left in
        let there = length-contents r.receive_buf v.is_buffer in
        let fewer = size-consumed r v.is_buffer in
        subst (λ x. Good total leaving ds later x given)
          (sym (
            receive_loop_skip fuel r (
              v.not_more,
              omega (arith, sizes, there, f.0),
              omega (arith, sizes, there, long),
              same ∙ id,
            )))
          (next (omega (arith, fewer, long, f.0, sizes, there)))

  -- From the rest of a stream on, the loop comes to a wait that is good.
  receive_loop-Good :
      {frames : List Bytes} {rest : List Delivery}
      → Sent total leaving frames rest
      → (fuel : ℕ) (r : Receiver) (later : Bytes) (given : List Delivery) → IsReading total r
      → size r.receive_buf < fuel
      → contents r.receive_buf ++ later ≡ stream frames
      → given ++ rest ≡ ds
      → Good total leaving ds later (receive_loop fuel r) given
  receive_loop-Good s zero r later given v h e g = absurd (omega arith)
  receive_loop-Good silent (suc fuel) r later given v h e g =
      let sizes = ap length e in
      Good-waits fuel r later given
        (
          v.not_more,
          inl (
              omega (
                arith,
                sizes,
                length-append (contents r.receive_buf) later,
                length-contents r.receive_buf v.is_buffer,
              )),
        )
        (Sent-At total leaving ds silent v e g)
  receive_loop-Good (pdu {frames} {ds = rest} frame f small s) (suc fuel) r later given v h e g =
      elim (first_frame total r frame (stream frames) later v f.is_frame e) [
        | inl i ↦
            Good-waits fuel r later given i (Sent-At total leaving ds (pdu frame f small s) v e g)
        | inr (left, first, tail) ↦
            pdu-Good frame frames rest given r later left v s first tail f fuel g
      ]
  receive_loop-Good (asks {frames} {ds = rest} frame f small id s) (suc fuel) r later given v h e
        g =
      elim (first_frame total r frame (stream frames) later v f e) [
        | inl i ↦
            Good-waits fuel r later given i
              (Sent-At total leaving ds (asks frame f small id s) v e g)
        | inr (left, first, tail) ↦
            asks-Good frame frames rest given r later left v s first tail f fuel id g
      ]
  receive_loop-Good (answers {frames} {ds = rest} frame f small id s) (suc fuel) r later given v h e
        g =
      elim (first_frame total r frame (stream frames) later v f e) [
        | inl i ↦
            Good-waits fuel r later given i
              (Sent-At total leaving ds (answers frame f small id s) v e g)
        | inr (left, first, tail) ↦
            answers-Good frame frames rest given r later left v s first tail f fuel id h (λ fewer.
              receive_loop-Good s fuel (consumed r) later given (consumed-IsReading total r v) fewer
                (behind_lem frame frames rest given r later left v s first tail f) g)
      ]
  receive_loop-Good (quits {frames} {ds = rest} frame l f small id s) (suc fuel) r later given v h e
        g =
      let here = Sent-At total leaving ds (quits frame l f small id s) v e g in
      elim (first_frame total r frame (stream frames) later v f e) [
        | inl i ↦ Good-waits fuel r later given i here
        | inr (left, first, tail) ↦
            quits-Good frame frames rest given r later left v s first tail f fuel l id g here
      ]

  pub At-Good :
      (later : Bytes) (r : Receiver) (given : List Delivery)
      → At total leaving ds later r given
      → Good total leaving ds later (receive_loop (suc total) r) given
  At-Good later r given a =
      receive_loop-Good a.is_sent (suc total) r later given a.is_reading
        (size-lt total r a.is_reading) a.same_bytes a.same_pdus

  pub times_out-Good :
      (later : Bytes) (r : Receiver) (given : List Delivery) (pending : Bool)
      → At total leaving ds later r given
      → Good total leaving ds later
          (if pending
            then some (sends r CommandId.unbind none)
            else some
                (sends (record r { pending_enquire_link = true }) CommandId.enquire_link none))
          given
  times_out-Good later r given true a = (
    (λ x. a),
    (λ (x : CommandId.unbind ≡ CommandId.enquire_link_resp). absurd (omega arith)),
    (λ (x : CommandId.unbind ≡ CommandId.unbind_resp). absurd (omega arith)),
    At-IsPrefix total leaving ds a,
  )
  times_out-Good later r given false a = (
    (λ x.
        let v = a.is_reading in
        Sent-At total leaving ds a.is_sent
          (record {
            is_buffer = v.is_buffer;
            same_capacity = v.same_capacity;
            not_more = v.not_more;
          })
          a.same_bytes a.same_pdus),
    (λ (x : CommandId.enquire_link ≡ CommandId.enquire_link_resp). absurd (omega arith)),
    (λ (x : CommandId.enquire_link ≡ CommandId.unbind_resp). absurd (omega arith)),
    At-IsPrefix total leaving ds a,
  )
