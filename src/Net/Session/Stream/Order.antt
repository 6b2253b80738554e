-- ===== src/Net/Session/Stream/Order.antt =====
-- The PDUs of a stream are given to the caller in their order, and nothing else.
use smpp.Common.{
  ℕ, zero, suc, ◌+◌, ◌≤◌, ◌<◌, ◌≡◌, inl, refl, ap, subst, sym, ◌∙◌, arith, List, [], ◌∷◌, ◌++◌,
  length, length-append,
}
use smpp.Common.{Bool, true, false, some, if◌then◌else◌}
use smpp.Exceptions.{Bytes}
use smpp.CommandId
use smpp.Header.{Header, deserialize_header}
use smpp.Net.FlatBuffer.{FlatBuffer, size, capacity, contents}
use smpp.Net.FlatBuffer.Invariant.{IsBuffer, length-contents, consume-IsBuffer}
use smpp.Net.FlatBuffer.Queue.{size-le-capacity, capacity-consume}
use smpp.Net.Session.Send.Lock.{IsFrame}
use smpp.Net.Session.Receive.{
  Receiver, posts, header, consumed, receive_loop, after_post, new_receiver,
}
use smpp.Net.Session.Receive.Framing.{
  IsPduFrame, header_lem, command_length_lem, contents-consumed, receive_loop-dispatch,
  after_post-delivers, dispatch-pdu, dispatch-enquire_link, after_send_enquire_link_resp-consumed,
}
use smpp.Net.Session.Receive.Fuel.{receive_loop_skip, size-consumed}
use smpp.Net.Session.Receive.Reading.{IsReading, receive_loop-reads}
use smpp.Net.Session.Stream.{Delivery, drive}
use smpp.Net.Session.Stream.Drive.{
  Delivers, Delivers-waits, Delivers-posts, Delivers-answers, Delivers-delivers,
}
use smpp.Net.Session.Stream.Frames.{Handles, Delivers-frame}
use smpp.Net.Session.Stream.Sent.{Sent, silent, pdu, asks, answers, quits, delivery, stream}

pub consumed-IsReading :
    (total : ℕ) (r : Receiver) → IsReading total r → IsReading total (consumed r)
unfolding consumed
consumed-IsReading total r v = record {
  is_buffer = consume-IsBuffer r.receive_buf v.is_buffer (header r).command_length;
  same_capacity = capacity-consume (header r).command_length r.receive_buf ∙ v.same_capacity;
  not_more = v.not_more;
}

pub again-IsReading :
    (total : ℕ) (r : Receiver) → IsReading total r → IsReading total (new_receiver r.receive_buf)
again-IsReading total r v = record {
  is_buffer = v.is_buffer;
  same_capacity = v.same_capacity;
  not_more = refl;
}

pub size-lt : (total : ℕ) (r : Receiver) → IsReading total r → size r.receive_buf < suc total
size-lt total r v = omega (arith, size-le-capacity r.receive_buf v.is_buffer, v.same_capacity)

module _ (schedule : Bytes → ℕ) (total : ℕ) where
  -- What the rest of the stream is delivered as, from any state between two PDUs.
  abbrev Continues : Bytes → List Delivery → Type 0
  Continues bytes ds =
      (fuel : ℕ) (r : Receiver) (under_way : Bytes)
      → IsReading total r
      → size r.receive_buf < fuel
      → contents r.receive_buf ++ under_way ≡ bytes
      → Delivers schedule (suc total) under_way (receive_loop fuel r) ds

  Continues-silent : Continues [] []
  Continues-silent zero r under_way v h e = absurd (omega arith)
  Continues-silent (suc fuel) r (b ∷ bs) v h e =
      absurd (omega (arith, ap length e, length-append (contents r.receive_buf) (b ∷ bs)))
  Continues-silent (suc fuel) r [] v h e =
      let nothing = ap length e in
      let (waiting, reading, w, same, room) = receive_loop-reads total fuel r v (
        v.not_more,
        inl (
            omega (
              arith,
              nothing,
              length-append (contents r.receive_buf) [],
              length-contents r.receive_buf v.is_buffer,
            )),
      ) in
      subst (λ x. Delivers schedule (suc total) [] x []) (sym reading)
        (Delivers-waits schedule (suc total) waiting)

  posts-first :
      (r : Receiver) (under_way : Bytes) (ds : List Delivery) (needs_post : Bool)
      → Delivers schedule (suc total) under_way (after_post r) ds
      → Delivers schedule
          (suc total)
          under_way
          (if needs_post then some (posts r) else after_post r)
          ds
  posts-first r under_way ds true d = Delivers-posts schedule (suc total) r under_way ds d
  posts-first r under_way ds false d = d

  module _ (frame tail : Bytes) (ds : List Delivery) (k : Continues tail ds) where
    -- The rest is handled from the buffer that the frame was taken off.
    after-frame :
        (f : IsFrame frame) (fuel : ℕ) (r : Receiver) (under_way left : Bytes)
        → IsReading total r
        → size (consumed r).receive_buf < fuel
        → contents r.receive_buf ≡ frame ++ left
        → left ++ under_way ≡ tail
        → Delivers schedule (suc total) under_way (receive_loop fuel (consumed r)) ds
    after-frame f fuel r under_way left v h e rest =
        k fuel (consumed r) under_way (consumed-IsReading total r v) h
          (ap (λ xs. xs ++ under_way) (contents-consumed r v.is_buffer frame left f e) ∙ rest)

    pdu-Handles :
        (f : IsPduFrame frame) (small : length frame ≤ total)
        → Handles schedule total frame tail f.is_frame small (delivery frame ∷ ds)
    pdu-Handles f small zero r under_way left v h e rest = absurd (omega arith)
    pdu-Handles f small (suc fuel) r under_way left v h e rest =
        let next = consumed-IsReading total r v in
        let behind : Delivers schedule (suc total) under_way
            (receive_loop (suc total) (new_receiver (consumed r).receive_buf)) ds =
          k (suc total) (new_receiver (consumed r).receive_buf) under_way
            (again-IsReading total (consumed r) next) (size-lt total (consumed r) next)
            (ap (λ xs. xs ++ under_way) (contents-consumed r v.is_buffer frame left f.is_frame e)
              ∙ rest) in
        let delivered : Delivers schedule (suc total) under_way (after_post r)
            (delivery frame ∷ ds) =
          subst (λ x. Delivers schedule (suc total) under_way x (delivery frame ∷ ds))
            (sym (after_post-delivers r v.is_buffer frame left f.is_frame e))
            (Delivers-delivers schedule (suc total) (consumed r) _ _ _ under_way ds behind) in
        subst (λ x. Delivers schedule (suc total) under_way x (delivery frame ∷ ds))
          (sym (
            receive_loop-dispatch r v.is_buffer frame left f.is_frame fuel v.not_more e
            ∙ dispatch-pdu r v.is_buffer frame left f (receive_loop fuel (consumed r)) e))
          (posts-first r under_way (delivery frame ∷ ds) r.needs_post delivered)

    asks-Handles :
        (f : IsFrame frame) (small : length frame ≤ total)
        → (deserialize_header frame).command_id ≡ CommandId.enquire_link
        → Handles schedule total frame tail f small ds
    asks-Handles f small id zero r under_way left v h e rest = absurd (omega arith)
    asks-Handles f small id (suc fuel) r under_way left v h e rest =
        let same = ap (λ (x : Header). x.command_id) (header_lem r v.is_buffer frame left f e) in
        let behind =
          subst (λ x. Delivers schedule (suc total) under_way x ds)
            (sym (after_send_enquire_link_resp-consumed (suc total) r))
            (after-frame f (suc total) r under_way left v
              (size-lt total (consumed r) (consumed-IsReading total r v)) e rest) in
        subst (λ x. Delivers schedule (suc total) under_way x ds)
          (sym (
            receive_loop-dispatch r v.is_buffer frame left f fuel v.not_more e
            ∙ dispatch-enquire_link r (receive_loop fuel (consumed r)) (same ∙ id)))
          (Delivers-answers schedule (suc total) r (some (header r).sequence_number) under_way ds
            behind)

    answers-Handles :
        (f : IsFrame frame) (small : length frame ≤ total)
        → (deserialize_header frame).command_id ≡ CommandId.enquire_link_resp
        → Handles schedule total frame tail f small ds
    answers-Handles f small id zero r under_way left v h e rest = absurd (omega arith)
    answers-Handles f small id (suc fuel) r under_way left v h e rest =
        let same = ap (λ (x : Header). x.command_id) (header_lem r v.is_buffer frame left f e) in
        let long = command_length_lem r v.is_buffer frame left f e in
        let sizes = ap length e ∙ length-append frame left in
        let there = length-contents r.receive_buf v.is_buffer in
        let shorter = size-consumed r v.is_buffer in
        subst (λ x. Delivers schedule (suc total) under_way x ds)
          (sym (
            receive_loop_skip fuel r (
              v.not_more,
              omega (arith, sizes, there, f.0),
              omega (arith, sizes, there, long),
              same ∙ id,
            )))
          (after-frame f fuel r under_way left v (omega (arith, shorter, long, f.0, sizes, there)) e
            rest)

  Sent-Continues :
      {frames : List Bytes} {ds : List Delivery}
      → Sent total false frames ds
      → Continues (stream frames) ds
  Sent-Continues silent = Continues-silent
  Sent-Continues (pdu {frames} {ds} frame f small sent) = λ fuel r under_way v h e.
      Delivers-frame schedule total frame (stream frames) f.is_frame small (delivery frame ∷ ds)
        (pdu-Handles frame (stream frames) ds (Sent-Continues sent) f small) (length under_way) fuel
        r under_way v h e (omega arith)
  Sent-Continues (asks {frames} {ds} frame f small id sent) = λ fuel r under_way v h e.
      Delivers-frame schedule total frame (stream frames) f small ds
        (asks-Handles frame (stream frames) ds (Sent-Continues sent) f small id) (length under_way)
        fuel r under_way v h e (omega arith)
  Sent-Continues (answers {frames} {ds} frame f small id sent) = λ fuel r under_way v h e.
      Delivers-frame schedule total frame (stream frames) f small ds
        (answers-Handles frame (stream frames) ds (Sent-Continues sent) f small id)
        (length under_way) fuel r under_way v h e (omega arith)
  Sent-Continues (quits frame l f small id sent) = absurd (let no : false ≡ true = l in cc)

-- However the bytes of PDUs, enquire_links and their responses, each of which fits into the
-- buffer, are cut into reads, a caller that receives again and again is given exactly the PDUs, in
-- their order, each by its own bytes; the number of waits that this takes, and any more, is
-- enough.
pub drive-Sent :
    (schedule : Bytes → ℕ) {frames : List Bytes} {ds : List Delivery} (b : FlatBuffer)
    (under_way : Bytes)
    → IsBuffer b
    → Sent (capacity b) false frames ds
    → contents b ++ under_way ≡ stream frames
    → (k : ℕ) × ((more : ℕ)
        → drive schedule
            (suc (capacity b))
            (k + more)
            under_way
            (receive_loop (suc (capacity b)) (new_receiver b))
          ≡ ds)
drive-Sent schedule b under_way v sent e =
    let start : IsReading (capacity b) (new_receiver b) = record {
      is_buffer = v;
      same_capacity = refl;
      not_more = refl;
    } in
    let (k, enough) =
      Sent-Continues schedule (capacity b) sent (suc (capacity b)) (new_receiver b) under_way start
        (size-lt (capacity b) (new_receiver b) start) e in
    (k, λ more. enough (k + more) (omega arith))
