-- ===== src/Net/Session/Stream/Frames.antt =====
-- A stream of whole PDUs that arrives in pieces: the caller is given each PDU once, in order.
use smpp.Common.{
  ℕ, zero, suc, ◌≤◌, ◌<◌, ◌≡◌, inl, inr, sym, ap, subst, ◌∙◌, arith, List, [], ◌∷◌, ◌++◌,
}
use smpp.Common.{
  length, take, drop, length-append, length-take, length-drop, take-append-drop, append_assoc,
  append-split, Bool-cases, leb,
}
use smpp.Exceptions.{Bytes}
use smpp.Header.{Header, header_length, deserialize_header}
use smpp.Header.RoundTrip.{deserialize_header-append}
use smpp.Net.FlatBuffer.{size, contents}
use smpp.Net.FlatBuffer.Invariant.{length-contents}
use smpp.Net.FlatBuffer.Queue.{size-le-capacity}
use smpp.Net.Session.Send.Lock.{IsFrame}
use smpp.Net.Session.Receive.{Receiver, header, receive_loop}
use smpp.Net.Session.Receive.Keepalive.{Incomplete}
use smpp.Net.Session.Receive.Reading.{IsReading, receive_loop-reads, after_read-received}
use smpp.Net.Session.Stream.{Delivery, read_size}
use smpp.Net.Session.Stream.Drive.{Delivers, Delivers-reads}

module _ (schedule : Bytes → ℕ) (total : ℕ) where
  -- A part of what is under way arrives.
  Delivers-arrives :
      (fuel : ℕ) (r : Receiver) (b : ℕ) (bs : Bytes) (ds : List Delivery)
      → IsReading total r
      → Incomplete r
      → size r.receive_buf < total
      → ((next : Receiver) (left : Bytes)
          → IsReading total next
          → contents next.receive_buf ++ left ≡ contents r.receive_buf ++ (b ∷ bs)
          → length left < length (b ∷ bs)
          → Delivers schedule (suc total) left (receive_loop (suc total) next) ds)
      → Delivers schedule (suc total) (b ∷ bs) (receive_loop (suc fuel) r) ds
  unfolding read_size
  Delivers-arrives fuel r b bs ds v i space k =
      let (waiting, e, w, same, room) = receive_loop-reads total fuel r v i in
      let n = read_size schedule (b ∷ bs) waiting.receive_buf in
      let chunk = take n (b ∷ bs) in
      let size_of = length-take n (b ∷ bs) in
      let (next, read, y, more) =
        after_read-received total (suc total) chunk waiting w (ground (arith, size_of, room))
          (ground (arith, size_of, room)) in
      subst (λ x. Delivers schedule (suc total) (b ∷ bs) x ds) (sym e)
        (Delivers-reads schedule (suc total) waiting b bs ds (
          subst (λ x. Delivers schedule (suc total) (drop n (b ∷ bs)) x ds) (sym read)
            (k next (drop n (b ∷ bs)) y
              (ap (λ xs. xs ++ drop n (b ∷ bs)) (more ∙ ap (λ xs. xs ++ chunk) same)
                ∙ append_assoc (contents r.receive_buf) chunk (drop n (b ∷ bs))
                ∙ ap (λ xs. contents r.receive_buf ++ xs) (take-append-drop n (b ∷ bs)))
              (ground (arith, length-drop n (b ∷ bs), room)))))

  -- While a frame is not there as a whole, the operation asks for more.
  pub part-Incomplete :
      (r : Receiver) (frame missing : Bytes)
      → IsReading total r
      → IsFrame frame
      → frame ≡ contents r.receive_buf ++ missing
      → 1 ≤ length missing
      → Incomplete r
  unfolding header
  part-Incomplete r frame missing v whole e h =
      let there = length-contents r.receive_buf v.is_buffer in
      let size_of = ap length e ∙ length-append (contents r.receive_buf) missing in
      (
        v.not_more,
        elim (Bool-cases (leb header_length (size r.receive_buf))) [
          | inl long ↦
              let long_enough : header_length ≤ length (contents r.receive_buf) =
                ground (arith, there) in
              let same =
                ap deserialize_header e
                ∙ deserialize_header-append (contents r.receive_buf) missing long_enough in
              inr
                (omega (arith, ap (λ (h : Header). h.command_length) same, whole.1, size_of, there))
          | inr short ↦ inl (ground arith)
        ],
      )

  module _ (frame tail : Bytes) (whole : IsFrame frame) (small : length frame ≤ total)
      (ds : List Delivery) where
    -- What is left to do once the frame is there.
    abbrev pub Handles : Type 0
    Handles =
        (fuel : ℕ) (r : Receiver) (under_way left : Bytes)
        → IsReading total r
        → size r.receive_buf < fuel
        → contents r.receive_buf ≡ frame ++ left
        → left ++ under_way ≡ tail
        → Delivers schedule (suc total) under_way (receive_loop fuel r) ds

    pub Delivers-frame :
        Handles
        → (m fuel : ℕ) (r : Receiver) (under_way : Bytes) → IsReading total r
        → size r.receive_buf < fuel
        → contents r.receive_buf ++ under_way ≡ frame ++ tail
        → length under_way ≤ m
        → Delivers schedule (suc total) under_way (receive_loop fuel r) ds
    Delivers-frame k m zero r under_way v h e l = absurd (omega arith)
    Delivers-frame k m (suc fuel) r [] v h e l =
        let sizes = ap length e in
        let (left, same, rest) = append-split frame (contents r.receive_buf) [] tail e (
          omega
            (arith, sizes, length-append frame tail, length-append (contents r.receive_buf) [])) in
        k (suc fuel) r [] left v h same rest
    Delivers-frame k zero (suc fuel) r (b ∷ bs) v h e l = absurd (omega arith)
    Delivers-frame k (suc m) (suc fuel) r (b ∷ bs) v h e l =
        elim (Bool-cases (leb (length frame) (length (contents r.receive_buf)))) [
          | inl there ↦
              let (left, same, rest) =
                append-split frame (contents r.receive_buf) (b ∷ bs) tail e (ground arith) in
              k (suc fuel) r (b ∷ bs) left v h same rest
          | inr part ↦
              let (missing, same, rest) =
                append-split (contents r.receive_buf) frame tail (b ∷ bs) (sym e) (ground arith) in
              let shorter : length (contents r.receive_buf) < length frame = ground arith in
              let sizes = ap length same ∙ length-append (contents r.receive_buf) missing in
              Delivers-arrives fuel r b bs ds v
                (part-Incomplete r frame missing v whole same (omega (arith, sizes)))
                (omega (arith, length-contents r.receive_buf v.is_buffer))
                (λ next left w same_stream fewer.
                  Delivers-frame k m (suc total) next left w (fits next w) (same_stream ∙ e)
                    (omega arith))
        ]
      where
        fits : (next : Receiver) → IsReading total next → size next.receive_buf < suc total
        fits next w = omega (arith, size-le-capacity next.receive_buf w.is_buffer, w.same_capacity)
