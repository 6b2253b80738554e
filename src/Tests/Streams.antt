-- ===== src/Tests/Streams.antt =====
-- The theorem on a caller that receives again and again, at a concrete input.
use smpp.Common.{ℕ, suc, ◌+◌, ◌≡◌, refl, arith, false, [], ◌∷◌, ◌++◌}
use smpp.Exceptions.{Bytes}
use smpp.Header.{deserialize_header, u32_at, deserialize_u32}
use smpp.Net.FlatBuffer.{FlatBuffer, capacity, contents}
use smpp.Net.FlatBuffer.Invariant.{IsBuffer}
use smpp.Net.Session.Receive.{receive_loop, new_receiver}
use smpp.Net.Session.Receive.Framing.{IsPduFrame}
use smpp.Net.Session.Stream.{drive}
use smpp.Net.Session.Stream.Sent.{Sent, silent, pdu, asks, delivery}
use smpp.Net.Session.Stream.Order.{drive-Sent}

-- A buffer of 18 bytes.
abbrev empty : FlatBuffer
empty = record {
  buf = 0 ∷ 0 ∷ 0 ∷ 0 ∷ 0 ∷ 0 ∷ 0 ∷ 0 ∷ 0 ∷ 0 ∷ 0 ∷ 0 ∷ 0 ∷ 0 ∷ 0 ∷ 0 ∷ 0 ∷ 0 ∷ [];
  in_pos = 0;
  out_pos = 0;
  last_pos = 0;
}

empty-IsBuffer : IsBuffer empty
empty-IsBuffer = omega arith

-- An enquire_link, and a generic_nack without a body.
abbrev ping : Bytes
ping = 0 ∷ 0 ∷ 0 ∷ 16 ∷ 0 ∷ 0 ∷ 0 ∷ 21 ∷ 0 ∷ 0 ∷ 0 ∷ 0 ∷ 0 ∷ 0 ∷ 0 ∷ 1 ∷ []

abbrev nack : Bytes
nack = 0 ∷ 0 ∷ 0 ∷ 16 ∷ 128 ∷ 0 ∷ 0 ∷ 0 ∷ 0 ∷ 0 ∷ 0 ∷ 3 ∷ 0 ∷ 0 ∷ 0 ∷ 7 ∷ []

nack-IsPduFrame : IsPduFrame nack
unfolding deserialize_header u32_at deserialize_u32
nack-IsPduFrame = record {
  is_frame = (omega arith, refl);
  not_enquire_link = omega arith;
  not_enquire_link_resp = omega arith;
  not_unbind = omega arith;
  not_unbind_resp = omega arith;
}

ping-Sent : Sent (capacity empty) false (ping ∷ nack ∷ []) (delivery nack ∷ [])
unfolding deserialize_header u32_at deserialize_u32 capacity
ping-Sent =
    asks ping (omega arith, refl) (omega arith) refl (pdu nack nack-IsPduFrame (omega arith) silent)

drive-Sent_example :
    (k : ℕ) × ((more : ℕ)
      → drive
          (λ bs. 1)
          (suc (capacity empty))
          (k + more)
          (ping ++ nack)
          (receive_loop (suc (capacity empty)) (new_receiver empty))
        ≡ delivery nack ∷ [])
unfolding contents
drive-Sent_example = drive-Sent (λ bs. 1) empty (ping ++ nack) empty-IsBuffer ping-Sent refl
