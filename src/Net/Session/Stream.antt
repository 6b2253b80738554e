-- ===== src/Net/Session/Stream.antt =====
-- A caller that calls async_receive again after each PDU, and a peer whose bytes arrive in pieces
-- of any size.
pub mod Drive
pub mod Frames
pub mod Sent
pub mod Order
pub mod Pdus
use smpp.Common.{ℕ, zero, suc, ◌-◌, min, List, [], ◌∷◌, take, drop, Option, none, some, false}
use smpp.Common.{◌==◌, if◌then◌else◌}
use smpp.CommandId
use smpp.Exceptions.{Bytes, Result}
use smpp.Net.FlatBuffer.{FlatBuffer}
use smpp.Net.PduVariant.{PduVariant}
use smpp.Net.Session.{no_error}
use smpp.Net.Session.Receive.{
  Receiver, Effect, reads, posts, sends, delivers, fails, closes, leaves, undefined_span,
  receive_loop, after_post, after_read, after_send_enquire_link_resp, new_receiver,
}

-- What the caller is given: the PDU, its sequence_number and its command_status.
abbrev pub Delivery : Type 0
Delivery = Result PduVariant × ℕ × ℕ

-- The bytes that async_read_some may write.
unfoldable pub room : FlatBuffer → ℕ
room b = b.last_pos - b.out_pos

-- How many of the bytes that are under way a read takes: at least one, at most what there is room for.
pub read_size : (Bytes → ℕ) → Bytes → FlatBuffer → ℕ
unfolding room
read_size schedule under_way b = min (suc (schedule under_way)) (room b)

-- The PDUs that the caller is given. The first number is the fuel of each run of the loop of
-- receive_op, and the second one counts the waits that end.
pub drive : (Bytes → ℕ) → ℕ → ℕ → Bytes → Option Effect → List Delivery
unfolding read_size
drive schedule inner zero under_way effect = []
drive schedule inner (suc fuel) under_way none = []
drive schedule inner (suc fuel) [] (some (reads r)) = []
drive schedule inner (suc fuel) (b ∷ bs) (some (reads r)) =
    let n = read_size schedule (b ∷ bs) r.receive_buf in
    drive schedule inner fuel (drop n (b ∷ bs))
      (after_read inner (take n (b ∷ bs)) no_error false r)
drive schedule inner (suc fuel) under_way (some (posts r)) =
    drive schedule inner fuel under_way (after_post r)
drive schedule inner (suc fuel) under_way (some (sends r id number)) =
    let answered = drive schedule inner fuel under_way (after_send_enquire_link_resp inner r) in
    if id == CommandId.enquire_link_resp then answered else []
drive schedule inner (suc fuel) under_way (some (delivers r pdu number status)) =
    (pdu, number, status)
    ∷ drive schedule inner fuel under_way (receive_loop inner (new_receiver r.receive_buf))
drive schedule inner (suc fuel) under_way (some (fails r ec)) = []
drive schedule inner (suc fuel) under_way (some (closes r ec)) = []
drive schedule inner (suc fuel) under_way (some (leaves e)) = []
drive schedule inner (suc fuel) under_way (some undefined_span) = []
