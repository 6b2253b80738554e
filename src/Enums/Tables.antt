-- ===== src/Enums/Tables.antt =====
-- The parts of esm_class and registered_delivery: the bits of their enumerators.
use smpp.Common.{ℕ, zero, suc, ◌%◌, ◌/◌, ◌<◌, ◌≡◌, refl, arith, List, [], ◌∷◌, Option, none, some}
use smpp.Enums.MessagingMode
use smpp.Enums.MessagingMode.{MessagingMode}
use smpp.Enums.MessageType
use smpp.Enums.MessageType.{MessageType}
use smpp.Enums.GsmNetworkFeatures
use smpp.Enums.GsmNetworkFeatures.{GsmNetworkFeatures, no, uhdi, reply_path, both}
use smpp.Enums.SmscDeliveryReceipt
use smpp.Enums.SmscDeliveryReceipt.{SmscDeliveryReceipt}
use smpp.Enums.SmeOriginatedAck
use smpp.Enums.SmeOriginatedAck.{SmeOriginatedAck}
use smpp.Enums.IntermediateNotification
use smpp.Enums.IntermediateNotification.{IntermediateNotification}

-- The enumerator at a position of a table with gaps.
abbrev pub named_at {ℓ} : {A : Type ℓ} → List (Option A) → ℕ → Option A
named_at [] n = none
named_at (x ∷ xs) zero = x
named_at (x ∷ xs) (suc n) = named_at xs n

-- Which enumerator the bits of a part stand for.
abbrev pub modes : List (Option MessagingMode)
modes =
    some MessagingMode.defaults
    ∷ some MessagingMode.datagram
    ∷ some MessagingMode.forward
    ∷ some MessagingMode.store_and_forward
    ∷ []

abbrev pub types : List (Option MessageType)
types =
    some MessageType.defaults
    ∷ some MessageType.delivery_receipt
    ∷ some MessageType.delivery_ack
    ∷ none
    ∷ some MessageType.user_ack
    ∷ none
    ∷ some MessageType.conv_abort
    ∷ none
    ∷ some MessageType.int_delivery_notif
    ∷ []

abbrev pub features : List (Option GsmNetworkFeatures)
features = some no ∷ some uhdi ∷ some reply_path ∷ some both ∷ []

abbrev pub receipts : List (Option SmscDeliveryReceipt)
receipts =
    some SmscDeliveryReceipt.no
    ∷ some SmscDeliveryReceipt.both
    ∷ some SmscDeliveryReceipt.failed
    ∷ []

abbrev pub acks : List (Option SmeOriginatedAck)
acks =
    some SmeOriginatedAck.no
    ∷ some SmeOriginatedAck.delivery_ack
    ∷ some SmeOriginatedAck.user_ack
    ∷ some SmeOriginatedAck.both
    ∷ []

abbrev pub notifications : List (Option IntermediateNotification)
notifications = some IntermediateNotification.no ∷ some IntermediateNotification.requested ∷ []

pub mode_bits : (m : MessagingMode) → MessagingMode.to_u8 m < 4
unfolding MessagingMode.to_u8
mode_bits MessagingMode.defaults = omega arith
mode_bits MessagingMode.datagram = omega arith
mode_bits MessagingMode.forward = omega arith
mode_bits MessagingMode.store_and_forward = omega arith

pub type_bits : (t : MessageType) → (MessageType.to_u8 t % 4 ≡ 0) × (MessageType.to_u8 t < 64)
unfolding MessageType.to_u8
type_bits MessageType.defaults = omega arith
type_bits MessageType.delivery_receipt = omega arith
type_bits MessageType.delivery_ack = omega arith
type_bits MessageType.user_ack = omega arith
type_bits MessageType.conv_abort = omega arith
type_bits MessageType.int_delivery_notif = omega arith

pub feature_bits :
    (g : GsmNetworkFeatures)
    → (GsmNetworkFeatures.to_u8 g % 64 ≡ 0) × (GsmNetworkFeatures.to_u8 g < 256)
unfolding GsmNetworkFeatures.to_u8
feature_bits no = omega arith
feature_bits uhdi = omega arith
feature_bits reply_path = omega arith
feature_bits both = omega arith

pub receipt_bits : (s : SmscDeliveryReceipt) → SmscDeliveryReceipt.to_u8 s < 4
unfolding SmscDeliveryReceipt.to_u8
receipt_bits SmscDeliveryReceipt.no = omega arith
receipt_bits SmscDeliveryReceipt.both = omega arith
receipt_bits SmscDeliveryReceipt.failed = omega arith

pub ack_bits :
    (o : SmeOriginatedAck) → (SmeOriginatedAck.to_u8 o % 4 ≡ 0) × (SmeOriginatedAck.to_u8 o < 16)
unfolding SmeOriginatedAck.to_u8
ack_bits SmeOriginatedAck.no = omega arith
ack_bits SmeOriginatedAck.delivery_ack = omega arith
ack_bits SmeOriginatedAck.user_ack = omega arith
ack_bits SmeOriginatedAck.both = omega arith

pub notification_bits :
    (i : IntermediateNotification)
    → (IntermediateNotification.to_u8 i % 16 ≡ 0) × (IntermediateNotification.to_u8 i < 32)
unfolding IntermediateNotification.to_u8
notification_bits IntermediateNotification.no = omega arith
notification_bits IntermediateNotification.requested = omega arith

pub mode_at : (m : MessagingMode) → named_at modes (MessagingMode.to_u8 m) ≡ some m
unfolding MessagingMode.to_u8
mode_at MessagingMode.defaults = refl
mode_at MessagingMode.datagram = refl
mode_at MessagingMode.forward = refl
mode_at MessagingMode.store_and_forward = refl

pub type_at : (t : MessageType) → named_at types (MessageType.to_u8 t / 4) ≡ some t
unfolding MessageType.to_u8
type_at MessageType.defaults = refl
type_at MessageType.delivery_receipt = refl
type_at MessageType.delivery_ack = refl
type_at MessageType.user_ack = refl
type_at MessageType.conv_abort = refl
type_at MessageType.int_delivery_notif = refl

pub feature_at :
    (g : GsmNetworkFeatures) → named_at features (GsmNetworkFeatures.to_u8 g / 64) ≡ some g
unfolding GsmNetworkFeatures.to_u8
feature_at GsmNetworkFeatures.no = refl
feature_at GsmNetworkFeatures.uhdi = refl
feature_at GsmNetworkFeatures.reply_path = refl
feature_at GsmNetworkFeatures.both = refl

pub receipt_at :
    (s : SmscDeliveryReceipt) → named_at receipts (SmscDeliveryReceipt.to_u8 s) ≡ some s
unfolding SmscDeliveryReceipt.to_u8
receipt_at SmscDeliveryReceipt.no = refl
receipt_at SmscDeliveryReceipt.both = refl
receipt_at SmscDeliveryReceipt.failed = refl

pub ack_at : (o : SmeOriginatedAck) → named_at acks (SmeOriginatedAck.to_u8 o / 4) ≡ some o
unfolding SmeOriginatedAck.to_u8
ack_at SmeOriginatedAck.no = refl
ack_at SmeOriginatedAck.delivery_ack = refl
ack_at SmeOriginatedAck.user_ack = refl
ack_at SmeOriginatedAck.both = refl

pub notification_at :
    (i : IntermediateNotification)
    → named_at notifications (IntermediateNotification.to_u8 i / 16) ≡ some i
unfolding IntermediateNotification.to_u8
notification_at IntermediateNotification.no = refl
notification_at IntermediateNotification.requested = refl
