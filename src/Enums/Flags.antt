-- ===== src/Enums/Flags.antt =====
-- The enumerators that the bytes of esm_class and registered_delivery are made of.
use smpp.Common.{◌%◌, ◌/◌, ◌≡◌, refl, ap, ◌∙◌, arith}
use smpp.Common.{Bool, true, false, some}
use smpp.Param.{
  EsmClass, esm_class_from_u8, esm_class_to_u8, RegisteredDelivery, registered_delivery_from_u8,
  registered_delivery_to_u8,
}
use smpp.Param.Flags.{
  IsEsmClass, IsRegisteredDelivery, esm_class_to_u8-sum, registered_delivery_to_u8-sum,
  esm_class_from_u8-esm_class_to_u8, registered_delivery_from_u8-registered_delivery_to_u8,
}
use smpp.Utility.ShortMessage.{has_udh}
use smpp.Enums.Tables.{
  named_at, modes, types, features, receipts, acks, notifications, mode_bits, type_bits,
  feature_bits, receipt_bits, ack_bits, notification_bits, mode_at, type_at, feature_at, receipt_at,
  ack_at, notification_at,
}
use smpp.Enums.MessagingMode
use smpp.Enums.MessagingMode.{MessagingMode}
use smpp.Enums.MessageType
use smpp.Enums.MessageType.{MessageType}
use smpp.Enums.GsmNetworkFeatures
use smpp.Enums.GsmNetworkFeatures.{GsmNetworkFeatures, uhdi, reply_path, both, no}
use smpp.Enums.SmscDeliveryReceipt
use smpp.Enums.SmscDeliveryReceipt.{SmscDeliveryReceipt}
use smpp.Enums.SmeOriginatedAck
use smpp.Enums.SmeOriginatedAck.{SmeOriginatedAck}
use smpp.Enums.IntermediateNotification
use smpp.Enums.IntermediateNotification.{IntermediateNotification}

-- The parts as enumerators.
abbrev pub esm_of : MessagingMode → MessageType → GsmNetworkFeatures → EsmClass
esm_of m t g = record {
  messaging_mode = MessagingMode.to_u8 m;
  message_type = MessageType.to_u8 t;
  gsm_network_features = GsmNetworkFeatures.to_u8 g;
}

abbrev pub registered_of :
    SmscDeliveryReceipt → SmeOriginatedAck → IntermediateNotification → RegisteredDelivery
registered_of s o i = record {
  smsc_delivery_receipt = SmscDeliveryReceipt.to_u8 s;
  sme_originated_ack = SmeOriginatedAck.to_u8 o;
  intermediate_notification = IntermediateNotification.to_u8 i;
}

-- The features with which a short message begins with headers.
abbrev pub carries_headers : GsmNetworkFeatures → Bool
carries_headers no = false
carries_headers uhdi = true
carries_headers reply_path = false
carries_headers both = true

has_udh-carries_headers :
    (m : MessagingMode) (t : MessageType) (g : GsmNetworkFeatures)
    → has_udh (esm_of m t g) ≡ carries_headers g
unfolding GsmNetworkFeatures.to_u8
has_udh-carries_headers m t no = refl
has_udh-carries_headers m t uhdi = refl
has_udh-carries_headers m t reply_path = refl
has_udh-carries_headers m t both = refl

-- An esm_class that is made of enumerators is the sum of its parts.
esm_class_to_u8-esm_of :
    (m : MessagingMode) (t : MessageType) (g : GsmNetworkFeatures)
    → IsEsmClass (esm_of m t g)
    → let b = esm_class_to_u8 (esm_of m t g) in
      (b % 4 ≡ MessagingMode.to_u8 m)
      × (b / 4 % 16 ≡ MessageType.to_u8 t / 4)
      × (b / 64 ≡ GsmNetworkFeatures.to_u8 g / 64)
esm_class_to_u8-esm_of m t g v = omega (arith, esm_class_to_u8-sum (esm_of m t g) v, v)

registered_delivery_to_u8-registered_of :
    (s : SmscDeliveryReceipt) (o : SmeOriginatedAck) (i : IntermediateNotification)
    → IsRegisteredDelivery (registered_of s o i)
    → let b = registered_delivery_to_u8 (registered_of s o i) in
      (b % 4 ≡ SmscDeliveryReceipt.to_u8 s)
      × (b / 4 % 4 ≡ SmeOriginatedAck.to_u8 o / 4)
      × (b / 16 ≡ IntermediateNotification.to_u8 i / 16)
registered_delivery_to_u8-registered_of s o i v =
    omega (arith, registered_delivery_to_u8-sum (registered_of s o i) v, v)

esm_class_read :
    (m : MessagingMode) (t : MessageType) (g : GsmNetworkFeatures)
    → let b = esm_class_to_u8 (esm_of m t g) in
      (named_at modes (b % 4) ≡ some m)
      × (named_at types (b / 4 % 16) ≡ some t)
      × (named_at features (b / 64) ≡ some g)
      × (esm_class_from_u8 b ≡ esm_of m t g)
esm_class_read m t g =
    let v : IsEsmClass (esm_of m t g) = omega (arith, mode_bits m, type_bits t, feature_bits g) in
    let (em, et, eg) = esm_class_to_u8-esm_of m t g v in
    (
      ap (named_at modes) em ∙ mode_at m,
      ap (named_at types) et ∙ type_at t,
      ap (named_at features) eg ∙ feature_at g,
      (esm_class_from_u8-esm_class_to_u8 (esm_of m t g) v).0,
    )

registered_delivery_read :
    (s : SmscDeliveryReceipt) (o : SmeOriginatedAck) (i : IntermediateNotification)
    → let b = registered_delivery_to_u8 (registered_of s o i) in
      (named_at receipts (b % 4) ≡ some s)
      × (named_at acks (b / 4 % 4) ≡ some o)
      × (named_at notifications (b / 16) ≡ some i)
      × (registered_delivery_from_u8 b ≡ registered_of s o i)
registered_delivery_read s o i =
    let v : IsRegisteredDelivery (registered_of s o i) =
      omega (arith, receipt_bits s, ack_bits o, notification_bits i) in
    let (es, eo, ei) = registered_delivery_to_u8-registered_of s o i v in
    (
      ap (named_at receipts) es ∙ receipt_at s,
      ap (named_at acks) eo ∙ ack_at o,
      ap (named_at notifications) ei ∙ notification_at i,
      (registered_delivery_from_u8-registered_delivery_to_u8 (registered_of s o i) v).0,
    )

-- The bytes of an esm_class and of a registered_delivery that are made of enumerators name these
-- enumerators by a table for the bits of each part; the bytes are read as the same parts, and the
-- condition under which unpack_short_message looks for headers holds of the esm_class exactly where
-- its gsm_network_features are uhdi or both.
pub flags_from_u8-enumerators :
    (m : MessagingMode) (t : MessageType) (g : GsmNetworkFeatures) (s : SmscDeliveryReceipt)
    (o : SmeOriginatedAck) (i : IntermediateNotification)
    → let b = esm_class_to_u8 (esm_of m t g) in
      let r = registered_delivery_to_u8 (registered_of s o i) in
      ((named_at modes (b % 4) ≡ some m)
        × (named_at types (b / 4 % 16) ≡ some t)
        × (named_at features (b / 64) ≡ some g)
        × (esm_class_from_u8 b ≡ esm_of m t g))
      × ((named_at receipts (r % 4) ≡ some s)
          × (named_at acks (r / 4 % 4) ≡ some o)
          × (named_at notifications (r / 16) ≡ some i)
          × (registered_delivery_from_u8 r ≡ registered_of s o i))
      × (has_udh (esm_class_from_u8 b) ≡ carries_headers g)
flags_from_u8-enumerators m t g s o i =
    let read = esm_class_read m t g in
    (read, registered_delivery_read s o i, ap has_udh read.3 ∙ has_udh-carries_headers m t g)
