-- ===== src/Param/Flags.antt =====
-- The conversions of esm_class.hpp and registered_delivery.hpp from and to uint8_t.
use smpp.Common.{ℕ, ◌+◌, ◌*◌, ◌/◌, ◌%◌, ◌<◌, ◌≡◌, refl, bit_and, bit_or, arith}
use smpp.Common.Bits.{agree_below, agree_below_sound}
use smpp.Param.{EsmClass, esm_class_from_u8, esm_class_to_u8}
use smpp.Param.{RegisteredDelivery, registered_delivery_from_u8, registered_delivery_to_u8}

-- Each part lies in the bits that the others leave free.
pub record IsEsmClass (e : EsmClass) : Type 0 where
  pub mode : e.messaging_mode < 4
  pub type_bits : e.message_type % 4 ≡ 0
  pub type_bound : e.message_type < 64
  pub gsm_bits : e.gsm_network_features % 64 ≡ 0
  pub gsm_bound : e.gsm_network_features < 256

pub record IsRegisteredDelivery (r : RegisteredDelivery) : Type 0 where
  pub receipt : r.smsc_delivery_receipt < 4
  pub ack_bits : r.sme_originated_ack % 4 ≡ 0
  pub ack_bound : r.sme_originated_ack < 16
  pub notification_bits : r.intermediate_notification % 16 ≡ 0
  pub notification_bound : r.intermediate_notification < 32

mask_mode : (b : ℕ) → b < 256 → bit_and b 0x03 ≡ b % 4
unfolding agree_below
mask_mode = agree_below_sound _ _ 256 refl

mask_type : (b : ℕ) → b < 256 → bit_and b 0x3c ≡ b / 4 % 16 * 4
unfolding agree_below
mask_type = agree_below_sound _ _ 256 refl

mask_gsm : (b : ℕ) → b < 256 → bit_and b 0xc0 ≡ b / 64 * 64
unfolding agree_below
mask_gsm = agree_below_sound _ _ 256 refl

mask_ack : (b : ℕ) → b < 256 → bit_and b 0x0c ≡ b / 4 % 4 * 4
unfolding agree_below
mask_ack = agree_below_sound _ _ 256 refl

mask_notification : (b : ℕ) → b < 256 → bit_and b 0x10 ≡ b / 16 % 2 * 16
unfolding agree_below
mask_notification = agree_below_sound _ _ 256 refl

-- The parts of a byte, joined again.
join_esm : (b : ℕ) → b < 256 → bit_or (bit_or (b % 4) (b / 4 % 16 * 4)) (b / 64 * 64) ≡ b
unfolding agree_below
join_esm = agree_below_sound _ _ 256 refl

join_registered : (b : ℕ) → b < 32 → bit_or (bit_or (b % 4) (b / 4 % 4 * 4)) (b / 16 * 16) ≡ b
unfolding agree_below
join_registered = agree_below_sound _ _ 32 refl

or_parts_esm :
    (b m t g : ℕ)
    → b < 256
    → b % 4 ≡ m
    → b / 4 % 16 * 4 ≡ t
    → b / 64 * 64 ≡ g
    → bit_or (bit_or m t) g ≡ b
or_parts_esm b m t g h hm ht hg = cc (join_esm b h)

or_parts_registered :
    (b m t g : ℕ)
    → b < 32
    → b % 4 ≡ m
    → b / 4 % 4 * 4 ≡ t
    → b / 16 * 16 ≡ g
    → bit_or (bit_or m t) g ≡ b
or_parts_registered b m t g h hm ht hg = cc (join_registered b h)

pub esm_class_to_u8-sum :
    (e : EsmClass)
    → IsEsmClass e
    → esm_class_to_u8 e ≡ e.messaging_mode + e.message_type + e.gsm_network_features
unfolding esm_class_to_u8
esm_class_to_u8-sum e v =
    or_parts_esm (e.messaging_mode + e.message_type + e.gsm_network_features) _ _ _ (omega arith)
      (omega arith) (omega arith) (omega arith)

pub registered_delivery_to_u8-sum :
    (r : RegisteredDelivery)
    → IsRegisteredDelivery r
    → registered_delivery_to_u8 r
      ≡ r.smsc_delivery_receipt + r.sme_originated_ack + r.intermediate_notification
unfolding registered_delivery_to_u8
registered_delivery_to_u8-sum r v =
    or_parts_registered
      (r.smsc_delivery_receipt + r.sme_originated_ack + r.intermediate_notification) _ _ _
      (omega arith) (omega arith) (omega arith) (omega arith)

-- An esm_class whose parts lie in their bits comes back from its byte, and the byte is a uint8_t.
pub esm_class_from_u8-esm_class_to_u8 :
    (e : EsmClass)
    → IsEsmClass e
    → (esm_class_from_u8 (esm_class_to_u8 e) ≡ e) × (esm_class_to_u8 e < 256)
unfolding esm_class_from_u8
esm_class_from_u8-esm_class_to_u8 e v = ground (
  arith,
  esm_class_to_u8-sum e v,
  mask_mode (esm_class_to_u8 e),
  mask_type (esm_class_to_u8 e),
  mask_gsm (esm_class_to_u8 e),
)

-- The same for registered_delivery.
pub registered_delivery_from_u8-registered_delivery_to_u8 :
    (r : RegisteredDelivery)
    → IsRegisteredDelivery r
    → (registered_delivery_from_u8 (registered_delivery_to_u8 r) ≡ r)
      × (registered_delivery_to_u8 r < 256)
unfolding registered_delivery_from_u8
registered_delivery_from_u8-registered_delivery_to_u8 r v = ground (
  arith,
  registered_delivery_to_u8-sum r v,
  mask_mode (registered_delivery_to_u8 r),
  mask_ack (registered_delivery_to_u8 r),
  mask_notification (registered_delivery_to_u8 r),
)

-- What is read from a byte has its parts in their bits.
pub esm_class_from_u8-IsEsmClass : (b : ℕ) → b < 256 → IsEsmClass (esm_class_from_u8 b)
unfolding esm_class_from_u8
esm_class_from_u8-IsEsmClass b h = ground (arith, mask_mode b h, mask_type b h, mask_gsm b h)

pub registered_delivery_from_u8-IsRegisteredDelivery :
    (b : ℕ) → b < 256 → IsRegisteredDelivery (registered_delivery_from_u8 b)
unfolding registered_delivery_from_u8
registered_delivery_from_u8-IsRegisteredDelivery b h =
    ground (arith, mask_mode b h, mask_ack b h, mask_notification b h)

-- Every byte, read as an esm_class and converted back, is the same byte.
pub esm_class_to_u8-esm_class_from_u8 :
    (b : ℕ) → b < 256 → esm_class_to_u8 (esm_class_from_u8 b) ≡ b
unfolding esm_class_to_u8 esm_class_from_u8
esm_class_to_u8-esm_class_from_u8 b h =
    rw (mask_mode b h, mask_type b h, mask_gsm b h) (join_esm b h)

-- A registered_delivery keeps the five low bits of the byte it is read from; the others are lost.
pub registered_delivery_to_u8-registered_delivery_from_u8 :
    (b : ℕ) → b < 256 → registered_delivery_to_u8 (registered_delivery_from_u8 b) ≡ b % 32
unfolding registered_delivery_to_u8 registered_delivery_from_u8 agree_below
registered_delivery_to_u8-registered_delivery_from_u8 = agree_below_sound _ _ 256 refl
