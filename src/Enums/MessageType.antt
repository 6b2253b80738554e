-- ===== src/Enums/MessageType.antt =====
-- include/smpp/param/esm_class.hpp: the enumerators of message_type, which has the underlying type uint8_t.
use smpp.Common.{ℕ}

pub data MessageType : Type 0 where
  defaults : MessageType
  delivery_receipt : MessageType
  delivery_ack : MessageType
  user_ack : MessageType
  conv_abort : MessageType
  int_delivery_notif : MessageType

unfoldable pub to_u8 : MessageType → ℕ
to_u8 defaults = 0x00
to_u8 delivery_receipt = 0x04
to_u8 delivery_ack = 0x08
to_u8 user_ack = 0x10
to_u8 conv_abort = 0x18
to_u8 int_delivery_notif = 0x20
