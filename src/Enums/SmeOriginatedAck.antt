-- ===== src/Enums/SmeOriginatedAck.antt =====
-- include/smpp/param/registered_delivery.hpp: the enumerators of sme_originated_ack, which has the underlying type uint8_t.
use smpp.Common.{ℕ}

pub data SmeOriginatedAck : Type 0 where
  no : SmeOriginatedAck
  delivery_ack : SmeOriginatedAck
  user_ack : SmeOriginatedAck
  both : SmeOriginatedAck

unfoldable pub to_u8 : SmeOriginatedAck → ℕ
to_u8 no = 0x00
to_u8 delivery_ack = 0x04
to_u8 user_ack = 0x08
to_u8 both = 0x0c
