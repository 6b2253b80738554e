-- ===== src/Enums/IntermediateNotification.antt =====
-- include/smpp/param/registered_delivery.hpp: the enumerators of intermediate_notification, which has the underlying type uint8_t.
use smpp.Common.{ℕ}

pub data IntermediateNotification : Type 0 where
  no : IntermediateNotification
  requested : IntermediateNotification

unfoldable pub to_u8 : IntermediateNotification → ℕ
to_u8 no = 0x00
to_u8 requested = 0x10
