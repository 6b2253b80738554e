-- ===== src/Enums/MessagingMode.antt =====
-- include/smpp/param/esm_class.hpp: the enumerators of messaging_mode, which has the underlying type uint8_t.
use smpp.Common.{ℕ}

pub data MessagingMode : Type 0 where
  defaults : MessagingMode
  datagram : MessagingMode
  forward : MessagingMode
  store_and_forward : MessagingMode

unfoldable pub to_u8 : MessagingMode → ℕ
to_u8 defaults = 0x00
to_u8 datagram = 0x01
to_u8 forward = 0x02
to_u8 store_and_forward = 0x03
