-- ===== src/Enums/Ton.antt =====
-- include/smpp/param/ton.hpp: the enumerators of ton, which has the underlying type uint8_t.
use smpp.Common.{ℕ}

pub data Ton : Type 0 where
  unknown : Ton
  international : Ton
  national : Ton
  networkspecific : Ton
  subscribernumber : Ton
  alphanumeric : Ton
  abbreviated : Ton

unfoldable pub to_u8 : Ton → ℕ
to_u8 unknown = 0x00
to_u8 international = 0x01
to_u8 national = 0x02
to_u8 networkspecific = 0x03
to_u8 subscribernumber = 0x04
to_u8 alphanumeric = 0x05
to_u8 abbreviated = 0x06
