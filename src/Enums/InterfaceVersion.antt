-- ===== src/Enums/InterfaceVersion.antt =====
-- include/smpp/param/interface_version.hpp: the enumerators of interface_version, which has the underlying type uint8_t.
use smpp.Common.{ℕ}

pub data InterfaceVersion : Type 0 where
  smpp_3_4 : InterfaceVersion

unfoldable pub to_u8 : InterfaceVersion → ℕ
to_u8 smpp_3_4 = 0x34
