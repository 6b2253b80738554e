-- ===== src/Enums/GsmNetworkFeatures.antt =====
-- include/smpp/param/esm_class.hpp: the enumerators of gsm_network_features, which has the underlying type uint8_t.
use smpp.Common.{ℕ}

pub data GsmNetworkFeatures : Type 0 where
  no : GsmNetworkFeatures
  uhdi : GsmNetworkFeatures
  reply_path : GsmNetworkFeatures
  both : GsmNetworkFeatures

unfoldable pub to_u8 : GsmNetworkFeatures → ℕ
to_u8 no = 0x00
to_u8 uhdi = 0x40
to_u8 reply_path = 0x80
to_u8 both = 0xc0
