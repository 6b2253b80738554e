-- ===== src/Enums/SmscDeliveryReceipt.antt =====
-- include/smpp/param/registered_delivery.hpp: the enumerators of smsc_delivery_receipt, which has the underlying type uint8_t.
use smpp.Common.{ℕ}

pub data SmscDeliveryReceipt : Type 0 where
  no : SmscDeliveryReceipt
  both : SmscDeliveryReceipt
  failed : SmscDeliveryReceipt

unfoldable pub to_u8 : SmscDeliveryReceipt → ℕ
to_u8 no = 0x00
to_u8 both = 0x01
to_u8 failed = 0x02
