-- ===== src/Enums/Npi.antt =====
-- include/smpp/param/npi.hpp: the enumerators of npi, which has the underlying type uint8_t.
use smpp.Common.{ℕ}

pub data Npi : Type 0 where
  unknown : Npi
  e164 : Npi
  data_npi : Npi
  telex : Npi
  e212 : Npi
  national : Npi
  privates : Npi
  ermes : Npi
  internet : Npi
  wapclient : Npi

unfoldable pub to_u8 : Npi → ℕ
to_u8 unknown = 0x00
to_u8 e164 = 0x01
to_u8 data_npi = 0x03
to_u8 telex = 0x04
to_u8 e212 = 0x06
to_u8 national = 0x08
to_u8 privates = 0x09
to_u8 ermes = 0x0a
to_u8 internet = 0x0e
to_u8 wapclient = 0x12
