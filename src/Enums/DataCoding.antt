-- ===== src/Enums/DataCoding.antt =====
-- include/smpp/param/data_coding.hpp: the enumerators of data_coding, which has the underlying type uint8_t.
use smpp.Common.{ℕ}

pub data DataCoding : Type 0 where
  defaults : DataCoding
  ia5 : DataCoding
  binary_alias : DataCoding
  iso8859_1 : DataCoding
  binary : DataCoding
  jis : DataCoding
  iso8859_5 : DataCoding
  iso8859_8 : DataCoding
  ucs2 : DataCoding
  pictogram : DataCoding
  iso2022_jp : DataCoding
  kanji : DataCoding
  ksc5601 : DataCoding

unfoldable pub to_u8 : DataCoding → ℕ
to_u8 defaults = 0x00
to_u8 ia5 = 0x01
to_u8 binary_alias = 0x02
to_u8 iso8859_1 = 0x03
to_u8 binary = 0x04
to_u8 jis = 0x05
to_u8 iso8859_5 = 0x06
to_u8 iso8859_8 = 0x07
to_u8 ucs2 = 0x08
to_u8 pictogram = 0x09
to_u8 iso2022_jp = 0x0a
to_u8 kanji = 0x0d
to_u8 ksc5601 = 0x0e
