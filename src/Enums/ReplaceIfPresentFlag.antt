-- ===== src/Enums/ReplaceIfPresentFlag.antt =====
-- include/smpp/param/replace_if_present_flag.hpp: the enumerators of replace_if_present_flag, which has the underlying type uint8_t.
use smpp.Common.{ℕ}

pub data ReplaceIfPresentFlag : Type 0 where
  no : ReplaceIfPresentFlag
  yes : ReplaceIfPresentFlag

unfoldable pub to_u8 : ReplaceIfPresentFlag → ℕ
to_u8 no = 0x00
to_u8 yes = 0x01
