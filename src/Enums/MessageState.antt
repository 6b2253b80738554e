-- ===== src/Enums/MessageState.antt =====
-- include/smpp/param/message_state.hpp: the enumerators of message_state, which has the underlying type uint8_t.
use smpp.Common.{ℕ}

pub data MessageState : Type 0 where
  enroute : MessageState
  delivered : MessageState
  expired : MessageState
  deleted : MessageState
  undeliverable : MessageState
  accepted : MessageState
  unknown : MessageState
  rejected : MessageState

unfoldable pub to_u8 : MessageState → ℕ
to_u8 enroute = 0x01
to_u8 delivered = 0x02
to_u8 expired = 0x03
to_u8 deleted = 0x04
to_u8 undeliverable = 0x05
to_u8 accepted = 0x06
to_u8 unknown = 0x07
to_u8 rejected = 0x08
