-- ===== src/Header.antt =====
-- include/smpp/net/detail/header_serialization.hpp: the 16 bytes in front of each PDU.
pub mod RoundTrip
use smpp.Common.{ℕ, ◌*◌, ◌/◌, ◌%◌, ◌^◌, bit_and, bit_or, List, [], ◌∷◌, ◌++◌}
use smpp.Common.{length, take, drop}
use smpp.Exceptions.{Bytes}

-- std::tuple<uint32_t, command_id, command_status, uint32_t>
pub record Header : Type 0 where
  pub command_length : ℕ
  pub command_id : ℕ
  pub command_status : ℕ
  pub sequence_number : ℕ

abbrev pub rok : ℕ
rok = 0x0000_0000

abbrev pub header_length : ℕ
header_length = 16

-- The promoted bytes are shifted and joined as int, and the result is converted to uint32_t.
unfoldable pub deserialize_u32 : ℕ → ℕ → ℕ → ℕ → ℕ
deserialize_u32 b0 b1 b2 b3 =
    bit_or (bit_or (bit_or (b0 * 2 ^ 24) (b1 * 2 ^ 16)) (b2 * 2 ^ 8)) b3 % 2 ^ 32

-- Reads four bytes from the front of the span.
unfoldable pub u32_at : Bytes → ℕ
u32_at (b0 ∷ b1 ∷ b2 ∷ b3 ∷ rest) = deserialize_u32 b0 b1 b2 b3
u32_at rest = 0

-- `subspan<4 * i, 4>()` for i = 0, 1, 2, 3.
unfoldable pub deserialize_header : Bytes → Header
deserialize_header buf = record {
  command_length = u32_at buf;
  command_id = u32_at (drop 4 buf);
  command_status = u32_at (drop 8 buf);
  sequence_number = u32_at (drop 12 buf);
}

unfoldable pub serialize_u32 : ℕ → Bytes
serialize_u32 val =
    bit_and (val / 2 ^ 24) 0xff
    ∷ bit_and (val / 2 ^ 16) 0xff
    ∷ bit_and (val / 2 ^ 8) 0xff
    ∷ bit_and val 0xff
    ∷ []

-- The first 16 bytes of the buffer are overwritten, and the others stay.
unfoldable pub serialize_header : Bytes → Header → Bytes
serialize_header buf h =
    serialize_u32 h.command_length
    ++ (serialize_u32 h.command_id
        ++ (serialize_u32 h.command_status
            ++ (serialize_u32 h.sequence_number ++ drop header_length buf)))
