-- ===== src/Utility/DataCoding.antt =====
-- include/smpp/utility/data_coding_unicode.hpp: the alphabet that a data_coding stands for.
pub mod Table
use smpp.Common.{ℕ, ◌+◌, ◌*◌, ◌<◌, ◌≡◌, arith, Bool, true, false, ◌||◌, List, [], ◌∷◌}
use smpp.Common.{bit_and, ◌==◌, ltb, if◌then◌else◌}

pub data DataCodingUnicode : Type 0 where
  ascii_7_bit ascii_8_bit binary ucs2 : DataCodingUnicode

-- `case` labels that share their code.
abbrev pub one_of : ℕ → List ℕ → Bool
one_of n [] = false
one_of n (label ∷ labels) = n == label || one_of n labels

-- The codings of the first group are numbered one by one.
pub extract_first_group : ℕ → DataCodingUnicode
extract_first_group coding =
    if one_of coding
      (0x00 ∷ 0x01 ∷ 0x03 ∷ 0x05 ∷ 0x06 ∷ 0x07 ∷ 0x0d ∷ 0x0e ∷ 0x0b ∷ 0x0c ∷ 0x0f ∷ [])
    then ascii_8_bit
    else if one_of coding (0x02 ∷ 0x04 ∷ 0x09 ∷ 0x0a ∷ [])
    then binary
    else if coding == 0x08
    then ucs2
    else ascii_7_bit

-- The groups with the alphabet in two bits.
pub extract_alphabet : ℕ → DataCodingUnicode
extract_alphabet alphabet =
    if alphabet == 0x04 then binary else if alphabet == 0x08 then ucs2 else ascii_7_bit

unfoldable pub extract_unicode : ℕ → DataCodingUnicode
unfolding extract_first_group extract_alphabet
extract_unicode data_coding =
    let group = bit_and data_coding 0xf0 in
    if group == 0x00
    then extract_first_group (bit_and data_coding 0x0f)
    else if one_of group (0x10 ∷ 0x20 ∷ 0x30 ∷ 0x40 ∷ 0x50 ∷ 0x60 ∷ 0x70 ∷ [])
    then extract_alphabet (bit_and data_coding 0x0c)
    else if one_of group (0x80 ∷ 0x90 ∷ 0xa0 ∷ 0xb0 ∷ 0xc0 ∷ 0xd0 ∷ [])
    then ascii_7_bit
    else if group == 0xe0
    then ucs2
    else if group == 0xf0
    then if bit_and data_coding 0x04 == 0 then ascii_7_bit else binary
    else ascii_7_bit
