-- ===== src/Utility/ShortMessage.antt =====
-- include/smpp/utility/short_message.hpp: the headers in front of the text of a short message.
pub mod Fits
pub mod Headers
pub mod MultiPart
pub mod Packing
use Prim.Native.String.{String}
use smpp.Common.{ℕ, zero, suc, ◌+◌, ◌-◌, ◌*◌, ◌/◌, ◌%◌, ◌^◌, bit_and, bit_or}
use smpp.Common.{Bool, true, false, ◌&&◌, ◌||◌, not, ltb, leb, ◌==◌, if◌then◌else◌}
use smpp.Common.{List, [], ◌∷◌, ◌++◌, length, take, drop, Option, none, some}
use smpp.Exceptions.{Bytes, Result, ok, throws, stuck, ◌>>=◌, length_error}
use smpp.Param.{EsmClass, gsm_uhdi, gsm_both}
use smpp.Utility.DataCoding.{
  DataCodingUnicode, ascii_7_bit, ascii_8_bit, binary, ucs2, extract_unicode,
}

-- struct multi_part_data
pub record MultiPartData : Type 0 where
  pub concat_sm_ref_num : ℕ
  pub number_of_parts : ℕ
  pub sequence_number : ℕ

-- The member `headers_`: tags with their values.
abbrev pub UserDataHeader : Type 0
UserDataHeader = List (ℕ × Bytes)

abbrev pub concatenated_sm_8bit_ref : ℕ
concatenated_sm_8bit_ref = 0x00

abbrev pub concatenated_sm_16bit_ref : ℕ
concatenated_sm_16bit_ref = 0x08

abbrev pub udh_header_length : ℕ
udh_header_length = 2

-- The headers of multi part data have values of a fixed length.
pub wrong_length : ℕ → ℕ → Bool
wrong_length tag val_length =
    (tag == concatenated_sm_8bit_ref && not (val_length == 3))
    || (tag == concatenated_sm_16bit_ref && not (val_length == 4))

-- One round of the constructor's loop, on at least two bytes: the header and what is left of `buf`.
pub next_header : Bytes → Result ((ℕ × Bytes) × Bytes)
unfolding wrong_length
next_header (tag ∷ val_length ∷ rest) =
    let buf = tag ∷ val_length ∷ rest in
    let val_buf = take val_length (drop udh_header_length buf) in
    if ltb (length buf - udh_header_length) val_length
    then throws (length_error "user_data_header val length is bigger than available buf")
    else if wrong_length tag (length val_buf)
    then throws (length_error "user_data_header multi_part_data length is invalid")
    else ok ((tag, val_buf), drop (val_length + udh_header_length) buf)
next_header buf = stuck

-- The constructor's loop. Each round but the last takes two bytes at least.
pub header_loop : ℕ → Bytes → UserDataHeader → Result UserDataHeader
header_loop zero buf headers = stuck
header_loop (suc fuel) buf headers =
    let round : Result UserDataHeader = do
      (header, rest) ← next_header buf
      header_loop fuel rest (headers ++ (header ∷ []))
    in if leb udh_header_length (length buf) then round else ok headers

unfoldable pub deserialize_udh : Bytes → Result UserDataHeader
unfolding next_header header_loop
deserialize_udh buf = header_loop (suc (length buf)) buf []

unfoldable pub serialize_udh : UserDataHeader → Bytes
serialize_udh [] = []
serialize_udh ((tag, val) ∷ headers) = tag ∷ (length val % 256) ∷ (val ++ serialize_udh headers)

-- `static_cast<char>` keeps the lowest byte of a number.
unfoldable pub set_multi_part_data : MultiPartData → UserDataHeader → UserDataHeader
set_multi_part_data mpd headers =
    let number = mpd.concat_sm_ref_num in
    let parts = mpd.number_of_parts % 256 in
    let sequence = mpd.sequence_number % 256 in
    if ltb 0xff number
    then headers
      ++ ((
        concatenated_sm_16bit_ref,
        bit_and (number / 2 ^ 8) 0xff ∷ bit_and number 0xff ∷ parts ∷ sequence ∷ [],
      )
          ∷ [])
    else headers ++ ((concatenated_sm_8bit_ref, (number % 256) ∷ parts ∷ sequence ∷ []) ∷ [])

-- The constructor from multi_part_data.
pub udh_of_parts : MultiPartData → UserDataHeader
unfolding set_multi_part_data
udh_of_parts mpd = set_multi_part_data mpd []

-- std::find_if by the tag.
abbrev pub find_header : ℕ → UserDataHeader → Option Bytes
find_header tag [] = none
find_header tag ((t, val) ∷ headers) = if t == tag then some val else find_header tag headers

-- A char of a string; operator[] gives a null character at the end.
abbrev pub char_at : Bytes → ℕ → ℕ
char_at [] n = 0
char_at (c ∷ cs) zero = c
char_at (c ∷ cs) (suc n) = char_at cs n

-- `static_cast<uint16_t>` of a char, which the implementation of C++ may take for a signed number.
pub char_to_u16 : Bool → ℕ → ℕ
char_to_u16 signed c = if signed && leb 0x80 c then c + 0xff00 else c

pub read_8bit_ref : Bool → Bytes → MultiPartData
unfolding char_to_u16
read_8bit_ref signed val = record {
  concat_sm_ref_num = char_to_u16 signed (char_at val 0);
  number_of_parts = char_at val 1;
  sequence_number = char_at val 2;
}

pub read_16bit_ref : Bool → Bytes → MultiPartData
unfolding char_to_u16
read_16bit_ref signed val = record {
  concat_sm_ref_num =
      bit_or (char_to_u16 signed (char_at val 0) * 2 ^ 8) (char_to_u16 signed (char_at val 1))
      % 2 ^ 16;
  number_of_parts = char_at val 2;
  sequence_number = char_at val 3;
}

abbrev pub one_part : MultiPartData
one_part = record { concat_sm_ref_num = 0; number_of_parts = 1; sequence_number = 1 }

unfoldable pub get_multi_part_data : Bool → UserDataHeader → MultiPartData
unfolding read_8bit_ref read_16bit_ref
get_multi_part_data signed headers = elim (find_header concatenated_sm_8bit_ref headers) [
  | some val ↦ read_8bit_ref signed val
  | none ↦ elim (find_header concatenated_sm_16bit_ref headers) [
    | some val ↦ read_16bit_ref signed val
    | none ↦ one_part
  ]
]

-- The limit on a short message, which both functions check.
abbrev pub max_length : DataCodingUnicode → ℕ
max_length ascii_8_bit = 160
max_length ascii_7_bit = 140
max_length binary = 140
max_length ucs2 = 140

abbrev pub too_long_message : DataCodingUnicode → String
too_long_message ascii_8_bit = "short_message length is larger than 160"
too_long_message ascii_7_bit = "short_message length is larger than 140"
too_long_message binary = "short_message length is larger than 140"
too_long_message ucs2 = "short_message length is larger than 140"

unfoldable pub check_length : ℕ → Bytes → Result (Unit {0})
check_length data_coding short_message =
    let unicode = extract_unicode data_coding in
    if ltb (max_length unicode) (length short_message)
    then throws (length_error (too_long_message unicode))
    else ok tt

abbrev pub has_udh : EsmClass → Bool
has_udh esm_class =
    esm_class.gsm_network_features == gsm_uhdi || esm_class.gsm_network_features == gsm_both

-- The message as unpack_short_message cuts it.
unfoldable pub split_udh : Bytes → Result (UserDataHeader × Bytes)
split_udh short_message =
    let udh_length = char_at short_message 0 in
    if leb (length short_message) udh_length
    then throws (length_error "UDH lenght is larger than short_message")
    else do
      headers ← deserialize_udh (take udh_length (drop 1 short_message))
      ok (headers, drop (1 + udh_length) short_message)

unfoldable pub unpack_short_message : EsmClass → ℕ → Bytes → Result (UserDataHeader × Bytes)
unfolding check_length split_udh
unpack_short_message esm_class data_coding short_message =
    check_length data_coding short_message >>= λ _.
    if has_udh esm_class then split_udh short_message else ok ([], short_message)

-- The length and the serialized headers, unless there are none.
abbrev pub with_length : Bytes → Bytes
with_length [] = []
with_length (b ∷ bs) = (length (b ∷ bs) % 256) ∷ b ∷ bs

unfoldable pub pack_short_message : UserDataHeader → Bytes → ℕ → Result Bytes
unfolding check_length
pack_short_message headers body data_coding =
    let short_message = with_length (serialize_udh headers) ++ body in
    check_length data_coding short_message >>= λ _. ok short_message
