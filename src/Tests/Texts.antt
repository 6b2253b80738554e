-- ===== src/Tests/Texts.antt =====
-- The theorems on short messages and texts, at concrete inputs.
use smpp.Common.{All, ◌+◌, ◌<◌, ◌≤◌, ◌≡◌, ◌⊎◌, refl, inr, arith, true, [], ◌∷◌, length}
use smpp.Exceptions.{Bytes, ok, throws, length_error, ◌>>=◌}
use smpp.Param.{EsmClass}
use smpp.Utility.DataCoding.{binary, extract_unicode}
use smpp.Utility.DataCoding.Table.{extract_unicode-table}
use smpp.Utility.ShortMessage.{
  MultiPartData, UserDataHeader, get_multi_part_data, set_multi_part_data, serialize_udh,
  pack_short_message, unpack_short_message,
}
use smpp.Utility.ShortMessage.Fits.{octets, most, refusal, pack_short_message-octets}
use smpp.Utility.ShortMessage.Headers.{IsUserHeader}
use smpp.Utility.ShortMessage.MultiPart.{get_multi_part_data-set_multi_part_data}
use smpp.Utility.ShortMessage.Packing.{
  limit, packed, unpack_short_message-pack_short_message, Unpacked, unpack_short_message-Unpacked,
}
use smpp.Utility.Unicode.Tables.{gsm_03_38_to_ucs2, extended_gsm_03_38_to_ucs2}
use smpp.Utility.Unicode.{convert_gsm_to_ucs2, convert_ascii_to_ucs2}
use smpp.Utility.Unicode.Characters.{
  basic, extended, characters, ucs2_text, convert_gsm_to_ucs2-characters,
}
use smpp.Utility.Unicode.Ascii.{convert_gsm_to_ucs2-convert_ascii_to_ucs2}

extract_unicode-table_example : extract_unicode 0xf5 ≡ binary
extract_unicode-table_example = extract_unicode-table 15 5 (omega arith) (omega arith)

abbrev second_of_three : MultiPartData
second_of_three = record { concat_sm_ref_num = 0x1234; number_of_parts = 3; sequence_number = 2 }

get_multi_part_data-set_multi_part_data_example :
    get_multi_part_data true (set_multi_part_data second_of_three ((0x24, 1 ∷ []) ∷ []))
    ≡ second_of_three
get_multi_part_data-set_multi_part_data_example =
    get_multi_part_data-set_multi_part_data true second_of_three ((0x24, 1 ∷ []) ∷ []) (omega arith)
      (refl, refl) (inr (omega arith))

abbrev high_number : MultiPartData
high_number = record { concat_sm_ref_num = 0xc8; number_of_parts = 2; sequence_number = 1 }

abbrev with_headers : EsmClass
with_headers = record { messaging_mode = 0; message_type = 0; gsm_network_features = 0x40 }

abbrev udh : UserDataHeader
udh = (0, 7 ∷ 2 ∷ 1 ∷ []) ∷ (0x24, 1 ∷ []) ∷ []

abbrev hi : Bytes
hi = 0x68 ∷ 0x69 ∷ []

udh_fits : length (packed udh hi) ≤ limit 0
unfolding serialize_udh extract_unicode
udh_fits = omega arith

udh_valid : All IsUserHeader udh
udh_valid = (
  (omega arith, λ e. refl, λ e. absurd (omega arith)),
  ((omega arith, λ e. absurd (omega arith), λ e. absurd (omega arith)), tt),
)

unpack_short_message-pack_short_message_example :
    (pack_short_message udh hi 0 >>= unpack_short_message with_headers 0) ≡ ok (udh, hi)
unpack_short_message-pack_short_message_example =
    unpack_short_message-pack_short_message udh hi 0 with_headers udh_valid udh_fits refl

pack_short_message-octets_example :
    ((octets udh + length hi ≤ most 4)
      × (message : Bytes) × (pack_short_message udh hi 4 ≡ ok message)
      × (length message ≡ octets udh + length hi)
      × (unpack_short_message with_headers 4 message ≡ ok (udh, hi)))
    ⊎ ((most 4 < octets udh + length hi)
        × (pack_short_message udh hi 4 ≡ throws (length_error (refusal (most 4)))))
pack_short_message-octets_example =
    pack_short_message-octets udh hi 4 with_headers (omega arith) udh_valid refl

unpack_short_message-Unpacked_example :
    Unpacked (2 ∷ 0x24 ∷ 0 ∷ hi) true (unpack_short_message with_headers 0 (2 ∷ 0x24 ∷ 0 ∷ hi))
unpack_short_message-Unpacked_example =
    unpack_short_message-Unpacked with_headers 0 (2 ∷ 0x24 ∷ 0 ∷ hi) (omega arith)

-- An escape with the euro sign, a byte that is no septet, and an escape at the end.
abbrev euro : Bytes
euro = 0x1b ∷ 0xff ∷ 0x65 ∷ 0x41 ∷ 0x1b ∷ []

euro_text : convert_gsm_to_ucs2 euro ≡ 0x20 ∷ 0xac ∷ 0x00 ∷ 0x41 ∷ []
unfolding convert_gsm_to_ucs2 gsm_03_38_to_ucs2 extended_gsm_03_38_to_ucs2
euro_text = refl

convert_gsm_to_ucs2-characters_example :
    convert_gsm_to_ucs2 euro ≡ ucs2_text (extended 0x65 ∷ basic 0x41 ∷ [])
unfolding characters
convert_gsm_to_ucs2-characters_example = convert_gsm_to_ucs2-characters euro

convert_gsm_to_ucs2-convert_ascii_to_ucs2_example :
    convert_gsm_to_ucs2 hi ≡ convert_ascii_to_ucs2 hi
convert_gsm_to_ucs2-convert_ascii_to_ucs2_example =
    convert_gsm_to_ucs2-convert_ascii_to_ucs2 hi (refl, (refl, tt))
