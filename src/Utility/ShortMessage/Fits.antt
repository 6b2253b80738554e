-- ===== src/Utility/ShortMessage/Fits.antt =====
-- pack_short_message by the number of octets that a short message takes.
use Prim.Native.String.{String}
use smpp.Common.{ℕ, ◌+◌, ◌%◌, ◌<◌, ◌≤◌, ◌≡◌, refl, sym, ap, ◌∙◌, ◌⊎◌, inl, inr, arith}
use smpp.Common.{Bool, true, not, ◌||◌, ◌&&◌, leb, ◌==◌, if◌then◌else◌}
use smpp.Common.{[], ◌∷◌, ◌++◌, All, length, length-append}
use smpp.Common.Bits.{agree_below, agree_below_sound}
use smpp.Exceptions.{Bytes, length_error, ok, throws, ◌>>=◌}
use smpp.Param.{EsmClass}
use smpp.Utility.DataCoding.{
  DataCodingUnicode, ascii_7_bit, ascii_8_bit, binary, ucs2, extract_unicode,
}
use smpp.Utility.ShortMessage.{
  UserDataHeader, serialize_udh, max_length, too_long_message, has_udh, unpack_short_message,
  pack_short_message,
}
use smpp.Utility.ShortMessage.Headers.{IsUserHeader}
use smpp.Utility.ShortMessage.Packing.{
  limit, packed, is_nil, pack_short_message-cases, unpack_short_message-pack_short_message,
}

-- A header is a tag, a length and a value.
abbrev pub header_octets : UserDataHeader → ℕ
header_octets [] = 0
header_octets ((tag, val) ∷ headers) = 2 + length val + header_octets headers

-- Headers have their length in front; without headers there is none.
abbrev pub octets : UserDataHeader → ℕ
octets [] = 0
octets (h ∷ hs) = 1 + header_octets (h ∷ hs)

-- The data codings of 8 bit characters, 0, 1, 3, 5, 6, 7 and 11 to 15, have the larger limit.
abbrev pub is_wide : ℕ → Bool
is_wide c = leb c 1 || c == 3 || (leb 5 c && leb c 7) || (leb 11 c && leb c 15)

abbrev pub most : ℕ → ℕ
most data_coding = if is_wide data_coding then 160 else 140

abbrev pub refusal : ℕ → String
refusal n =
    if n == 160
    then "short_message length is larger than 160"
    else "short_message length is larger than 140"

same_limits : agree_below limit most 256 ≡ true
unfolding agree_below extract_unicode
same_limits = refl

too_long_message-refusal : (u : DataCodingUnicode) → too_long_message u ≡ refusal (max_length u)
too_long_message-refusal ascii_7_bit = refl
too_long_message-refusal ascii_8_bit = refl
too_long_message-refusal binary = refl
too_long_message-refusal ucs2 = refl

length-serialize_udh : (hs : UserDataHeader) → length (serialize_udh hs) ≡ header_octets hs
unfolding serialize_udh
length-serialize_udh [] = refl
length-serialize_udh ((tag, val) ∷ hs) =
    omega (arith, length-append val (serialize_udh hs), length-serialize_udh hs)

length-packed :
    (headers : UserDataHeader) (body : Bytes)
    → length (packed headers body) ≡ octets headers + length body
unfolding serialize_udh
length-packed [] body = omega arith
length-packed ((tag, val) ∷ hs) body =
    let rest = val ++ serialize_udh hs in
    omega (
      arith,
      length-append (tag ∷ (length val % 256) ∷ rest) body,
      length-append val (serialize_udh hs),
      length-serialize_udh hs,
    )

-- A short message takes the octets of its body and, where there are headers, one for their length
-- and two for each header beside its value. Where these are at most 160, with the data codings 0,
-- 1, 3, 5, 6, 7 and 11 to 15, or 140, with every other byte, the message is made of exactly that
-- many octets and is unpacked to the same headers and body; where they are more, the length_error
-- that names this limit is thrown. The values have lengths that a byte can hold and, for the two
-- headers of multi part data, the length that the tag asks for, and the esm_class with which it is
-- unpacked says whether there are headers.
pub pack_short_message-octets :
    (headers : UserDataHeader) (body : Bytes) (data_coding : ℕ) (esm_class : EsmClass)
    → data_coding < 256
    → All IsUserHeader headers
    → has_udh esm_class ≡ not (is_nil headers)
    → ((octets headers + length body ≤ most data_coding)
        × (message : Bytes) × (pack_short_message headers body data_coding ≡ ok message)
        × (length message ≡ octets headers + length body)
        × (unpack_short_message esm_class data_coding message ≡ ok (headers, body)))
      ⊎ ((most data_coding < octets headers + length body)
          × (pack_short_message headers body data_coding
              ≡ throws (length_error (refusal (most data_coding)))))
pack_short_message-octets headers body data_coding esm_class c v h =
    let size = length-packed headers body in
    let same = agree_below_sound limit most 256 same_limits data_coding c in
    elim (pack_short_message-cases headers body data_coding) [
      | inl (fits, e) ↦ inl (
        omega arith,
        packed headers body,
        e,
        size,
        sym (ap (λ r. r >>= unpack_short_message esm_class data_coding) e)
            ∙ unpack_short_message-pack_short_message headers body data_coding esm_class v fits h,
      )
      | inr (long, e) ↦ inr (
        omega arith,
        e
            ∙ ap (λ s. throws (length_error s))
                (too_long_message-refusal (extract_unicode data_coding) ∙ ap refusal same),
      )
    ]
