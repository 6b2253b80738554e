-- ===== src/Utility/ShortMessage/MultiPart.antt =====
-- set_multi_part_data and get_multi_part_data. What is read depends on whether char is signed.
use smpp.Common.{ℕ, ◌*◌, ◌/◌, ◌%◌, ◌^◌, ◌<◌, ◌≡◌, refl, ◌∙◌, ◌⊎◌, inl, inr, arith}
use smpp.Common.{Bool, true, false, ltb, ◌==◌, if◌then◌else◌, Bool-cases, [], ◌∷◌, ◌++◌, none, some}
use smpp.Common.{bit_and, bit_or}
use smpp.Common.Bits.{bit_or_shifted, bit_and_byte}
use smpp.Exceptions.{Bytes, IsByte}
use smpp.Utility.ShortMessage.{
  MultiPartData, UserDataHeader, concatenated_sm_8bit_ref, concatenated_sm_16bit_ref, find_header,
  char_to_u16, read_8bit_ref, read_16bit_ref, set_multi_part_data, get_multi_part_data,
}

-- The fields are a uint16_t and two uint8_t.
pub record IsMultiPart (mpd : MultiPartData) : Type 0 where
  pub number_u16 : mpd.concat_sm_ref_num < 2 ^ 16
  pub parts_u8 : IsByte mpd.number_of_parts
  pub sequence_u8 : IsByte mpd.sequence_number

-- The headers hold no multi part data yet.
abbrev pub HasNoParts : UserDataHeader → Type 0
HasNoParts headers =
    (find_header concatenated_sm_8bit_ref headers ≡ none)
    × (find_header concatenated_sm_16bit_ref headers ≡ none)

find_header-append :
    (tag : ℕ) (headers : UserDataHeader) (t : ℕ) (val : Bytes)
    → find_header tag headers ≡ none
    → find_header tag (headers ++ ((t, val) ∷ [])) ≡ (if t == tag then some val else none)
find_header-append tag [] t val h = refl
find_header-append tag ((u, v) ∷ headers) t val h =
    ground (arith, find_header-append tag headers t val)

-- Where char is unsigned, or no char of the number has its highest bit set.
abbrev pub ReadsUnsigned : Bool → MultiPartData → Type 0
ReadsUnsigned signed mpd =
    (signed ≡ false) ⊎ ((mpd.concat_sm_ref_num / 256 < 128) × (mpd.concat_sm_ref_num % 256 < 128))

char_to_u16-same : (signed : Bool) (c : ℕ) → (signed ≡ false) ⊎ (c < 128) → char_to_u16 signed c ≡ c
unfolding char_to_u16
char_to_u16-same false c h = refl
char_to_u16-same true c h = ground arith

u8_same : (n : ℕ) → IsByte n → n % 256 ≡ n
u8_same n h = omega arith

read_8bit_ref-same :
    (signed : Bool) (mpd : MultiPartData)
    → IsMultiPart mpd
    → ReadsUnsigned signed mpd
    → mpd.concat_sm_ref_num < 256
    → read_8bit_ref signed (
        (mpd.concat_sm_ref_num % 256)
        ∷ (mpd.number_of_parts % 256)
        ∷ (mpd.sequence_number % 256)
        ∷ [])
      ≡ mpd
unfolding read_8bit_ref
read_8bit_ref-same signed mpd v s small = λ i. record {
  concat_sm_ref_num =
      (char_to_u16-same signed (mpd.concat_sm_ref_num % 256) (ground arith)
          ∙ u8_same mpd.concat_sm_ref_num small)
        i;
  number_of_parts = u8_same mpd.number_of_parts v.parts_u8 i;
  sequence_number = u8_same mpd.sequence_number v.sequence_u8 i;
}

-- The two bytes of a number, as they are read again.
both_bytes :
    (signed : Bool) (n : ℕ)
    → n < 2 ^ 16
    → (signed ≡ false) ⊎ ((n / 256 < 128) × (n % 256 < 128))
    → bit_or
          (char_to_u16 signed (bit_and (n / 2 ^ 8) 0xff) * 2 ^ 8)
          (char_to_u16 signed (bit_and n 0xff))
        % 2 ^ 16
      ≡ n
both_bytes signed n h s =
    let high : bit_and (n / 2 ^ 8) 0xff ≡ n / 256 = bit_and_byte (n / 2 ^ 8) ∙ omega arith in
    let low = bit_and_byte n in
    rw
      (
        high,
        low,
        char_to_u16-same signed (n / 256) (ground arith),
        char_to_u16-same signed (n % 256) (ground arith),
      )
      (omega (arith, bit_or_shifted 8 (n / 256) (n % 256) (omega arith)))

read_16bit_ref-same :
    (signed : Bool) (mpd : MultiPartData)
    → IsMultiPart mpd
    → ReadsUnsigned signed mpd
    → read_16bit_ref signed (
        bit_and (mpd.concat_sm_ref_num / 2 ^ 8) 0xff
        ∷ bit_and mpd.concat_sm_ref_num 0xff
        ∷ (mpd.number_of_parts % 256)
        ∷ (mpd.sequence_number % 256)
        ∷ [])
      ≡ mpd
unfolding read_16bit_ref
read_16bit_ref-same signed mpd v s = λ i. record {
  concat_sm_ref_num = both_bytes signed mpd.concat_sm_ref_num v.number_u16 s i;
  number_of_parts = u8_same mpd.number_of_parts v.parts_u8 i;
  sequence_number = u8_same mpd.sequence_number v.sequence_u8 i;
}

-- What get_multi_part_data finds in headers that end in one more.
get_8bit :
    (signed : Bool) (headers : UserDataHeader) (val : Bytes)
    → HasNoParts headers
    → get_multi_part_data signed (headers ++ ((concatenated_sm_8bit_ref, val) ∷ []))
      ≡ read_8bit_ref signed val
unfolding get_multi_part_data
get_8bit signed headers val h =
    rw
      (
        find_header-append concatenated_sm_8bit_ref headers concatenated_sm_8bit_ref val h.0,
        get_multi_part_data,
      )
      refl

get_16bit :
    (signed : Bool) (headers : UserDataHeader) (val : Bytes)
    → HasNoParts headers
    → get_multi_part_data signed (headers ++ ((concatenated_sm_16bit_ref, val) ∷ []))
      ≡ read_16bit_ref signed val
unfolding get_multi_part_data
get_16bit signed headers val h =
    rw
      (
        find_header-append concatenated_sm_8bit_ref headers concatenated_sm_16bit_ref val h.0,
        find_header-append concatenated_sm_16bit_ref headers concatenated_sm_16bit_ref val h.1,
        get_multi_part_data,
      )
      refl

-- Multi part data that are added to headers without any are read back, where char is unsigned or
-- neither byte of the reference number has its highest bit set.
pub get_multi_part_data-set_multi_part_data :
    (signed : Bool) (mpd : MultiPartData) (headers : UserDataHeader)
    → IsMultiPart mpd
    → HasNoParts headers
    → ReadsUnsigned signed mpd
    → get_multi_part_data signed (set_multi_part_data mpd headers) ≡ mpd
unfolding set_multi_part_data
get_multi_part_data-set_multi_part_data signed mpd headers v none_yet s =
    elim (Bool-cases (ltb 0xff mpd.concat_sm_ref_num)) [
      | inl wide ↦
          rw wide (get_16bit signed headers _ none_yet ∙ read_16bit_ref-same signed mpd v s)
      | inr narrow ↦
          rw narrow
            (get_8bit signed headers _ none_yet ∙ read_8bit_ref-same signed mpd v s (ground arith))
    ]
