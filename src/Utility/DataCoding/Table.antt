-- ===== src/Utility/DataCoding/Table.antt =====
-- The classification of data codings as a table: the codings of the first group one by one, and a
-- row for each other group, by the two bits that hold the alphabet.
use smpp.Common.{
  ℕ, zero, suc, ◌+◌, ◌*◌, ◌/◌, ◌%◌, ◌<◌, ◌≡◌, refl, ap, ◌∙◌, sym, arith, List, [], ◌∷◌, leb, ◌==◌,
  if◌then◌else◌, true,
}
use smpp.Common.Bits.{agree_below, agree_below_sound}
use smpp.Utility.DataCoding.{
  DataCodingUnicode, ascii_7_bit, ascii_8_bit, binary, ucs2, extract_unicode,
}

-- The entry at a position, or the last one.
abbrev pub entry : DataCodingUnicode → List DataCodingUnicode → ℕ → DataCodingUnicode
entry last [] n = last
entry last (x ∷ xs) zero = x
entry last (x ∷ xs) (suc n) = entry last xs n

-- SMPP 3.4: default alphabet, IA5, binary, Latin 1, binary, JIS, Cyrillic, Hebrew, UCS-2,
-- pictograms, music codes, four that are extended or reserved.
abbrev pub first_row : List DataCodingUnicode
first_row =
    ascii_8_bit ∷ ascii_8_bit ∷ binary ∷ ascii_8_bit ∷ binary ∷ ascii_8_bit ∷ ascii_8_bit
    ∷ ascii_8_bit ∷ ucs2 ∷ binary ∷ binary ∷ []

-- GSM 03.38, for the groups from the second on.
abbrev pub row : ℕ → ℕ → DataCodingUnicode
row group bits =
    if leb group 7
    then entry ascii_7_bit (ascii_7_bit ∷ binary ∷ ucs2 ∷ []) bits
    else if leb group 13
    then ascii_7_bit
    else if group == 14
    then ucs2
    else entry ascii_7_bit (ascii_7_bit ∷ binary ∷ ascii_7_bit ∷ binary ∷ []) bits

abbrev pub table : ℕ → ℕ → DataCodingUnicode
table group low = if group == 0 then entry ascii_8_bit first_row low else row group (low / 4)

number : DataCodingUnicode → ℕ
number ascii_7_bit = 0
number ascii_8_bit = 1
number binary = 2
number ucs2 = 3

of_number : ℕ → DataCodingUnicode
of_number zero = ascii_7_bit
of_number (suc zero) = ascii_8_bit
of_number (suc (suc zero)) = binary
of_number (suc (suc (suc n))) = ucs2

of_number-number : (u : DataCodingUnicode) → of_number (number u) ≡ u
unfolding of_number number
of_number-number ascii_7_bit = refl
of_number-number ascii_8_bit = refl
of_number-number binary = refl
of_number-number ucs2 = refl

same_numbers :
    agree_below (λ c. number (extract_unicode c)) (λ c. number (table (c / 16) (c % 16))) 256 ≡ true
unfolding agree_below number extract_unicode
same_numbers = refl

-- Every data_coding is classified as the table says, by its group and its low four bits.
pub extract_unicode-table :
    (group low : ℕ) → group < 16 → low < 16 → extract_unicode (group * 16 + low) ≡ table group low
extract_unicode-table group low g l =
    let c = group * 16 + low in
    let high : c / 16 ≡ group = omega arith in
    let rest : c % 16 ≡ low = omega arith in
    sym (of_number-number (extract_unicode c))
    ∙ ap of_number (agree_below_sound _ _ 256 same_numbers c (omega arith))
    ∙ of_number-number (table (c / 16) (c % 16))
    ∙ rw (high, rest) refl
