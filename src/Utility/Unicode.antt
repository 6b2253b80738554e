-- ===== src/Utility/Unicode.antt =====
-- include/smpp/utility/unicode_converter.hpp: texts as UCS-2, two bytes to a character.
pub mod Tables
pub mod Characters
pub mod Ascii
use smpp.Common.{
  ℕ, zero, suc, Bool, true, false, ◌&&◌, not, ltb, ◌==◌, if◌then◌else◌, List, [], ◌∷◌, ◌++◌,
}
use smpp.Exceptions.{Bytes}
use Tables.{Word, gsm_03_38_to_ucs2, extended_gsm_03_38_to_ucs2}

abbrev pub escape : ℕ
escape = 0x1b

-- `array[i]`; the code asks for no entry behind the last.
abbrev pub word_at : List Word → ℕ → Word
word_at [] i = (0, 0)
word_at (w ∷ ws) zero = w
word_at (w ∷ ws) (suc i) = word_at ws i

pub word_bytes : Word → Bytes
word_bytes (h, l) = h ∷ l ∷ []

-- The word of a septet, from the one or the other table.
pub septet_word : Bool → ℕ → Word
septet_word extended septet =
    if extended then word_at extended_gsm_03_38_to_ucs2 septet else word_at gsm_03_38_to_ucs2 septet

-- The loop's body: `extended` as it is afterwards, and what is appended.
pub convert_septet : Bool → ℕ → Bool × Bytes
unfolding septet_word word_bytes
convert_septet extended septet =
    if ltb 127 septet
    then (extended, [])
    else if not extended && septet == escape
    then (true, [])
    else (false, word_bytes (septet_word extended septet))

pub convert_loop : Bool → Bytes → Bytes → Bytes
unfolding convert_septet
convert_loop extended [] ucs2 = ucs2
convert_loop extended (septet ∷ body) ucs2 =
    let (extended', word) = convert_septet extended septet in
    convert_loop extended' body (ucs2 ++ word)

unfoldable pub convert_gsm_to_ucs2 : Bytes → Bytes
unfolding convert_loop
convert_gsm_to_ucs2 body = convert_loop false body []

unfoldable pub convert_ascii_to_ucs2 : Bytes → Bytes
convert_ascii_to_ucs2 [] = []
convert_ascii_to_ucs2 (ch ∷ body) = 0x00 ∷ ch ∷ convert_ascii_to_ucs2 body
