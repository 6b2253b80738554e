-- ===== src/Utility/Unicode/Ascii.antt =====
-- Texts of characters that GSM 03.38 and ASCII share.
use smpp.Common.{ℕ, ◌<◌, ◌≡◌, refl, sym, ap, ◌∙◌, arith}
use smpp.Common.{Bool, true, false, ◌&&◌, ◌||◌, leb, ◌==◌, if◌then◌else◌, [], ◌∷◌, ◌++◌, All}
use smpp.Common.Bits.{agree_below, agree_below_sound}
use smpp.Common.{append_assoc, append-nil}
use smpp.Exceptions.{Bytes}
use smpp.Utility.Unicode.Characters.{basic, ucs2_of, convert_loop-basic}
use smpp.Utility.Unicode.Tables.{gsm_03_38_to_ucs2}
use smpp.Utility.Unicode.{
  word_at, word_bytes, septet_word, convert_loop, convert_gsm_to_ucs2, convert_ascii_to_ucs2,
}

abbrev pub between : ℕ → ℕ → ℕ → Bool
between low high c = leb low c && leb c high

-- Letters, digits, line ends, and the punctuation with the same code in both: all of 0x20 to 0x7a
-- but for `$`, `@`, `[`, `\`, `]`, `^`, `_` and the backquote.
abbrev pub is_shared : ℕ → Bool
is_shared c =
    c == 0x0a
    || c == 0x0d
    || between 0x20 0x23 c
    || between 0x25 0x3f c
    || between 0x41 0x5a c
    || between 0x61 0x7a c

-- What the basic table has for a shared character.
high_of : ℕ → ℕ
unfolding gsm_03_38_to_ucs2
high_of c = if is_shared c then (word_at gsm_03_38_to_ucs2 c).0 else 0

low_of : ℕ → ℕ
unfolding gsm_03_38_to_ucs2
low_of c = if is_shared c then (word_at gsm_03_38_to_ucs2 c).1 else c

high_table : agree_below high_of (λ c. 0) 128 ≡ true
unfolding high_of agree_below
high_table = refl

low_table : agree_below low_of (λ c. c) 128 ≡ true
unfolding low_of agree_below
low_table = refl

shared-lt : (c : ℕ) → is_shared c ≡ true → c < 128
shared-lt c h = ground arith

shared_word : (c : ℕ) → is_shared c ≡ true → word_bytes (septet_word false c) ≡ 0 ∷ c ∷ []
unfolding septet_word word_bytes high_of low_of
shared_word c h =
    let word = word_at gsm_03_38_to_ucs2 c in
    let read_high : high_of c ≡ word.0 = rw h refl in
    let read_low : low_of c ≡ word.1 = rw h refl in
    let high =
      sym read_high ∙ agree_below_sound high_of (λ c. 0) 128 high_table c (shared-lt c h) in
    let low = sym read_low ∙ agree_below_sound low_of (λ c. c) 128 low_table c (shared-lt c h) in
    λ i. high i ∷ low i ∷ []

shared : (c : ℕ) → is_shared c ≡ true → ucs2_of (basic c) ≡ 0 ∷ c ∷ []
unfolding ucs2_of
shared c h = shared_word c h

convert_loop-shared :
    (body out : Bytes)
    → All (λ c. is_shared c ≡ true) body
    → convert_loop false body out ≡ out ++ convert_ascii_to_ucs2 body
unfolding convert_ascii_to_ucs2
convert_loop-shared [] out v = unfold convert_loop in rw append-nil refl
convert_loop-shared (c ∷ cs) out v =
    convert_loop-basic c cs out (ground (arith, shared-lt c v.0)) (ground arith)
    ∙ convert_loop-shared cs (out ++ ucs2_of (basic c)) v.1
    ∙ append_assoc out (ucs2_of (basic c)) _
    ∙ ap (λ w. out ++ (w ++ convert_ascii_to_ucs2 cs)) (shared c v.0)

-- A text of characters that GSM 03.38 and ASCII share is the same in UCS-2 whichever of the two it
-- is taken for.
pub convert_gsm_to_ucs2-convert_ascii_to_ucs2 :
    (body : Bytes)
    → All (λ c. is_shared c ≡ true) body
    → convert_gsm_to_ucs2 body ≡ convert_ascii_to_ucs2 body
unfolding convert_gsm_to_ucs2
convert_gsm_to_ucs2-convert_ascii_to_ucs2 body v = convert_loop-shared body [] v
