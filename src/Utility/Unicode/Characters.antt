-- ===== src/Utility/Unicode/Characters.antt =====
-- A GSM text as a sequence of characters, against the loop of convert_gsm_to_ucs2.
use smpp.Common.{ℕ, ◌≡◌, refl, ap, ◌∙◌, inl, inr, append_assoc, append-nil}
use smpp.Common.{Bool, true, false, ltb, ◌==◌, if◌then◌else◌, Bool-cases, List, [], ◌∷◌, ◌++◌}
use smpp.Common.{All}
use smpp.Exceptions.{Bytes}
use smpp.Utility.Unicode.{
  escape, word_bytes, septet_word, convert_septet, convert_loop, convert_gsm_to_ucs2,
}

-- A character of the basic table, or one behind an escape.
pub data GsmChar : Type 0 where
  basic extended : ℕ → GsmChar

-- Bytes that are no septets are left out.
abbrev pub septets : Bytes → Bytes
septets [] = []
septets (c ∷ cs) = if ltb 127 c then septets cs else c ∷ septets cs

-- The characters of a sequence of septets. An escape at the end is no character.
unfoldable pub characters : Bytes → List GsmChar
characters [] = []
characters (c ∷ []) = if c == escape then [] else basic c ∷ []
characters (c ∷ d ∷ cs) =
    let after = characters cs in
    let behind = characters (d ∷ cs) in if c == escape then extended d ∷ after else basic c ∷ behind

unfoldable pub ucs2_of : GsmChar → Bytes
ucs2_of (basic c) = word_bytes (septet_word false c)
ucs2_of (extended c) = word_bytes (septet_word true c)

pub ucs2_text : List GsmChar → Bytes
ucs2_text [] = []
ucs2_text (c ∷ cs) = ucs2_of c ++ ucs2_text cs

-- Each of these is a septet.
abbrev pub AllSeptets : Bytes → Type 0
AllSeptets cs = All (λ c. ltb 127 c ≡ false) cs

septets-AllSeptets : (cs : Bytes) → AllSeptets (septets cs)
septets-AllSeptets [] = tt
septets-AllSeptets (c ∷ cs) = elim (Bool-cases (ltb 127 c)) [
  | inl wide ↦ rw wide (septets-AllSeptets cs)
  | inr septet ↦ rw septet (septet, septets-AllSeptets cs)
]

convert_loop-septets :
    (e : Bool) (cs out : Bytes) → convert_loop e cs out ≡ convert_loop e (septets cs) out
unfolding convert_loop
convert_loop-septets e [] out = refl
convert_loop-septets e (c ∷ cs) out = elim (Bool-cases (ltb 127 c)) [
  | inl wide ↦ rw (wide, append-nil) (convert_loop-septets e cs out)
  | inr septet ↦
      let kept : c ∷ septets cs ≡ septets (c ∷ cs) = rw septet refl in
      convert_loop-septets (convert_septet e c).0 cs (out ++ (convert_septet e c).1)
      ∙ ap (λ xs. convert_loop e xs out) kept
]

-- One septet: an escape, or a character.
convert_loop-escape :
    (c : ℕ) (cs out : Bytes)
    → ltb 127 c ≡ false
    → (c == escape) ≡ true
    → convert_loop false (c ∷ cs) out ≡ convert_loop true cs out
unfolding convert_loop
convert_loop-escape c cs out s e = rw (s, e, append-nil) refl

pub convert_loop-basic :
    (c : ℕ) (cs out : Bytes)
    → ltb 127 c ≡ false
    → (c == escape) ≡ false
    → convert_loop false (c ∷ cs) out ≡ convert_loop false cs (out ++ ucs2_of (basic c))
unfolding convert_loop ucs2_of
convert_loop-basic c cs out s e = rw (s, e) refl

convert_loop-extended :
    (c : ℕ) (cs out : Bytes)
    → ltb 127 c ≡ false
    → convert_loop true (c ∷ cs) out ≡ convert_loop false cs (out ++ ucs2_of (extended c))
unfolding convert_loop ucs2_of
convert_loop-extended c cs out s = rw s refl

convert_loop-characters :
    (cs out : Bytes) → AllSeptets cs → convert_loop false cs out ≡ out ++ ucs2_text (characters cs)
unfolding characters ucs2_text
convert_loop-characters [] out v = unfold convert_loop in rw append-nil refl
convert_loop-characters (c ∷ []) out v = elim (Bool-cases (c == escape)) [
  | inl e ↦ convert_loop-escape c [] out v.0 e ∙ rw (e, append-nil) (unfold convert_loop in refl)
  | inr n ↦ convert_loop-basic c [] out v.0 n ∙ rw (n, append-nil) (unfold convert_loop in refl)
]
convert_loop-characters (c ∷ d ∷ cs) out v = elim (Bool-cases (c == escape)) [
  | inl e ↦
      convert_loop-escape c (d ∷ cs) out v.0 e
      ∙ convert_loop-extended d cs out v.1.0
      ∙ convert_loop-characters cs (out ++ ucs2_of (extended d)) v.1.1
      ∙ append_assoc out (ucs2_of (extended d)) _
      ∙ rw e refl
  | inr n ↦
      convert_loop-basic c (d ∷ cs) out v.0 n
      ∙ convert_loop-characters (d ∷ cs) (out ++ ucs2_of (basic c)) v.1
      ∙ append_assoc out (ucs2_of (basic c)) _
      ∙ rw n refl
]

-- The loop over single bytes does what the sequence of characters says: bytes above 127 are left
-- out, an escape with the septet behind it is one character of the extended table, and an escape
-- at the end is dropped.
pub convert_gsm_to_ucs2-characters :
    (body : Bytes) → convert_gsm_to_ucs2 body ≡ ucs2_text (characters (septets body))
unfolding convert_gsm_to_ucs2
convert_gsm_to_ucs2-characters body =
    convert_loop-septets false body []
    ∙ convert_loop-characters (septets body) [] (septets-AllSeptets body)
