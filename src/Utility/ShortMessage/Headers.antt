-- ===== src/Utility/ShortMessage/Headers.antt =====
-- The constructor of user_data_header from bytes, and serialize.
use smpp.Common.{ℕ, zero, suc, ◌+◌, ◌-◌, ◌%◌, ◌<◌, ◌≡◌, refl, sym, ap, subst, ◌∙◌, inl, inr, arith}
use smpp.Common.{true, false, ltb, leb, Bool-cases, le→ltb}
use smpp.Common.{List, [], ◌∷◌, ◌++◌, All, length, take, drop, length-append, length-take}
use smpp.Common.{
  take-append_exact, drop-append_exact, take-append-drop, All-drop, append_assoc, append-nil,
}
use smpp.Exceptions.{Bytes, IsByte, Exception, Result, ok, throws, ◌>>=◌}
use smpp.Utility.ShortMessage.{
  UserDataHeader, concatenated_sm_8bit_ref, concatenated_sm_16bit_ref, wrong_length, next_header,
  header_loop, deserialize_udh, serialize_udh,
}

-- A value whose length one byte can hold; the value of a multi part header has the length that
-- its tag asks for.
abbrev pub IsUserHeader : ℕ × Bytes → Type 0
IsUserHeader (tag, val) =
    (length val < 256)
    × (tag ≡ concatenated_sm_8bit_ref → length val ≡ 3)
    × (tag ≡ concatenated_sm_16bit_ref → length val ≡ 4)

right_length : (tag n : ℕ) → wrong_length tag n ≡ false → (tag ≡ 0 → n ≡ 3) × (tag ≡ 8 → n ≡ 4)
unfolding wrong_length
right_length tag n h = (λ e. ground arith, λ e. ground arith)

not_wrong : (tag n : ℕ) → (tag ≡ 0 → n ≡ 3) → (tag ≡ 8 → n ≡ 4) → wrong_length tag n ≡ false
unfolding wrong_length
not_wrong tag n h k = ground arith

drop_two {ℓ} : {A : Type ℓ} (n : ℕ) (a b : A) (xs : List A) → drop (n + 2) (a ∷ b ∷ xs) ≡ drop n xs
drop_two n a b xs = let e : n + 2 ≡ suc (suc n) = omega arith in rw e refl

next_header-cons :
    (tag : ℕ) (val rest : Bytes)
    → IsUserHeader (tag, val)
    → next_header (tag ∷ (length val % 256) ∷ (val ++ rest)) ≡ ok ((tag, val), rest)
unfolding next_header
next_header-cons tag val rest h =
    let n : length val % 256 ≡ length val = omega arith in
    let there : ltb (suc (suc (length (val ++ rest))) - 2) (length val) ≡ false =
      le→ltb _ _ (omega (arith, length-append val rest)) in
    rw
      (
        n,
        there,
        take-append_exact val rest (length val) refl,
        not_wrong tag (length val) h.1 h.2,
        drop_two (length val) tag (length val) (val ++ rest),
        drop-append_exact val rest (length val) refl,
      )
      refl

two_or_more : (n : ℕ) → leb 2 (suc (suc n)) ≡ true
two_or_more n = ground arith

header_loop-serialize_udh :
    (fuel : ℕ) (headers before : UserDataHeader)
    → All IsUserHeader headers
    → length (serialize_udh headers) < fuel
    → header_loop fuel (serialize_udh headers) before ≡ ok (before ++ headers)
unfolding header_loop serialize_udh
header_loop-serialize_udh zero headers before v h = absurd (omega arith)
header_loop-serialize_udh (suc fuel) [] before v h = rw append-nil refl
header_loop-serialize_udh (suc fuel) ((tag, val) ∷ headers) before (v, vs) h =
    rw
      (
        two_or_more (length (val ++ serialize_udh headers)),
        next_header-cons tag val (serialize_udh headers) v,
      )
      (header_loop-serialize_udh fuel headers (before ++ ((tag, val) ∷ [])) vs
          (omega (arith, length-append val (serialize_udh headers)))
        ∙ ap ok (append_assoc before ((tag, val) ∷ []) headers))

-- Headers that are serialized are read back.
pub deserialize_udh-serialize_udh :
    (headers : UserDataHeader)
    → All IsUserHeader headers
    → deserialize_udh (serialize_udh headers) ≡ ok headers
unfolding deserialize_udh
deserialize_udh-serialize_udh headers v =
    header_loop-serialize_udh (suc (length (serialize_udh headers))) headers [] v (omega arith)

-- One round reads a header off the front, or throws.
data Round (buf : Bytes) : Result ((ℕ × Bytes) × Bytes) → Type 0 where
  takes :
      (tag : ℕ) (val rest : Bytes)
      → IsUserHeader (tag, val)
      → All IsByte rest
      → buf ≡ tag ∷ (length val % 256) ∷ (val ++ rest)
      → Round buf (ok ((tag, val), rest))
  fails : (e : Exception) → Round buf (throws e)

next_header-Round :
    (tag n : ℕ) (rest : Bytes)
    → IsByte n
    → All IsByte rest
    → Round (tag ∷ n ∷ rest) (next_header (tag ∷ n ∷ rest))
unfolding next_header
next_header-Round tag n rest b bs = elim (Bool-cases (ltb (suc (suc (length rest)) - 2) n)) [
  | inl short ↦ rw short (fails _)
  | inr there ↦ elim (Bool-cases (wrong_length tag (length (take n rest)))) [
    | inl wrong ↦ rw (there, wrong) (fails _)
    | inr right ↦ rw (there, right, drop_two n tag n rest) (took there right)
  ]
]
  where
    took :
        ltb (suc (suc (length rest)) - 2) n ≡ false
        → wrong_length tag (length (take n rest)) ≡ false
        → Round (tag ∷ n ∷ rest) (ok ((tag, take n rest), drop n rest))
    took there right =
        let whole : length (take n rest) ≡ n = ground (arith, length-take n rest) in
        let (eight, sixteen) = right_length tag (length (take n rest)) right in
        takes tag (take n rest) (drop n rest) (omega (arith, whole), eight, sixteen)
          (All-drop IsByte n rest bs)
          (ap (λ xs. tag ∷ n ∷ xs) (sym (take-append-drop n rest))
            ∙ ap (λ k. tag ∷ k ∷ (take n rest ++ drop n rest)) (omega (arith, whole)))

-- The bytes are the headers as they are serialized, and one more byte at most.
pub data Headers (buf : Bytes) (before : UserDataHeader) : Result UserDataHeader → Type 0 where
  read :
      (headers : UserDataHeader) (rest : Bytes)
      → All IsUserHeader headers
      → buf ≡ serialize_udh headers ++ rest
      → length rest < 2
      → Headers buf before (ok (before ++ headers))
  rejects : (e : Exception) → Headers buf before (throws e)

-- A header in front of what is read.
cons-Headers :
    (buf : Bytes) (before : UserDataHeader) (tag : ℕ) (val rest : Bytes) {r : Result UserDataHeader}
    → IsUserHeader (tag, val)
    → buf ≡ tag ∷ (length val % 256) ∷ (val ++ rest)
    → Headers rest (before ++ ((tag, val) ∷ [])) r
    → Headers buf before r
unfolding serialize_udh
cons-Headers buf before tag val rest v e (rejects x) = rejects x
cons-Headers buf before tag val rest v e (read headers left vs same short) =
    subst (λ hs. Headers buf before (ok hs)) (sym (append_assoc before ((tag, val) ∷ []) headers))
      (read ((tag, val) ∷ headers) left (v, vs)
        (e
          ∙ ap (λ xs. tag ∷ (length val % 256) ∷ xs)
              (ap (λ xs. val ++ xs) same ∙ sym (append_assoc val _ left)))
        short)

none-Headers :
    (buf : Bytes) (before : UserDataHeader) → length buf < 2 → Headers buf before (ok before)
unfolding serialize_udh
none-Headers buf before h =
    subst (λ hs. Headers buf before (ok hs)) (append-nil before) (read [] buf tt refl h)

module _ (loop : Bytes → UserDataHeader → Result UserDataHeader) where
  -- What a round takes off is handed to the loop.
  round-Headers :
      (buf : Bytes) (before : UserDataHeader) {r : Result ((ℕ × Bytes) × Bytes)}
      → ((rest : Bytes) (hs : UserDataHeader)
          → All IsByte rest
          → length rest < length buf
          → Headers rest hs (loop rest hs))
      → Round buf r
      → Headers buf before (r >>= λ (header, rest). loop rest (before ++ (header ∷ [])))
  round-Headers buf before ih (fails e) = rejects e
  round-Headers buf before ih (takes tag val rest v bytes e) =
      cons-Headers buf before tag val rest v e (
        ih rest (before ++ ((tag, val) ∷ [])) bytes
          (omega (arith, ap length e, length-append val rest)))

-- The loop ends before its fuel does, and adds to `before` what it reads.
header_loop-Headers :
    (fuel : ℕ) (buf : Bytes) (before : UserDataHeader)
    → All IsByte buf
    → length buf < fuel
    → Headers buf before (header_loop fuel buf before)
unfolding header_loop
header_loop-Headers zero buf before b h = absurd (omega arith)
header_loop-Headers (suc fuel) [] before b h = none-Headers [] before (omega arith)
header_loop-Headers (suc fuel) (x ∷ []) before b h = none-Headers (x ∷ []) before (omega arith)
header_loop-Headers (suc fuel) (tag ∷ n ∷ rest) before b h = rw (two_or_more (length rest)) (
    round-Headers (header_loop fuel) (tag ∷ n ∷ rest) before
      (λ xs hs bytes shorter. header_loop-Headers fuel xs hs bytes (omega arith))
      (next_header-Round tag n rest b.1.0 b.1.1))

-- On every byte sequence the constructor ends: it throws, or the headers are well formed, and the
-- bytes are these headers as `serialize` writes them, with one byte more at most.
pub deserialize_udh-Headers : (buf : Bytes) → All IsByte buf → Headers buf [] (deserialize_udh buf)
unfolding deserialize_udh
deserialize_udh-Headers buf b = header_loop-Headers (suc (length buf)) buf [] b (omega arith)
