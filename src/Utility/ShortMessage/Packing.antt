-- ===== src/Utility/ShortMessage/Packing.antt =====
-- pack_short_message and unpack_short_message.
use smpp.Common.{ℕ, suc, ◌+◌, ◌%◌, ◌<◌, ◌≤◌, ◌≡◌, refl, ap, subst, ◌∙◌, ◌⊎◌, inl, inr, arith}
use smpp.Common.{
  Bool, true, false, not, ltb, leb, if◌then◌else◌, Bool-cases, le→ltb, lt→leb, ltb→lt,
}
use smpp.Common.{List, [], ◌∷◌, ◌++◌, All, All-take, length, take, drop, length-append, length-take}
use smpp.Common.{take-append_exact, drop-append_exact, take-append-drop}
use smpp.Exceptions.{Bytes, IsByte, Exception, length_error, Result, ok, throws, ◌>>=◌}
use smpp.Param.{EsmClass}
use smpp.Utility.DataCoding.{
  DataCodingUnicode, ascii_7_bit, ascii_8_bit, binary, ucs2, extract_unicode,
}
use smpp.Utility.ShortMessage.{
  UserDataHeader, deserialize_udh, serialize_udh, max_length, too_long_message, check_length,
  has_udh, split_udh, unpack_short_message, with_length, pack_short_message,
}
use smpp.Utility.ShortMessage.Headers.{
  IsUserHeader, deserialize_udh-serialize_udh, Headers, read, rejects, deserialize_udh-Headers,
}

abbrev pub limit : ℕ → ℕ
limit data_coding = max_length (extract_unicode data_coding)

check_length_fits :
    (data_coding : ℕ) (message : Bytes)
    → length message ≤ limit data_coding
    → check_length data_coding message ≡ ok tt
unfolding check_length
check_length_fits data_coding message h = rw (le→ltb (limit data_coding) (length message) h) refl

-- The short message that headers and a body make.
abbrev pub packed : UserDataHeader → Bytes → Bytes
packed headers body = with_length (serialize_udh headers) ++ body

-- A short message is made of every body that fits, and of no other: the length error is thrown
-- exactly where the headers, their length and the body exceed the limit of the alphabet.
pub pack_short_message-cases :
    (headers : UserDataHeader) (body : Bytes) (data_coding : ℕ)
    → ((length (packed headers body) ≤ limit data_coding)
        × (pack_short_message headers body data_coding ≡ ok (packed headers body)))
      ⊎ ((limit data_coding < length (packed headers body))
          × (pack_short_message headers body data_coding
              ≡ throws (length_error (too_long_message (extract_unicode data_coding)))))
unfolding pack_short_message check_length
pack_short_message-cases headers body data_coding =
    elim (Bool-cases (ltb (limit data_coding) (length (packed headers body)))) [
      | inl long ↦ inr (ltb→lt _ _ long, rw long refl)
      | inr short ↦ inl (ground arith, rw short refl)
    ]

abbrev pub is_nil : UserDataHeader → Bool
is_nil [] = true
is_nil (h ∷ hs) = false

max_length-le : (u : DataCodingUnicode) → max_length u ≤ 160
max_length-le ascii_7_bit = omega arith
max_length-le ascii_8_bit = omega arith
max_length-le binary = omega arith
max_length-le ucs2 = omega arith

drop_one {ℓ} : {A : Type ℓ} (n : ℕ) (x : A) (xs : List A) → drop (1 + n) (x ∷ xs) ≡ drop n xs
drop_one n x xs = let e : 1 + n ≡ suc n = omega arith in rw e refl

-- The length in front of the headers tells where they end.
split_udh-cons :
    (n : ℕ) (bytes body : Bytes) (headers : UserDataHeader)
    → n ≡ length bytes
    → deserialize_udh bytes ≡ ok headers
    → split_udh (n ∷ (bytes ++ body)) ≡ ok (headers, body)
unfolding split_udh
split_udh-cons n bytes body headers e parsed =
    let within : leb (suc (length (bytes ++ body))) n ≡ false =
      lt→leb (suc (length (bytes ++ body))) n (omega (arith, length-append bytes body)) in
    rw
      (
        within,
        take-append_exact bytes body n e,
        parsed,
        drop_one n n (bytes ++ body),
        drop-append_exact bytes body n e,
      )
      refl

split_udh-with_length :
    (bytes body : Bytes) (headers : UserDataHeader)
    → 1 ≤ length bytes
    → length bytes < 256
    → deserialize_udh bytes ≡ ok headers
    → split_udh (with_length bytes ++ body) ≡ ok (headers, body)
split_udh-with_length [] body headers h k e = absurd (omega arith)
split_udh-with_length (b ∷ bs) body headers h k e =
    split_udh-cons (length (b ∷ bs) % 256) (b ∷ bs) body headers (omega arith) e

length-serialize_udh : (h : ℕ × Bytes) (hs : UserDataHeader) → 1 ≤ length (serialize_udh (h ∷ hs))
unfolding serialize_udh
length-serialize_udh (tag, val) hs = omega arith

length-with_length :
    (bytes : Bytes) → 1 ≤ length bytes → length (with_length bytes) ≡ suc (length bytes)
length-with_length [] h = absurd (omega arith)
length-with_length (b ∷ bs) h = refl

-- A short message that was packed is unpacked to its headers and its body, where the esm_class
-- says whether there are headers.
pub unpack_short_message-pack_short_message :
    (headers : UserDataHeader) (body : Bytes) (data_coding : ℕ) (esm_class : EsmClass)
    → All IsUserHeader headers
    → length (packed headers body) ≤ limit data_coding
    → has_udh esm_class ≡ not (is_nil headers)
    → (pack_short_message headers body data_coding >>= unpack_short_message esm_class data_coding)
      ≡ ok (headers, body)
unfolding pack_short_message unpack_short_message
unpack_short_message-pack_short_message headers body data_coding esm_class v h e =
    rw (check_length_fits data_coding (packed headers body) h)
      (rw (check_length_fits data_coding (packed headers body) h, e) (go headers v h))
  where
    go :
        (hs : UserDataHeader)
        → All IsUserHeader hs
        → length (packed hs body) ≤ limit data_coding
        → (if not (is_nil hs) then split_udh (packed hs body) else ok ([], packed hs body))
          ≡ ok (hs, body)
    go [] v h = unfold serialize_udh in refl
    go (x ∷ xs) v h =
        let some = length-serialize_udh x xs in
        let size = length-with_length (serialize_udh (x ∷ xs)) some in
        split_udh-with_length (serialize_udh (x ∷ xs)) body (x ∷ xs) some
          (omega (
            arith,
            size,
            h,
            max_length-le (extract_unicode data_coding),
            length-append (with_length (serialize_udh (x ∷ xs))) body,
          ))
          (deserialize_udh-serialize_udh (x ∷ xs) v)

-- What unpacking gives: an exception, or well formed headers and the end of the message as body;
-- without headers in the esm_class the body is the whole message.
pub data Unpacked (message : Bytes) : Bool → Result (UserDataHeader × Bytes) → Type 0 where
  plain : Unpacked message false (ok ([], message))
  headed :
      (headers : UserDataHeader) (bytes body rest : Bytes)
      → All IsUserHeader headers
      → message ≡ length bytes ∷ (bytes ++ body)
      → bytes ≡ serialize_udh headers ++ rest
      → length rest < 2
      → Unpacked message true (ok (headers, body))
  refused : (b : Bool) (e : Exception) → Unpacked message b (throws e)

parsed-Unpacked :
    (bytes body : Bytes) {r : Result UserDataHeader}
    → Headers bytes [] r
    → Unpacked (length bytes ∷ (bytes ++ body)) true (r >>= λ headers. ok (headers, body))
parsed-Unpacked bytes body (read headers rest v e short) =
    headed headers bytes body rest v refl e short
parsed-Unpacked bytes body (rejects x) = refused true x

split_udh-Unpacked :
    (message : Bytes) → All IsByte message → Unpacked message true (split_udh message)
unfolding split_udh
split_udh-Unpacked [] v = refused true _
split_udh-Unpacked (n ∷ rest) v = elim (Bool-cases (leb (suc (length rest)) n)) [
  | inl long ↦ rw long (refused true _)
  | inr within ↦
      let size : length (take n rest) ≡ n = ground (arith, length-take n rest) in
      let whole : length (take n rest) ∷ (take n rest ++ drop n rest) ≡ n ∷ rest =
        ap (λ k. k ∷ (take n rest ++ drop n rest)) size
        ∙ ap (λ xs. n ∷ xs) (take-append-drop n rest) in
      rw (within, drop_one n n rest)
        (subst
          (λ m.
            Unpacked m true
              (deserialize_udh (take n rest) >>= λ headers. ok (headers, drop n rest)))
          whole
          (parsed-Unpacked (take n rest) (drop n rest)
            (deserialize_udh-Headers (take n rest) (All-take IsByte n rest v.1))))
]

-- Unpacking any short message ends: it throws, or it gives the headers and the body that the
-- message is made of, with one byte more at most behind the headers; a message that has no headers
-- by its esm_class is the body.
pub unpack_short_message-Unpacked :
    (esm_class : EsmClass) (data_coding : ℕ) (message : Bytes)
    → All IsByte message
    → Unpacked message (has_udh esm_class) (unpack_short_message esm_class data_coding message)
unfolding unpack_short_message check_length
unpack_short_message-Unpacked esm_class data_coding message v =
    elim (Bool-cases (ltb (limit data_coding) (length message))) [
      | inl long ↦ rw long (refused (has_udh esm_class) _)
      | inr short ↦ rw short (branch (has_udh esm_class))
    ]
  where
    branch : (b : Bool) → Unpacked message b (if b then split_udh message else ok ([], message))
    branch true = split_udh-Unpacked message v
    branch false = plain
