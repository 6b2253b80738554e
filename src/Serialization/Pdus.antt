-- ===== src/Serialization/Pdus.antt =====
-- `serialize_to` and `deserialize`, for every PDU type whose meta data is laid out well.
use smpp.Common.{ℕ, ◌≡◌, ◌≢◌, refl, ap, sym, subst, List, [], ◌∷◌, ◌++◌, All}
use smpp.Exceptions.{Bytes, IsByte, Exception, Result, ok, throws, ◌>>=◌}
use smpp.Serialization.{
  Rule, enum_u8, u8, smart, enum_flag, c_octet_str, u8_octet_str, Value, Member, Values, PduMeta,
  serialize_to, deserialize, deserialize_members,
}
use smpp.Serialization.Rules.{value_bytes}
use smpp.Serialization.Members.{
  AreValues, fields_bytes, IsPlain, SmartIsLast, serialize_members-bytes, deserialize_members-bytes,
}
use smpp.Serialization.Total.{Reads, reads, fails, deserialize_members-Reads}

-- Every field has a value that its rule can carry.
abbrev pub IsPdu : {S : Type 0} → PduMeta S → S → Type 0
IsPdu meta pdu = AreValues meta.members (meta.fields pdu)

-- The body of a PDU on the wire.
abbrev pub pdu_bytes : {S : Type 0} → PduMeta S → S → Bytes
pdu_bytes meta pdu = fields_bytes meta.members (meta.fields pdu)

-- What the meta data of a PDU type has to satisfy: optional parameters are the last member, PDU{}
-- can be serialized, and no PDU but PDU{} is serialized to nothing.
pub record PduLaws {S : Type 0} (meta : PduMeta S) : Type 0 where
  pub smart_is_last : SmartIsLast meta.members
  pub initial-IsPdu : IsPdu meta meta.initial
  pub blank : (pdu : S) → pdu_bytes meta pdu ≡ [] → pdu ≡ meta.initial

append_last-ne-nil : (v : Bytes) (b : ℕ) → v ++ (b ∷ []) ≢ []
append_last-ne-nil [] b = λ e. cc
append_last-ne-nil (c ∷ v) b = λ e. cc

append-ne-nil : (xs ys : Bytes) → xs ≢ [] → xs ++ ys ≢ []
append-ne-nil [] ys h = λ e. h refl
append-ne-nil (x ∷ xs) ys h = λ e. cc

value_bytes-ne-nil : (r : Rule) (v : Value r) → IsPlain r → value_bytes r v ≢ []
value_bytes-ne-nil enum_u8 v h = λ e. cc
value_bytes-ne-nil u8 v h = λ e. cc
value_bytes-ne-nil smart v h = absurd h
value_bytes-ne-nil (enum_flag t) v h = λ e. cc
value_bytes-ne-nil (c_octet_str max_len) v h = append_last-ne-nil v 0
value_bytes-ne-nil (u8_octet_str max_len) v h = λ e. cc

abbrev pub StartsPlain : List Member → Type 0
StartsPlain [] = ⊥
StartsPlain (m ∷ ms) = IsPlain m.rule

-- A first member that is plain is enough for the law on blank bodies.
pub fields_bytes-ne-nil :
    (ms : List Member) (vals : Values ms) → StartsPlain ms → fields_bytes ms vals ≢ []
fields_bytes-ne-nil [] vals h = absurd h
fields_bytes-ne-nil (m ∷ ms) (val, vals) h =
    append-ne-nil (value_bytes m.rule val) (fields_bytes ms vals) (value_bytes-ne-nil m.rule val h)

module _ {S : Type 0} ⦃meta : PduMeta S⦄ where
  -- The outcomes of `deserialize` on bytes: a PDU that can be serialized, or an exception.
  pub data Parses : Result S → Type 0 where
    parses : (pdu : S) → IsPdu meta pdu → Parses (ok pdu)
    rejects : (e : Exception) → Parses (throws e)

module _ {S : Type 0} ⦃meta : PduMeta S⦄ where
  -- A PDU whose fields the rules can carry is serialized behind what the vector holds.
  pub serialize_to-bytes :
      (vec : Bytes) (pdu : S)
      → IsPdu meta pdu
      → serialize_to vec pdu ≡ ok (vec ++ pdu_bytes meta pdu)
  unfolding serialize_to
  serialize_to-bytes vec pdu h = serialize_members-bytes meta.members vec (meta.fields pdu) h

  parse_from :
      (bytes : Bytes) (pdu : S)
      → (bytes ≡ [] → pdu ≡ meta.initial)
      → deserialize_members meta.members bytes ≡ ok (meta.fields pdu, [])
      → deserialize bytes ≡ ok pdu
  unfolding deserialize
  parse_from [] pdu blank e = ap ok (sym (blank refl))
  parse_from (b ∷ bs) pdu blank e = rw e (ap ok (meta.from_fields-fields pdu))

  -- The body of a PDU is read back.
  pub deserialize-bytes :
      (laws : PduLaws meta) (pdu : S) → IsPdu meta pdu → deserialize (pdu_bytes meta pdu) ≡ ok pdu
  deserialize-bytes laws pdu h =
      parse_from (pdu_bytes meta pdu) pdu (laws.blank pdu)
        (deserialize_members-bytes meta.members (meta.fields pdu) laws.smart_is_last h)

  -- For every PDU type: a PDU whose fields the rules can carry is serialized without an exception,
  -- behind what the vector holds, and the bytes appended are deserialized to the same PDU.
  pub deserialize-serialize_to :
      (laws : PduLaws meta) (vec : Bytes) (pdu : S)
      → IsPdu meta pdu
      → (body : Bytes) × (serialize_to vec pdu ≡ ok (vec ++ body)) × (deserialize body ≡ ok pdu)
  deserialize-serialize_to laws vec pdu h =
      (pdu_bytes meta pdu, serialize_to-bytes vec pdu h, deserialize-bytes laws pdu h)

  after_members :
      {r : Result (Values meta.members × Bytes)}
      → Reads (AreValues meta.members) r
      → Parses (r >>= λ (vals, rest). ok (meta.from_fields vals))
  after_members (reads vals rest h v) =
      parses (meta.from_fields vals) (rw (meta.fields-from_fields vals) h)
  after_members (fails e) = rejects e

  -- On every body `deserialize` ends with an exception or with a PDU whose fields the rules can
  -- carry.
  pub deserialize-Parses :
      (laws : PduLaws meta) (body : Bytes) → All IsByte body → Parses (deserialize {S = S} body)
  unfolding deserialize
  deserialize-Parses laws [] v = parses meta.initial laws.initial-IsPdu
  deserialize-Parses laws (b ∷ bs) v =
      after_members (deserialize_members-Reads meta.members (b ∷ bs) v)

  Parses-IsPdu : {r : Result S} → Parses r → (pdu : S) → r ≡ ok pdu → IsPdu meta pdu
  Parses-IsPdu (parses p h) pdu e = let same : p ≡ pdu = cc in subst (IsPdu meta) same h
  Parses-IsPdu (rejects x) pdu e = cc

  -- Whatever body a PDU was deserialized from, the PDU can be serialized again, and what is
  -- serialized is deserialized to the same PDU.
  pub serialize_to-deserialize :
      (laws : PduLaws meta) (body : Bytes) (pdu : S)
      → All IsByte body
      → deserialize body ≡ ok pdu
      → (again : Bytes) × (serialize_to [] pdu ≡ ok again) × (deserialize again ≡ ok pdu)
  serialize_to-deserialize laws body pdu v e =
      let h : IsPdu meta pdu = Parses-IsPdu (deserialize-Parses laws body v) pdu e in
      deserialize-serialize_to laws [] pdu h
