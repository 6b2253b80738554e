-- ===== src/Serialization/Members.antt =====
-- Lists of members: the fields of a PDU are written and read in order.
use smpp.Common.{◌≡◌, refl, ap, ◌∙◌, sym, arith, List, [], ◌∷◌, ◌++◌, append_assoc, append-nil}
use smpp.Exceptions.{Bytes, ok}
use smpp.Serialization.{Rule, enum_u8, u8, smart, enum_flag, c_octet_str, u8_octet_str}
use smpp.Serialization.{Member, Value, Values, serialize_members, deserialize_members}
use smpp.Serialization.Rules.{
  IsValue, value_bytes, CanFollow, serialize_value-bytes, deserialize_value-bytes,
}

abbrev pub AreValues : (ms : List Member) → Values ms → Type 0
AreValues [] vals = Unit {0}
AreValues (m ∷ ms) (val, vals) = IsValue m.rule val × AreValues ms vals

-- The encodings of the fields, one after the other.
abbrev pub fields_bytes : (ms : List Member) → Values ms → Bytes
fields_bytes [] vals = []
fields_bytes (m ∷ ms) (val, vals) = value_bytes m.rule val ++ fields_bytes ms vals

-- Every rule but that of the optional parameters takes a number of bytes that it knows.
abbrev pub IsPlain : Rule → Type 0
IsPlain smart = ⊥
IsPlain r = Unit {0}

-- Optional parameters stand at the end only.
abbrev pub SmartIsLast : List Member → Type 0
SmartIsLast [] = Unit {0}
SmartIsLast (m ∷ []) = Unit {0}
SmartIsLast (m ∷ n ∷ ms) = IsPlain m.rule × SmartIsLast (n ∷ ms)

CanFollow-plain : (r : Rule) (rest : Bytes) → IsPlain r → CanFollow r rest
CanFollow-plain enum_u8 rest h = tt
CanFollow-plain u8 rest h = tt
CanFollow-plain smart rest h = absurd h
CanFollow-plain (enum_flag t) rest h = tt
CanFollow-plain (c_octet_str max_len) rest h = tt
CanFollow-plain (u8_octet_str max_len) rest h = tt

CanFollow-nil : (r : Rule) → CanFollow r []
CanFollow-nil enum_u8 = tt
CanFollow-nil u8 = tt
CanFollow-nil smart = omega arith
CanFollow-nil (enum_flag t) = tt
CanFollow-nil (c_octet_str max_len) = tt
CanFollow-nil (u8_octet_str max_len) = tt

-- Values that the rules can carry are appended as their bytes.
pub serialize_members-bytes :
    (ms : List Member) (vec : Bytes) (vals : Values ms)
    → AreValues ms vals
    → serialize_members ms vec vals ≡ ok (vec ++ fields_bytes ms vals)
unfolding serialize_members
serialize_members-bytes [] vec vals h = ap ok (sym (append-nil vec))
serialize_members-bytes (m ∷ ms) vec (val, vals) (h, hs) =
    rw (serialize_value-bytes m.rule vec val m.name h) (
      serialize_members-bytes ms (vec ++ value_bytes m.rule val) vals hs
      ∙ ap ok (append_assoc vec (value_bytes m.rule val) (fields_bytes ms vals)))

-- One member read in front of others.
deserialize_members_step :
    (m : Member) (ms : List Member) (val : Value m.rule) (rest : Bytes)
    → IsValue m.rule val
    → CanFollow m.rule rest
    → (vals : Values ms) (left : Bytes) → deserialize_members ms rest ≡ ok (vals, left)
    → deserialize_members (m ∷ ms) (value_bytes m.rule val ++ rest) ≡ ok ((val, vals), left)
unfolding deserialize_members
deserialize_members_step m ms val rest h f vals left e =
    rw (deserialize_value-bytes m.rule val rest m.name h f, e)

pub deserialize_members-bytes :
    (ms : List Member) (vals : Values ms)
    → SmartIsLast ms
    → AreValues ms vals
    → deserialize_members ms (fields_bytes ms vals) ≡ ok (vals, [])
unfolding deserialize_members
deserialize_members-bytes [] vals l h = refl
deserialize_members-bytes (m ∷ []) (val, vals) l (h, hs) =
    deserialize_members_step m [] val [] h (CanFollow-nil m.rule) vals [] refl
deserialize_members-bytes (m ∷ n ∷ ms) (val, vals) (plain, l) (h, hs) =
    deserialize_members_step m (n ∷ ms) val (fields_bytes (n ∷ ms) vals) h
      (CanFollow-plain m.rule _ plain) vals [] (deserialize_members-bytes (n ∷ ms) vals l hs)
