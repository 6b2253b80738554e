-- ===== src/Serialization/Rules.antt =====
-- Each rule of serialization.hpp: what it writes, and that it reads back what it wrote.
use Prim.Native.String.{String}
use smpp.Common.{ℕ, suc, ◌+◌, ◌-◌, ◌%◌, ◌<◌, ◌≤◌, ◌≡◌, refl, ap, ◌∙◌, sym, arith}
use smpp.Common.{[], ◌∷◌, ◌++◌, All, length, last, append_assoc, length-append}
use smpp.Common.{take-append_exact, last-append, ◌==◌, false, lt→leb, le→ltb}
use smpp.Exceptions.{Bytes, IsByte, ok}
use smpp.Param.Flags.{IsEsmClass, IsRegisteredDelivery, esm_class_from_u8-esm_class_to_u8}
use smpp.Param.Flags.{registered_delivery_from_u8-registered_delivery_to_u8}
use smpp.Oparam.RoundTrip.{oparam_bytes, serialize_oparam-bytes, deserialize_oparam-bytes}
use smpp.Oparam.Access.{IsOparam}
use smpp.Serialization.{
  FlagType, esm_class, registered_delivery, Flag, flag_from_u8, flag_to_u8, deserialize_enum_u8,
  serialize_enum_u8, deserialize_enum_flag, serialize_enum_flag, deserialize_u8, serialize_u8,
  find_null, deserialize_c_octet_str, serialize_c_octet_str, deserialize_u8_octet_str,
  serialize_u8_octet_str, Rule, enum_u8, u8, smart, enum_flag, c_octet_str, u8_octet_str, Value,
  rest_of, deserialize_value, serialize_value,
}

abbrev pub IsFlag : (t : FlagType) → Flag t → Type 0
IsFlag esm_class e = IsEsmClass e
IsFlag registered_delivery r = IsRegisteredDelivery r

-- A character of a C string.
abbrev pub IsChar : ℕ → Type 0
IsChar c = (0 < c) × (c < 256)

-- The values that a rule can carry: bytes, strings within the limit, C strings with no null.
abbrev pub IsValue : (r : Rule) → Value r → Type 0
IsValue enum_u8 v = IsByte v
IsValue u8 v = IsByte v
IsValue smart v = IsOparam v
IsValue (enum_flag t) v = IsFlag t v
IsValue (c_octet_str max_len) v = (length v < max_len) × All IsChar v
IsValue (u8_octet_str max_len) v = (length v ≤ max_len) × (length v < 256) × All IsByte v

-- The encoding of a value on the wire.
abbrev pub value_bytes : (r : Rule) → Value r → Bytes
value_bytes enum_u8 v = v ∷ []
value_bytes u8 v = v ∷ []
value_bytes smart v = oparam_bytes v
value_bytes (enum_flag t) v = flag_to_u8 t v ∷ []
value_bytes (c_octet_str max_len) v = v ++ (0 ∷ [])
value_bytes (u8_octet_str max_len) v = length v ∷ v

-- Optional parameters take all that follows but for three bytes.
abbrev pub CanFollow : Rule → Bytes → Type 0
CanFollow smart rest = length rest < 4
CanFollow r rest = Unit {0}

-- A value of a flag type, esm_class or registered_delivery, whose parts lie in their bits, comes back
-- from its byte, and the byte is one.
pub flag_from_u8-flag_to_u8 :
    (t : FlagType) (v : Flag t)
    → IsFlag t v
    → (flag_from_u8 t (flag_to_u8 t v) ≡ v) × (flag_to_u8 t v < 256)
unfolding flag_from_u8 flag_to_u8
flag_from_u8-flag_to_u8 esm_class v h = esm_class_from_u8-esm_class_to_u8 v h
flag_from_u8-flag_to_u8 registered_delivery v h =
    registered_delivery_from_u8-registered_delivery_to_u8 v h

-- The first null of a C string that is followed by one.
find_null-append : (v rest : Bytes) → All IsChar v → find_null (v ++ (0 ∷ rest)) ≡ length v
unfolding find_null
find_null-append [] rest h = refl
find_null-append (c ∷ v) rest h = ground (arith, find_null-append v rest h.1)

small_mod : (n : ℕ) → n < 256 → n % 256 ≡ n
small_mod n h = omega arith

-- A value that the rule can carry is appended as its bytes, and nothing is thrown.
pub serialize_value-bytes :
    (r : Rule) (vec : Bytes) (v : Value r) (name : String)
    → IsValue r v
    → serialize_value r vec v name ≡ ok (vec ++ value_bytes r v)
unfolding serialize_value serialize_enum_u8 serialize_u8 serialize_enum_flag serialize_c_octet_str
    serialize_u8_octet_str
serialize_value-bytes enum_u8 vec v name h = rw (small_mod v h)
serialize_value-bytes u8 vec v name h = refl
serialize_value-bytes smart vec v name h = rw (serialize_oparam-bytes vec v)
serialize_value-bytes (enum_flag t) vec v name h =
    rw (small_mod (flag_to_u8 t v) (flag_from_u8-flag_to_u8 t v h).1)
serialize_value-bytes (c_octet_str max_len) vec v name h = rw (lt→leb max_len (length v) h.0)
serialize_value-bytes (u8_octet_str max_len) vec v name h =
    rw (le→ltb max_len (length v) h.0, small_mod (length v) h.1)
      (ap ok (append_assoc vec (length v ∷ []) v))

deserialize_c_octet_str-bytes :
    (max_len : ℕ) (v rest : Bytes) (name : String)
    → length v < max_len
    → All IsChar v
    → deserialize_c_octet_str max_len (v ++ (0 ∷ rest)) name ≡ ok (v, rest)
unfolding deserialize_c_octet_str
deserialize_c_octet_str-bytes max_len v rest name hl hv =
    rw
      (
        find_null-append v rest hv,
        found,
        take-append_exact v (0 ∷ rest) (length v) refl,
        lt→leb max_len (length v) hl,
      )
      (ap (λ (xs : Bytes). ok (v, xs)) left)
  where
    size : length (v ++ (0 ∷ rest)) ≡ length v + suc (length rest)
    size = length-append v (0 ∷ rest)

    found : (length v == length (v ++ (0 ∷ rest))) ≡ false
    found = ground (arith, size)

    left : last (length (v ++ (0 ∷ rest)) - length v - 1) (v ++ (0 ∷ rest)) ≡ rest
    left =
        ap (last (length (v ++ (0 ∷ rest)) - length v - 1)) (sym (append_assoc v (0 ∷ []) rest))
        ∙ last-append (v ++ (0 ∷ [])) rest _ (omega (arith, size))

deserialize_u8_octet_str-bytes :
    (max_len : ℕ) (v rest : Bytes) (name : String)
    → length v ≤ max_len
    → deserialize_u8_octet_str max_len (length v ∷ (v ++ rest)) name ≡ ok (v, rest)
unfolding deserialize_u8_octet_str
deserialize_u8_octet_str-bytes max_len v rest name hl =
    rw
      (
        take-append_exact v rest (length v) refl,
        lt→leb (suc (length (v ++ rest))) (length v) (omega (arith, length-append v rest)),
        le→ltb max_len (length v) hl,
      )
      (ap (λ (xs : Bytes). ok (v, xs))
        (last-append (length v ∷ v) rest _ (omega (arith, length-append v rest))))

pub rest_of-cons : (b : ℕ) (bs : Bytes) → rest_of (b ∷ bs) ≡ bs
rest_of-cons b bs = last-append (b ∷ []) bs _ (omega arith)

-- What was written is read back, and what follows it is left.
pub deserialize_value-bytes :
    (r : Rule) (v : Value r) (rest : Bytes) (name : String)
    → IsValue r v
    → CanFollow r rest
    → deserialize_value r (value_bytes r v ++ rest) name ≡ ok (v, rest)
unfolding deserialize_value deserialize_enum_u8 deserialize_u8 deserialize_enum_flag
deserialize_value-bytes enum_u8 v rest name h f =
    ap (λ (xs : Bytes). ok (v, xs)) (rest_of-cons v rest)
deserialize_value-bytes u8 v rest name h f = ap (λ (xs : Bytes). ok (v, xs)) (rest_of-cons v rest)
deserialize_value-bytes smart v rest name h f = deserialize_oparam-bytes v rest h f
deserialize_value-bytes (enum_flag t) v rest name h f =
    rw ((flag_from_u8-flag_to_u8 t v h).0)
      (ap (λ (xs : Bytes). ok (v, xs)) (rest_of-cons (flag_to_u8 t v) rest))
deserialize_value-bytes (c_octet_str max_len) v rest name h f =
    rw append_assoc (deserialize_c_octet_str-bytes max_len v rest name h.0 h.1)
deserialize_value-bytes (u8_octet_str max_len) v rest name h f =
    deserialize_u8_octet_str-bytes max_len v rest name h.0
