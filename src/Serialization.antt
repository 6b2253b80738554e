-- ===== src/Serialization.antt =====
-- include/smpp/common/serialization.hpp: how each kind of field is written and read, and PDUs as
-- tuples of fields. The member functions of the C++ rule structs are one pair of functions per rule.
pub mod Rules
pub mod Members
pub mod Total
pub mod Pdus
use Prim.Native.String.{String}
use Prim.Native.String
use smpp.Common.{
  ℕ, zero, suc, ◌+◌, ◌-◌, ◌%◌, ◌≡◌, List, [], ◌∷◌, ◌++◌, Bool, length, take, drop, last,
}
use smpp.Common.{ltb, leb, ◌==◌, if◌then◌else◌}
use smpp.Exceptions.{Bytes, Exception, length_error, Result, ok, throws, stuck, ◌>>=◌}
use smpp.Param.{EsmClass, esm_class_from_u8, esm_class_to_u8}
use smpp.Param.{RegisteredDelivery, registered_delivery_from_u8, registered_delivery_to_u8}
use smpp.Oparam.{Oparam, serialize_oparam, deserialize_oparam}

-- The types with a `from_u8`.
pub data FlagType : Type 0 where
  esm_class registered_delivery : FlagType

abbrev pub Flag : FlagType → Type 0
Flag esm_class = EsmClass
Flag registered_delivery = RegisteredDelivery

pub flag_from_u8 : (t : FlagType) → ℕ → Flag t
flag_from_u8 esm_class value = esm_class_from_u8 value
flag_from_u8 registered_delivery value = registered_delivery_from_u8 value

pub flag_to_u8 : (t : FlagType) → Flag t → ℕ
flag_to_u8 esm_class e = esm_class_to_u8 e
flag_to_u8 registered_delivery r = registered_delivery_to_u8 r

-- The message of a std::length_error about a field.
abbrev pub field_error : String → String → Exception
field_error text name = length_error (String.◌++◌ text name)

abbrev pub buf_is_empty : String → Exception
buf_is_empty = field_error "buf size should be at least 1, field_name:"

-- `*buf = buf->last(buf->size() - 1)`
abbrev pub rest_of : Bytes → Bytes
rest_of buf = last (length buf - 1) buf

-- struct enum_u8
unfoldable pub deserialize_enum_u8 : Bytes → String → Result (ℕ × Bytes)
deserialize_enum_u8 [] name = throws (buf_is_empty name)
deserialize_enum_u8 (b ∷ bs) name = ok (b, rest_of (b ∷ bs))

unfoldable pub serialize_enum_u8 : Bytes → ℕ → Result Bytes
serialize_enum_u8 vec val = ok (vec ++ ((val % 256) ∷ []))

-- struct enum_flag
pub deserialize_enum_flag : (t : FlagType) → Bytes → String → Result (Flag t × Bytes)
deserialize_enum_flag t [] name = throws (buf_is_empty name)
deserialize_enum_flag t (b ∷ bs) name = ok (flag_from_u8 t b, rest_of (b ∷ bs))

pub serialize_enum_flag : (t : FlagType) → Bytes → Flag t → Result Bytes
serialize_enum_flag t vec val = ok (vec ++ ((flag_to_u8 t val % 256) ∷ []))

-- struct u8
pub deserialize_u8 : Bytes → String → Result (ℕ × Bytes)
deserialize_u8 [] name = throws (buf_is_empty name)
deserialize_u8 (b ∷ bs) name = ok (b, rest_of (b ∷ bs))

unfoldable pub serialize_u8 : Bytes → ℕ → Result Bytes
serialize_u8 vec val = ok (vec ++ (val ∷ []))

-- `std::find(begin, end, '\0') - begin`: the position of the first null, or the size.
unfoldable pub find_null : Bytes → ℕ
find_null [] = 0
find_null (b ∷ bs) = if b == 0 then 0 else suc (find_null bs)

-- struct c_octet_str<MAXLEN>
unfoldable pub deserialize_c_octet_str : ℕ → Bytes → String → Result (Bytes × Bytes)
deserialize_c_octet_str max_len buf name =
    let null_pos = find_null buf in
    let str = take null_pos buf in
    if null_pos == length buf
    then throws (field_error "c_octet_str can't find null character, field_name:" name)
    else if leb max_len (length str)
    then throws (field_error "c_octet_str exceed its limit, field_name:" name)
    else ok (str, last (length buf - length str - 1) buf)

unfoldable pub serialize_c_octet_str : ℕ → Bytes → Bytes → String → Result Bytes
serialize_c_octet_str max_len vec val name =
    if leb max_len (length val)
    then throws (field_error "c_octet_str exceed its limit, field_name:" name)
    else ok (vec ++ (val ++ (0 ∷ [])))

-- struct u8_octet_str<MAXLEN>
pub deserialize_u8_octet_str : ℕ → Bytes → String → Result (Bytes × Bytes)
deserialize_u8_octet_str max_len [] name = throws (buf_is_empty name)
deserialize_u8_octet_str max_len (n ∷ bs) name =
    let buf = n ∷ bs in
    let str = take n (drop 1 buf) in
    if leb (length buf) n
    then throws (field_error "octet_str buf is smaller than its length field, field_name:" name)
    else if ltb max_len (length str)
    then throws (field_error "octet_str exceed its limit, field_name:" name)
    else ok (str, last (length buf - length str - 1) buf)

pub serialize_u8_octet_str : ℕ → Bytes → Bytes → String → Result Bytes
serialize_u8_octet_str max_len vec val name =
    if ltb max_len (length val)
    then throws (field_error "octet_str exceed its limit, field_name:" name)
    else ok ((vec ++ ((length val % 256) ∷ [])) ++ val)

-- The first template argument of `mem`, with the field's type where the rule serves several.
pub data Rule : Type 0 where
  enum_u8 u8 smart : Rule
  enum_flag : FlagType → Rule
  c_octet_str u8_octet_str : ℕ → Rule

abbrev pub Value : Rule → Type 0
Value enum_u8 = ℕ
Value u8 = ℕ
Value smart = Oparam
Value (enum_flag t) = Flag t
Value (c_octet_str max_len) = Bytes
Value (u8_octet_str max_len) = Bytes

-- A mem_wrapper; which field of the PDU it points to is its place in the list of the members.
pub record Member : Type 0 where
  pub rule : Rule
  pub name : String

abbrev pub mem : Rule → String → Member
mem rule name = record { rule = rule; name = name }

unfoldable pub deserialize_value : (r : Rule) → Bytes → String → Result (Value r × Bytes)
deserialize_value enum_u8 buf name = deserialize_enum_u8 buf name
deserialize_value u8 buf name = deserialize_u8 buf name
deserialize_value smart buf name = deserialize_oparam buf
deserialize_value (enum_flag t) buf name = deserialize_enum_flag t buf name
deserialize_value (c_octet_str max_len) buf name = deserialize_c_octet_str max_len buf name
deserialize_value (u8_octet_str max_len) buf name = deserialize_u8_octet_str max_len buf name

unfoldable pub serialize_value : (r : Rule) → Bytes → Value r → String → Result Bytes
serialize_value enum_u8 vec val name = serialize_enum_u8 vec val
serialize_value u8 vec val name = serialize_u8 vec val
serialize_value smart vec val name = ok (serialize_oparam vec val)
serialize_value (enum_flag t) vec val name = serialize_enum_flag t vec val
serialize_value (c_octet_str max_len) vec val name = serialize_c_octet_str max_len vec val name
serialize_value (u8_octet_str max_len) vec val name = serialize_u8_octet_str max_len vec val name

-- The values of the members, in their order.
abbrev pub Values : List Member → Type 0
Values [] = Unit {0}
Values (m ∷ ms) = Value m.rule × Values ms

-- The fold over the index sequence: each member appends to the vector.
unfoldable pub serialize_members : (ms : List Member) → Bytes → Values ms → Result Bytes
serialize_members [] vec vals = ok vec
serialize_members (m ∷ ms) vec (val, vals) = do
  vec' ← serialize_value m.rule vec val m.name
  serialize_members ms vec' vals

-- The braced list of initializers, which is evaluated from left to right, each on what is left.
unfoldable pub deserialize_members : (ms : List Member) → Bytes → Result (Values ms × Bytes)
deserialize_members [] buf = ok (tt, buf)
deserialize_members (m ∷ ms) buf = do
  (val, buf') ← deserialize_value m.rule buf m.name
  (vals, rest) ← deserialize_members ms buf'
  ok ((val, vals), rest)

-- A PDU type: its command_id, its members, the fields that they point to, and the value PDU{}.
pub record PduMeta (S : Type 0) : Type 0 where
  pub command_id : ℕ
  pub members : List Member
  pub fields : S → Values members
  pub from_fields : Values members → S
  pub initial : S
  pub from_fields-fields : (s : S) → from_fields (fields s) ≡ s
  pub fields-from_fields : (vals : Values members) → fields (from_fields vals) ≡ vals

module _ {S : Type 0} ⦃meta : PduMeta S⦄ where
  unfoldable pub serialize_to : Bytes → S → Result Bytes
  serialize_to vec pdu = serialize_members meta.members vec (meta.fields pdu)

  unfoldable pub deserialize : Bytes → Result S
  deserialize [] = ok meta.initial
  deserialize (b ∷ bs) = do
    (vals, rest) ← deserialize_members meta.members (b ∷ bs)
    ok (meta.from_fields vals)
