-- ===== src/Serialization/Total.antt =====
-- The deserializers on any bytes, well formed or not.
use Prim.Native.String.{String}
use smpp.Common.{ℕ, ◌-◌, ◌<◌, arith, List, [], ◌∷◌, All, length}
use smpp.Common.{take, last, ltb, leb, ◌==◌, inl, inr, Bool-cases, length-take}
use smpp.Common.{All-take, All-drop}
use smpp.Exceptions.{Bytes, IsByte, Exception, Result, ok, throws, ◌>>=◌}
use smpp.Param.Flags.{esm_class_from_u8-IsEsmClass}
use smpp.Param.Flags.{registered_delivery_from_u8-IsRegisteredDelivery}
use smpp.Oparam.{Oparam}
use smpp.Oparam.Total.{Outcome, built, failed, deserialize_oparam-Outcome}
use smpp.Serialization.Rules.{IsValue, IsFlag, IsChar, rest_of-cons}
use smpp.Serialization.Members.{AreValues}
use smpp.Serialization.{
  FlagType, esm_class, registered_delivery, flag_from_u8, deserialize_enum_u8,
  deserialize_enum_flag, deserialize_u8, find_null, deserialize_c_octet_str,
  deserialize_u8_octet_str, Rule, enum_u8, u8, smart, enum_flag, c_octet_str, u8_octet_str, Value,
  deserialize_value, Member, Values, deserialize_members,
}

-- The outcomes of reading something at `A`: a value that `P` holds of with bytes that follow, or
-- an exception. `stuck` is none of them.
pub data Reads {ℓ} {A : Type 0} (P : A → Type ℓ) : Result (A × Bytes) → Type ℓ where
  reads : (a : A) (rest : Bytes) → P a → All IsByte rest → Reads P (ok (a, rest))
  fails : (e : Exception) → Reads P (throws e)

flag_from_u8-IsFlag : (t : FlagType) (b : ℕ) → b < 256 → IsFlag t (flag_from_u8 t b)
unfolding flag_from_u8
flag_from_u8-IsFlag esm_class b h = esm_class_from_u8-IsEsmClass b h
flag_from_u8-IsFlag registered_delivery b h = registered_delivery_from_u8-IsRegisteredDelivery b h

-- In front of the first null stand characters.
find_null-IsChar : (buf : Bytes) → All IsByte buf → All IsChar (take (find_null buf) buf)
unfolding find_null
find_null-IsChar [] h = tt
find_null-IsChar (b ∷ bs) h = elim (Bool-cases (b == 0)) [
  | inl null ↦ rw null tt
  | inr more ↦ rw more ((ground arith, h.0), find_null-IsChar bs h.1)
]

All-last : (n : ℕ) (buf : Bytes) → All IsByte buf → All IsByte (last n buf)
All-last n buf h = All-drop IsByte (length buf - n) buf h

deserialize_c_octet_str-Reads :
    (max_len : ℕ) (buf : Bytes) (name : String)
    → All IsByte buf
    → Reads (IsValue (c_octet_str max_len)) (deserialize_c_octet_str max_len buf name)
unfolding deserialize_c_octet_str
deserialize_c_octet_str-Reads max_len buf name h = elim (Bool-cases (find_null buf == length buf)) [
  | inl none_found ↦ rw none_found (fails _)
  | inr found ↦ rw found (elim (Bool-cases (leb max_len (length str))) [
    | inl long ↦ rw long (fails _)
    | inr fits ↦ rw fits (
        reads str _ (ground arith, find_null-IsChar buf h)
          (All-last (length buf - length str - 1) buf h))
  ])
]
  where
    str : Bytes
    str = take (find_null buf) buf

deserialize_u8_octet_str-Reads :
    (max_len : ℕ) (buf : Bytes) (name : String)
    → All IsByte buf
    → Reads (IsValue (u8_octet_str max_len)) (deserialize_u8_octet_str max_len buf name)
unfolding deserialize_u8_octet_str
deserialize_u8_octet_str-Reads max_len [] name h = fails _
deserialize_u8_octet_str-Reads max_len (n ∷ bs) name h =
    elim (Bool-cases (leb (length (n ∷ bs)) n)) [
      | inl short ↦ rw short (fails _)
      | inr enough ↦ rw enough (elim (Bool-cases (ltb max_len (length (take n bs)))) [
        | inl long ↦ rw long (fails _)
        | inr fits ↦ rw fits (
            reads (take n bs) _
              (ground arith, omega (arith, length-take n bs), All-take IsByte n bs h.1)
              (All-last (length (n ∷ bs) - length (take n bs) - 1) (n ∷ bs) h))
      ])
    ]

oparam-Reads : {r : Result (Oparam × Bytes)} → Outcome r → Reads (IsValue smart) r
oparam-Reads (built oparams rest short v h) = reads oparams rest h v
oparam-Reads failed = fails _

deserialize_value-Reads :
    (r : Rule) (buf : Bytes) (name : String)
    → All IsByte buf
    → Reads (IsValue r) (deserialize_value r buf name)
unfolding deserialize_value deserialize_enum_u8 deserialize_u8 deserialize_enum_flag
deserialize_value-Reads enum_u8 [] name h = fails _
deserialize_value-Reads enum_u8 (b ∷ bs) name h = reads b _ h.0 (rw rest_of-cons h.1)
deserialize_value-Reads u8 [] name h = fails _
deserialize_value-Reads u8 (b ∷ bs) name h = reads b _ h.0 (rw rest_of-cons h.1)
deserialize_value-Reads smart buf name h = oparam-Reads (deserialize_oparam-Outcome buf h)
deserialize_value-Reads (enum_flag t) [] name h = fails _
deserialize_value-Reads (enum_flag t) (b ∷ bs) name h =
    reads _ _ (flag_from_u8-IsFlag t b h.0) (rw rest_of-cons h.1)
deserialize_value-Reads (c_octet_str max_len) buf name h =
    deserialize_c_octet_str-Reads max_len buf name h
deserialize_value-Reads (u8_octet_str max_len) buf name h =
    deserialize_u8_octet_str-Reads max_len buf name h

-- The last step of reading a list of members.
cons-Reads :
    (m : Member) (ms : List Member) (val : Value m.rule)
    → IsValue m.rule val
    → {r : Result (Values ms × Bytes)} → Reads (AreValues ms) r
    → Reads (AreValues (m ∷ ms)) (r >>= λ (vals, rest). ok ((val, vals), rest))
cons-Reads m ms val h (reads vals rest hs v) = reads (val, vals) rest (h, hs) v
cons-Reads m ms val h (fails e) = fails e

then-Reads :
    (m : Member) (ms : List Member)
    → ((rest : Bytes) → All IsByte rest → Reads (AreValues ms) (deserialize_members ms rest))
    → {r : Result (Value m.rule × Bytes)} → Reads (IsValue m.rule) r
    → Reads
        (AreValues (m ∷ ms))
        (r >>= λ (val, buf). deserialize_members ms buf >>= λ (vals, rest). ok ((val, vals), rest))
then-Reads m ms later (reads val rest h v) = cons-Reads m ms val h (later rest v)
then-Reads m ms later (fails e) = fails e

pub deserialize_members-Reads :
    (ms : List Member) (buf : Bytes)
    → All IsByte buf
    → Reads (AreValues ms) (deserialize_members ms buf)
unfolding deserialize_members
deserialize_members-Reads [] buf v = reads tt buf tt v
deserialize_members-Reads (m ∷ ms) buf v =
    then-Reads m ms (deserialize_members-Reads ms) (deserialize_value-Reads m.rule buf m.name v)
