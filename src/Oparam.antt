-- ===== src/Oparam.antt =====
-- include/smpp/param/oparam.hpp: the optional parameters of a PDU, by their tags.
pub mod Map
pub mod Access
pub mod RoundTrip
pub mod Total
use Prim.Native.String.{String}
use smpp.Common.{ℕ, zero, suc, ◌+◌, ◌-◌, ◌*◌, ◌/◌, ◌%◌, ◌^◌, bit_and, bit_or}
use smpp.Common.{
  List, [], ◌∷◌, ◌++◌, Bool, true, false, ltb, ◌==◌, if◌then◌else◌, length, take, drop,
}
use smpp.Common.{Option, none, some, last}
use smpp.Exceptions.{Bytes, Result, ok, throws, stuck, ◌>>=◌, length_error, runtime_error}
use Map.{Entries, emplace, assign, find, erase}

-- The member `oparams_`, a std::map from tags to values.
abbrev pub Oparam : Type 0
Oparam = Entries

abbrev pub oparam_header_length : ℕ
oparam_header_length = 4

pub deserialize_u16 : ℕ → ℕ → ℕ
deserialize_u16 b0 b1 = bit_or (b0 * 2 ^ 8) b1 % 2 ^ 16

-- One round of the constructor's loop, on at least four bytes: the entry and what is left of `buf`.
pub next_entry : Bytes → Result ((ℕ × Bytes) × Bytes)
next_entry (t0 ∷ t1 ∷ l0 ∷ l1 ∷ rest) =
    let buf = t0 ∷ t1 ∷ l0 ∷ l1 ∷ rest in
    let tag = deserialize_u16 t0 t1 in
    let val_length = deserialize_u16 l0 l1 in
    if ltb (length buf - oparam_header_length) val_length
    then throws (length_error "oparam val length is bigger than available buf")
    else ok (
      (tag, take val_length (drop oparam_header_length buf)),
      last (length buf - (val_length + oparam_header_length)) buf,
    )
next_entry buf = stuck

-- The constructor's loop: the parameters, and what is left of `buf`. Each round but the last takes
-- four bytes at least.
pub deserialize_loop : ℕ → Bytes → Oparam → Result (Oparam × Bytes)
deserialize_loop zero buf oparams = stuck
deserialize_loop (suc fuel) buf oparams =
    let round : Result (Oparam × Bytes) = do
      ((tag, val), rest) ← next_entry buf
      deserialize_loop fuel rest (emplace tag val oparams)
    in if ltb (length buf) 4 then ok (oparams, buf) else round

pub deserialize_oparam : Bytes → Result (Oparam × Bytes)
deserialize_oparam buf = deserialize_loop (suc (length buf)) buf []

-- The argument is converted to uint16_t.
pub serialize_u16 : ℕ → Bytes
serialize_u16 val = bit_and (val % 2 ^ 16 / 2 ^ 8) 0xff ∷ bit_and (val % 2 ^ 16) 0xff ∷ []

pub serialize_oparam : Bytes → Oparam → Bytes
serialize_oparam vec [] = vec
serialize_oparam vec ((tag, buf) ∷ oparams) =
    serialize_oparam (vec ++ (serialize_u16 tag ++ (serialize_u16 (length buf) ++ buf))) oparams

-- The member functions, on the map and with the new map where they change it.
pub contains : ℕ → Oparam → Bool
contains tag oparams = elim (find tag oparams) [ none ↦ false | some val ↦ true ]

-- `std::map::erase` returns the number of entries erased, 0 or 1.
pub erase_param : ℕ → Oparam → Oparam × Bool
unfolding contains
erase_param tag oparams = (erase tag oparams, contains tag oparams)

pub get_as_string : ℕ → Oparam → Result Bytes
get_as_string tag oparams = elim (find tag oparams) [
  | none ↦ throws (runtime_error "oparam does not exist")
  | some val ↦ ok val
]

pub set_as_string : ℕ → Bytes → Oparam → Result Oparam
set_as_string tag val oparams =
    if ltb 65535 (length val)
    then throws (length_error "oparam value length is bigger than 65535")
    else ok (assign tag val oparams)

-- `operator[]` of a std::string, at 0: the terminating null where the string is empty.
pub first_char : Bytes → ℕ
first_char [] = 0
first_char (c ∷ cs) = c

pub get_as_enum_u8 : ℕ → Oparam → Result ℕ
get_as_enum_u8 tag oparams = do val ← get_as_string tag oparams; ok (first_char val)

-- Assigning a uint8_t to a std::string makes it a string of that one character.
pub set_as_enum_u8 : ℕ → ℕ → Oparam → Oparam
set_as_enum_u8 tag val oparams = assign tag (val ∷ []) oparams
