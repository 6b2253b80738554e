-- ===== src/Oparam/Access.antt =====
-- The member functions of oparam: what is read after a change, and the invariant of the map.
use smpp.Common.{ℕ, ◌<◌, ◌≤◌, ◌≡◌, refl, All, length, ◌==◌, if◌then◌else◌, arith}
use smpp.Common.{true, false, [], ◌∷◌, not, ◌&&◌, ◌^◌, ◌⊎◌, inl, inr, Option-cases}
use smpp.Exceptions.{Bytes, IsByte, ok, throws, length_error, runtime_error}
use smpp.Oparam.{Oparam, contains, erase_param, get_as_string, set_as_string}
use smpp.Oparam.{get_as_enum_u8, set_as_enum_u8, first_char}
use smpp.Oparam.Map.{IsOrdered, find, assign, find-assign, find-erase, assign-IsOrdered}
use smpp.Oparam.Map.{erase-IsOrdered, All-assign, All-erase}

-- A tag is a uint16_t, and a value is a string whose length a uint16_t holds.
abbrev pub IsEntry : ℕ × Bytes → Type 0
IsEntry p = (p.0 < 2 ^ 16) × (length p.1 < 2 ^ 16) × All IsByte p.1

-- The parameters that the members build: ordered by distinct tags, and each serializable.
pub record IsOparam (oparams : Oparam) : Type 0 where
  pub ordered : IsOrdered oparams
  pub entries : All IsEntry oparams

-- A value of at most 65535 bytes is set: it is read back under its tag, every other tag reads as
-- before, and the parameters stay well formed.
pub get_as_string-set_as_string :
    (i tag : ℕ) (val : Bytes) (oparams : Oparam)
    → tag < 2 ^ 16
    → length val ≤ 65535
    → All IsByte val
    → IsOparam oparams
    → (after : Oparam) × (set_as_string tag val oparams ≡ ok after)
      × (get_as_string i after ≡ (if tag == i then ok val else get_as_string i oparams))
      × IsOparam after
unfolding set_as_string get_as_string
get_as_string-set_as_string i tag val oparams ht hl hv h = (
  assign tag val oparams,
  ground arith,
  ground (arith, find-assign i tag val oparams),
  record {
    ordered = assign-IsOrdered tag val oparams h.ordered;
    entries = All-assign IsEntry tag val oparams (ht, omega arith, hv) h.entries;
  },
)

-- Setting a string fails exactly when it is longer than 65535 bytes.
pub set_as_string-throws :
    (tag : ℕ) (val : Bytes) (oparams : Oparam)
    → 65535 < length val
    → set_as_string tag val oparams
      ≡ throws (length_error "oparam value length is bigger than 65535")
unfolding set_as_string
set_as_string-throws tag val oparams h = ground arith

-- An erased tag is gone, the others read as before, and the answer says whether it was there.
pub erase_param_lem :
    (i tag : ℕ) (oparams : Oparam)
    → IsOparam oparams
    → ((erase_param tag oparams).1 ≡ contains tag oparams)
      × (contains i (erase_param tag oparams).0 ≡ (not (tag == i) && contains i oparams))
      × (get_as_string i (erase_param tag oparams).0 ≡ (
          if tag == i
          then throws (runtime_error "oparam does not exist")
          else get_as_string i oparams))
      × IsOparam (erase_param tag oparams).0
unfolding erase_param contains get_as_string
erase_param_lem i tag oparams h = (
  refl,
  ground (arith, find-erase i tag oparams h.ordered),
  ground (arith, find-erase i tag oparams h.ordered),
  record {
    ordered = erase-IsOrdered tag oparams h.ordered;
    entries = All-erase IsEntry tag oparams h.entries;
  },
)

-- `contains` tells whether `get_as_string` returns; where it does not, the exception is a runtime_error.
pub get_as_string-contains :
    (tag : ℕ) (oparams : Oparam)
    → ((contains tag oparams ≡ true) × ((val : Bytes) × (get_as_string tag oparams ≡ ok val)))
      ⊎ ((contains tag oparams ≡ false)
          × (get_as_string tag oparams ≡ throws (runtime_error "oparam does not exist")))
unfolding contains get_as_string
get_as_string-contains tag oparams = elim (Option-cases (find tag oparams)) [
  | inl e ↦ inr (rw (e, contains), rw (e, get_as_string))
  | inr (val, e) ↦ inl (rw (e, contains), (val, rw (e, get_as_string)))
]

-- An enum value that is set is read back, other tags read as before, and the parameters stay well
-- formed.
pub get_as_enum_u8-set_as_enum_u8 :
    (i tag val : ℕ) (oparams : Oparam)
    → tag < 2 ^ 16
    → val < 256
    → IsOparam oparams
    → (get_as_enum_u8 i (set_as_enum_u8 tag val oparams)
        ≡ (if tag == i then ok val else get_as_enum_u8 i oparams))
      × IsOparam (set_as_enum_u8 tag val oparams)
unfolding get_as_enum_u8 set_as_enum_u8 get_as_string first_char
get_as_enum_u8-set_as_enum_u8 i tag val oparams ht hv h = (
  ground (arith, find-assign i tag (val ∷ []) oparams),
  record {
    ordered = assign-IsOrdered tag (val ∷ []) oparams h.ordered;
    entries = All-assign IsEntry tag (val ∷ []) oparams (ht, omega arith, (hv, tt)) h.entries;
  },
)
