-- ===== src/Exceptions.antt =====
-- The exceptions that the library throws, and functions that may throw.
use Prim.Native.String.{String}
use smpp.Common.{ℕ, ◌<◌, ◌≡◌, refl, ◌⊎◌, inl, inr, ◌≢◌, List}

-- A byte sequence: a std::vector<uint8_t>, a std::span<const uint8_t>, or a std::string whose chars
-- are read as uint8_t.
abbrev pub Bytes : Type 0
Bytes = List ℕ

-- A uint8_t.
abbrev pub IsByte : ℕ → Type 0
IsByte b = b < 256

-- The standard exception classes that are thrown, each with its message.
pub data Exception : Type 0 where
  length_error runtime_error logic_error : String → Exception

-- `stuck` is no outcome of the program: a loop of the model ran out of its fuel.
pub data Result {ℓ} (A : Type ℓ) : Type ℓ where
  ok : A → Result A
  throws : Exception → Result A
  stuck : Result A

infixl 5 ◌>>=◌
abbrev pub ◌>>=◌ {ℓ κ} : {A : Type ℓ} {B : Type κ} → Result A → (A → Result B) → Result B
ok a >>= f = f a
throws e >>= f = throws e
stuck >>= f = stuck

pub Result-cases {ℓ} :
    {A : Type ℓ} (r : Result A)
    → r ≢ stuck
    → ((a : A) × (r ≡ ok a)) ⊎ ((e : Exception) × (r ≡ throws e))
Result-cases (ok a) h = inl (a, refl)
Result-cases (throws e) h = inr (e, refl)
Result-cases stuck h = absurd (h refl)
