-- ===== src/Header/RoundTrip.antt =====
-- A header that is written is read back.
use smpp.Common.{drop-append_le, length-drop}
use smpp.Common.{ℕ, ◌+◌, ◌*◌, ◌/◌, ◌%◌, ◌^◌, ◌<◌, ◌≤◌, ◌≡◌, refl, ap, bit_or, arith}
use smpp.Common.{[], ◌∷◌, ◌++◌, length, drop, All, drop-drop, All-drop, length-drop}
use smpp.Common.Bits.{bit_or_shifted, bit_and_byte}
use smpp.Exceptions.{Bytes, IsByte}
use smpp.Header.{Header, header_length, deserialize_u32, u32_at, deserialize_header}
use smpp.Header.{serialize_u32, serialize_header}

abbrev pub IsU32 : ℕ → Type 0
IsU32 v = v < 2 ^ 32

-- Every field is a uint32_t.
abbrev pub IsHeader : Header → Type 0
IsHeader h =
    IsU32 h.command_length × IsU32 h.command_id × IsU32 h.command_status × IsU32 h.sequence_number

-- The joined bytes, as a number in base 256.
pub deserialize_u32-sum :
    (b0 b1 b2 b3 : ℕ)
    → b0 < 256
    → b1 < 256
    → b2 < 256
    → b3 < 256
    → deserialize_u32 b0 b1 b2 b3 ≡ b0 * 2 ^ 24 + b1 * 2 ^ 16 + b2 * 2 ^ 8 + b3
unfolding deserialize_u32
deserialize_u32-sum b0 b1 b2 b3 h0 h1 h2 h3 = omega (
  arith,
  bit_or_shifted 8 b0 b1 h1,
  ap (λ (t : ℕ). bit_or (bit_or t (b2 * 2 ^ 8)) b3) two,
  ap (λ (t : ℕ). bit_or t b3) three,
  bit_or_shifted 8 ((b0 * 256 + b1) * 256 + b2) b3 h3,
)
  where
    two : bit_or (b0 * 2 ^ 24) (b1 * 2 ^ 16) ≡ (b0 * 256 + b1) * 2 ^ 16
    two = omega (arith, bit_or_shifted 24 b0 (b1 * 2 ^ 16) (omega arith))

    three : bit_or ((b0 * 256 + b1) * 2 ^ 16) (b2 * 2 ^ 8) ≡ ((b0 * 256 + b1) * 256 + b2) * 2 ^ 8
    three = omega (arith, bit_or_shifted 16 (b0 * 256 + b1) (b2 * 2 ^ 8) (omega arith))

u32_at-serialize_u32 : (v : ℕ) (rest : Bytes) → IsU32 v → u32_at (serialize_u32 v ++ rest) ≡ v
unfolding u32_at serialize_u32
u32_at-serialize_u32 v rest h =
    rw
      (
        bit_and_byte (v / 2 ^ 24),
        bit_and_byte (v / 2 ^ 16),
        bit_and_byte (v / 2 ^ 8),
        bit_and_byte v,
      )
      (omega (
        arith,
        deserialize_u32-sum (v / 2 ^ 24 % 256) (v / 2 ^ 16 % 256) (v / 2 ^ 8 % 256) (v % 256)
            (omega arith) (omega arith) (omega arith) (omega arith),
      ))

-- Reading the header of a buffer into which it was written gives each of the four fields back, and
-- the bytes behind the header stay as they were.
pub deserialize_header-serialize_header :
    (buf : Bytes) (h : Header)
    → IsHeader h
    → (deserialize_header (serialize_header buf h) ≡ h)
      × (drop header_length (serialize_header buf h) ≡ drop header_length buf)
unfolding deserialize_header serialize_header serialize_u32
deserialize_header-serialize_header buf h v = (fields, refl)
  where
    rest : Bytes
    rest = drop header_length buf

    status_on : Bytes
    status_on = serialize_u32 h.command_status ++ (serialize_u32 h.sequence_number ++ rest)

    fields : deserialize_header (serialize_header buf h) ≡ h
    fields = λ i. record {
      command_length =
          u32_at-serialize_u32 h.command_length (serialize_u32 h.command_id ++ status_on) v.0 i;
      command_id = u32_at-serialize_u32 h.command_id status_on v.1 i;
      command_status =
          u32_at-serialize_u32 h.command_status (serialize_u32 h.sequence_number ++ rest) v.2 i;
      sequence_number = u32_at-serialize_u32 h.sequence_number rest v.3 i;
    }

-- Conversely, a header of 16 bytes that is read and written again gives the same bytes.
serialize_u32-u32_at :
    (b0 b1 b2 b3 : ℕ) (rest : Bytes)
    → b0 < 256
    → b1 < 256
    → b2 < 256
    → b3 < 256
    → serialize_u32 (u32_at (b0 ∷ b1 ∷ b2 ∷ b3 ∷ rest)) ≡ b0 ∷ b1 ∷ b2 ∷ b3 ∷ []
unfolding u32_at serialize_u32
serialize_u32-u32_at b0 b1 b2 b3 rest h0 h1 h2 h3 =
    let v : ℕ = b0 * 2 ^ 24 + b1 * 2 ^ 16 + b2 * 2 ^ 8 + b3 in
    rw
      (
        deserialize_u32-sum b0 b1 b2 b3 h0 h1 h2 h3,
        bit_and_byte (v / 2 ^ 24),
        bit_and_byte (v / 2 ^ 16),
        bit_and_byte (v / 2 ^ 8),
        bit_and_byte v,
      )
      (ground arith)

u32_front :
    (buf : Bytes) → 4 ≤ length buf → All IsByte buf → serialize_u32 (u32_at buf) ++ drop 4 buf ≡ buf
u32_front [] h v = absurd (omega arith)
u32_front (a ∷ []) h v = absurd (omega arith)
u32_front (a ∷ b ∷ []) h v = absurd (omega arith)
u32_front (a ∷ b ∷ c ∷ []) h v = absurd (omega arith)
u32_front (a ∷ b ∷ c ∷ d ∷ rest) h v =
    ap (λ (front : Bytes). front ++ rest)
      (serialize_u32-u32_at a b c d rest v.0 v.1.0 v.1.1.0 v.1.1.1.0)

-- A field of the header that stands behind `n` bytes.
u32_next :
    (buf : Bytes) (n : ℕ)
    → n + 4 ≤ length buf
    → All IsByte buf
    → serialize_u32 (u32_at (drop n buf)) ++ drop (n + 4) buf ≡ drop n buf
u32_next buf n h v =
    rw (← drop-drop n 4 buf)
      (u32_front (drop n buf) (omega (arith, length-drop n buf)) (All-drop IsByte n buf v))

-- Writing the header that a buffer of at least 16 bytes holds gives the same buffer.
pub serialize_header-deserialize_header :
    (buf : Bytes)
    → header_length ≤ length buf
    → All IsByte buf
    → serialize_header buf (deserialize_header buf) ≡ buf
unfolding serialize_header deserialize_header
serialize_header-deserialize_header buf h v =
    rw
      (
        u32_next buf 12 (omega arith) v,
        u32_next buf 8 (omega arith) v,
        u32_next buf 4 (omega arith) v,
      )
      (u32_front buf (omega arith) v)

u32_at-IsU32 : (buf : Bytes) → IsU32 (u32_at buf)
unfolding u32_at deserialize_u32
u32_at-IsU32 [] = omega arith
u32_at-IsU32 (a ∷ []) = omega arith
u32_at-IsU32 (a ∷ b ∷ []) = omega arith
u32_at-IsU32 (a ∷ b ∷ c ∷ []) = omega arith
u32_at-IsU32 (a ∷ b ∷ c ∷ d ∷ rest) = omega arith

-- Whatever the bytes are, the header that is read has uint32_t fields.
pub deserialize_header-IsHeader : (buf : Bytes) → IsHeader (deserialize_header buf)
unfolding deserialize_header
deserialize_header-IsHeader buf = (
  u32_at-IsU32 buf,
  u32_at-IsU32 (drop 4 buf),
  u32_at-IsU32 (drop 8 buf),
  u32_at-IsU32 (drop 12 buf),
)

-- The header replaces 16 bytes, so the buffer keeps its length.
pub length-serialize_header :
    (buf : Bytes) (h : Header)
    → header_length ≤ length buf
    → length (serialize_header buf h) ≡ length buf
unfolding serialize_header serialize_u32
length-serialize_header buf h long = omega (arith, length-drop header_length buf)

u32_at-append : (xs ys : Bytes) → 4 ≤ length xs → u32_at (xs ++ ys) ≡ u32_at xs
unfolding u32_at
u32_at-append [] ys h = absurd (omega arith)
u32_at-append (a ∷ []) ys h = absurd (omega arith)
u32_at-append (a ∷ b ∷ []) ys h = absurd (omega arith)
u32_at-append (a ∷ b ∷ c ∷ []) ys h = absurd (omega arith)
u32_at-append (a ∷ b ∷ c ∷ d ∷ xs) ys h = refl

u32_at-drop :
    (n : ℕ) (xs ys : Bytes) → n + 4 ≤ length xs → u32_at (drop n (xs ++ ys)) ≡ u32_at (drop n xs)
u32_at-drop n xs ys h =
    rw (drop-append_le n xs ys (omega arith))
      (u32_at-append (drop n xs) ys (omega (arith, length-drop n xs)))

-- The header of a frame is read whatever follows.
pub deserialize_header-append :
    (frame rest : Bytes)
    → header_length ≤ length frame
    → deserialize_header (frame ++ rest) ≡ deserialize_header frame
unfolding deserialize_header
deserialize_header-append frame rest h =
    rw
      (
        u32_at-append frame rest (omega arith),
        u32_at-drop 4 frame rest (omega arith),
        u32_at-drop 8 frame rest (omega arith),
        u32_at-drop 12 frame rest (omega arith),
      )
      refl
