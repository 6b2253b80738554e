-- ===== src/Oparam/RoundTrip.antt =====
-- Serialized optional parameters are read back, and the constructor on any input.
use smpp.Common.{ℕ, zero, suc, ◌+◌, ◌-◌, ◌*◌, ◌/◌, ◌%◌, ◌^◌, ◌<◌, ◌≤◌, ◌≡◌, refl, sym, ap, ◌∙◌}
use smpp.Common.{All, length, arith, [], ◌∷◌, ◌++◌, append_assoc, append-nil}
use smpp.Common.{le→ltb, lt→ltb, length-append, last-append}
use smpp.Common.{take-append_exact, bit_and}
use smpp.Common.Bits.{bit_or_shifted, bit_and_byte}
use smpp.Exceptions.{Bytes, ok}
use smpp.Oparam.{Oparam, next_entry, deserialize_loop, deserialize_oparam, serialize_oparam}
use smpp.Oparam.{deserialize_u16, serialize_u16}
use smpp.Oparam.Map.{IsOrdered, IsOrdered-front, emplace, emplace_at_end}
use smpp.Oparam.Access.{IsEntry, IsOparam}

-- The bytes of the parameters, one entry after the other.
abbrev pub entry_bytes : ℕ × Bytes → Bytes
entry_bytes (tag, val) = serialize_u16 tag ++ (serialize_u16 (length val) ++ val)

abbrev pub oparam_bytes : Oparam → Bytes
oparam_bytes [] = []
oparam_bytes (p ∷ oparams) = entry_bytes p ++ oparam_bytes oparams

pub serialize_oparam-bytes :
    (vec : Bytes) (oparams : Oparam) → serialize_oparam vec oparams ≡ vec ++ oparam_bytes oparams
unfolding serialize_oparam
serialize_oparam-bytes vec [] = sym (append-nil vec)
serialize_oparam-bytes vec ((tag, val) ∷ oparams) =
    serialize_oparam-bytes (vec ++ entry_bytes (tag, val)) oparams
    ∙ append_assoc vec (entry_bytes (tag, val)) (oparam_bytes oparams)

deserialize_u16-sum : (b0 b1 : ℕ) → b0 < 256 → b1 < 256 → deserialize_u16 b0 b1 ≡ b0 * 256 + b1
unfolding deserialize_u16
deserialize_u16-sum b0 b1 h0 h1 = omega (arith, bit_or_shifted 8 b0 b1 h1)

-- The two bytes of a uint16_t.
hi : ℕ → ℕ
hi v = bit_and (v % 2 ^ 16 / 2 ^ 8) 0xff

lo : ℕ → ℕ
lo v = bit_and (v % 2 ^ 16) 0xff

deserialize_u16-hi-lo : (v : ℕ) → v < 2 ^ 16 → deserialize_u16 (hi v) (lo v) ≡ v
unfolding hi lo
deserialize_u16-hi-lo v h =
    rw (bit_and_byte (v % 2 ^ 16 / 2 ^ 8), bit_and_byte (v % 2 ^ 16))
      (omega (
        arith,
        deserialize_u16-sum (v % 2 ^ 16 / 2 ^ 8 % 256) (v % 2 ^ 16 % 256) (omega arith)
            (omega arith),
      ))

-- One round on an entry whose length field is right.
next_entry_fields :
    (t0 t1 l0 l1 tag : ℕ) (val rest : Bytes)
    → deserialize_u16 t0 t1 ≡ tag
    → deserialize_u16 l0 l1 ≡ length val
    → next_entry (t0 ∷ t1 ∷ l0 ∷ l1 ∷ (val ++ rest)) ≡ ok ((tag, val), rest)
unfolding next_entry
next_entry_fields t0 t1 l0 l1 tag val rest ht hl =
    rw
      (
        hl,
        le→ltb (length (t0 ∷ t1 ∷ l0 ∷ l1 ∷ (val ++ rest)) - 4) (length val)
            (omega (arith, length-append val rest)),
        ht,
        take-append_exact val rest (length val) refl,
        last-append (t0 ∷ t1 ∷ l0 ∷ l1 ∷ val) rest
            (length (t0 ∷ t1 ∷ l0 ∷ l1 ∷ (val ++ rest)) - (length val + 4))
            (omega (arith, length-append val rest)),
      )
      refl

next_entry-bytes :
    (tag : ℕ) (val rest : Bytes)
    → tag < 2 ^ 16
    → length val < 2 ^ 16
    → next_entry (entry_bytes (tag, val) ++ rest) ≡ ok ((tag, val), rest)
unfolding serialize_u16 hi lo
next_entry-bytes tag val rest ht hl =
    next_entry_fields (hi tag) (lo tag) (hi (length val)) (lo (length val)) tag val rest
      (deserialize_u16-hi-lo tag ht) (deserialize_u16-hi-lo (length val) hl)

length-entry_bytes : (p : ℕ × Bytes) → length (entry_bytes p) ≡ length p.1 + 4
unfolding serialize_u16
length-entry_bytes (tag, val) = omega arith

-- A round of the loop, once its entry is known.
loop_round :
    (fuel : ℕ) (buf : Bytes) (oparams : Oparam) (tag : ℕ) (val rest : Bytes)
    → 4 ≤ length buf
    → next_entry buf ≡ ok ((tag, val), rest)
    → deserialize_loop (suc fuel) buf oparams ≡ deserialize_loop fuel rest (emplace tag val oparams)
unfolding deserialize_loop
loop_round fuel buf oparams tag val rest h e = rw (le→ltb (length buf) 4 h, e)

loop_end :
    (fuel : ℕ) (buf : Bytes) (oparams : Oparam)
    → length buf < 4
    → deserialize_loop (suc fuel) buf oparams ≡ ok (oparams, buf)
unfolding deserialize_loop
loop_end fuel buf oparams h = rw (lt→ltb (length buf) 4 h)

-- The loop on serialized parameters adds them behind those that it has, which have lower tags.
loop-bytes :
    (more before : Oparam) (fuel : ℕ) (rest : Bytes)
    → length rest < 4
    → length (oparam_bytes more) < fuel
    → IsOrdered (before ++ more)
    → All IsEntry more
    → deserialize_loop fuel (oparam_bytes more ++ rest) before ≡ ok (before ++ more, rest)
loop-bytes more before zero rest hr hf ho he = absurd (omega arith)
loop-bytes [] before (suc fuel) rest hr hf ho he = rw append-nil (loop_end fuel rest before hr)
loop-bytes ((tag, val) ∷ more) before (suc fuel) rest hr hf ho (h, he) =
    loop_round fuel _ before tag val (oparam_bytes more ++ rest) long entry
    ∙ ap (deserialize_loop fuel (oparam_bytes more ++ rest)) (emplace_at_end tag val before low)
    ∙ loop-bytes more (before ++ ((tag, val) ∷ [])) fuel rest hr enough (rw shift ho) he
    ∙ ap (λ (m : Oparam). ok (m, rest)) shift
  where
    size : length (entry_bytes (tag, val)) ≡ length val + 4
    size = length-entry_bytes (tag, val)

    shift : (before ++ ((tag, val) ∷ [])) ++ more ≡ before ++ ((tag, val) ∷ more)
    shift = append_assoc before ((tag, val) ∷ []) more

    regroup :
        oparam_bytes ((tag, val) ∷ more) ++ rest
        ≡ entry_bytes (tag, val) ++ (oparam_bytes more ++ rest)
    regroup = append_assoc (entry_bytes (tag, val)) (oparam_bytes more) rest

    entry :
        next_entry (oparam_bytes ((tag, val) ∷ more) ++ rest)
        ≡ ok ((tag, val), oparam_bytes more ++ rest)
    entry = ap next_entry regroup ∙ next_entry-bytes tag val (oparam_bytes more ++ rest) h.0 h.1

    long : 4 ≤ length (oparam_bytes ((tag, val) ∷ more) ++ rest)
    long = omega (
      arith,
      size,
      length-append (entry_bytes (tag, val)) (oparam_bytes more),
      length-append (entry_bytes (tag, val) ++ oparam_bytes more) rest,
    )

    enough : length (oparam_bytes more) < fuel
    enough = omega (arith, size, length-append (entry_bytes (tag, val)) (oparam_bytes more))

    low : All (λ p. p.0 < tag) before
    low = IsOrdered-front before tag val more ho

-- What `serialize` appends is read back by the constructor, whatever follows it in fewer than four
-- bytes.
pub deserialize_oparam-bytes :
    (oparams : Oparam) (rest : Bytes)
    → IsOparam oparams
    → length rest < 4
    → deserialize_oparam (oparam_bytes oparams ++ rest) ≡ ok (oparams, rest)
unfolding deserialize_oparam
deserialize_oparam-bytes oparams rest h hr =
    loop-bytes oparams [] _ rest hr (omega (arith, length-append (oparam_bytes oparams) rest))
      h.ordered h.entries

-- Serialized behind nothing, the parameters are what the constructor returns.
pub deserialize_oparam-serialize_oparam :
    (oparams : Oparam)
    → IsOparam oparams
    → deserialize_oparam (serialize_oparam [] oparams) ≡ ok (oparams, [])
deserialize_oparam-serialize_oparam oparams h =
    ap deserialize_oparam (serialize_oparam-bytes [] oparams ∙ sym (append-nil _))
    ∙ deserialize_oparam-bytes oparams [] h (omega arith)
