-- ===== src/Oparam/Total.antt =====
-- The constructor of oparam on any input, well formed or not.
use smpp.Common.{ℕ, zero, suc, ◌+◌, ◌-◌, ◌^◌, ◌<◌, ◌≤◌}
use smpp.Common.{All, length, take, ltb, arith, [], ◌∷◌}
use smpp.Common.{length-take, length-drop, All-take, All-drop}
use smpp.Common.{inl, inr, Bool-cases}
use smpp.Exceptions.{Bytes, IsByte, Result, ok, throws, ◌>>=◌, Exception, length_error}
use smpp.Oparam.{Oparam, next_entry, deserialize_loop, deserialize_oparam, deserialize_u16}
use smpp.Oparam.Map.{emplace, emplace-IsOrdered, All-emplace}
use smpp.Oparam.Access.{IsEntry, IsOparam}

abbrev too_long : Exception
too_long = length_error "oparam val length is bigger than available buf"

deserialize_u16-lt : (b0 b1 : ℕ) → deserialize_u16 b0 b1 < 2 ^ 16
unfolding deserialize_u16
deserialize_u16-lt b0 b1 = omega arith

-- A round on at least four bytes either throws, since the value would be longer than what is left,
-- or gives an entry and a shorter buffer.
pub data Round (buf : Bytes) : Result ((ℕ × Bytes) × Bytes) → Type 0 where
  entry :
      (tag : ℕ) (val rest : Bytes)
      → length rest + 4 ≤ length buf
      → IsEntry (tag, val)
      → All IsByte rest
      → Round buf (ok ((tag, val), rest))
  refused : Round buf (throws too_long)

next_entry-Round : (buf : Bytes) → 4 ≤ length buf → All IsByte buf → Round buf (next_entry buf)
unfolding next_entry
next_entry-Round [] h v = absurd (omega arith)
next_entry-Round (a ∷ []) h v = absurd (omega arith)
next_entry-Round (a ∷ b ∷ []) h v = absurd (omega arith)
next_entry-Round (a ∷ b ∷ c ∷ []) h v = absurd (omega arith)
next_entry-Round (a ∷ b ∷ c ∷ d ∷ more) h v = elim (Bool-cases (ltb (length buf - 4) n)) [
  | inl long ↦ rw long refused
  | inr fits ↦
      let fit : n ≤ length more = ground arith in
      let size : length buf - (n + 4) ≤ length buf = omega arith in
      rw fits (
        entry (deserialize_u16 a b) (take n more) _
          (omega (arith, length-drop (length buf - (length buf - (n + 4))) buf))
          (
            deserialize_u16-lt a b,
            omega (arith, length-take n more, deserialize_u16-lt c d),
            All-take IsByte n more v.1.1.1.1,
          )
          (All-drop IsByte (length buf - (length buf - (n + 4))) buf v))
]
  where
    buf : Bytes
    buf = a ∷ b ∷ c ∷ d ∷ more

    n : ℕ
    n = deserialize_u16 c d

-- The outcomes of the constructor: parameters that are well formed, with fewer than four bytes
-- left, or the one exception. `stuck` is none of them.
pub data Outcome : Result (Oparam × Bytes) → Type 0 where
  built :
      (oparams : Oparam) (rest : Bytes)
      → length rest < 4
      → All IsByte rest
      → IsOparam oparams
      → Outcome (ok (oparams, rest))
  failed : Outcome (throws too_long)

emplace-IsOparam :
    (tag : ℕ) (val : Bytes) (oparams : Oparam)
    → IsEntry (tag, val)
    → IsOparam oparams
    → IsOparam (emplace tag val oparams)
emplace-IsOparam tag val oparams e h = record {
  ordered = emplace-IsOrdered tag val oparams h.ordered;
  entries = All-emplace IsEntry tag val oparams e h.entries;
}

-- The rest of a round, from what the later rounds do.
after-Round :
    (fuel : ℕ) (buf : Bytes) (oparams : Oparam)
    → length buf < suc fuel
    → ((rest : Bytes) (more : Oparam)
        → length rest < fuel
        → All IsByte rest
        → IsOparam more
        → Outcome (deserialize_loop fuel rest more))
    → IsOparam oparams
    → {r : Result ((ℕ × Bytes) × Bytes)} → Round buf r
    → Outcome (r >>= λ ((tag, val), rest). deserialize_loop fuel rest (emplace tag val oparams))
after-Round fuel buf oparams hf later h (entry tag val rest short e v) =
    later rest _ (omega arith) v (emplace-IsOparam tag val oparams e h)
after-Round fuel buf oparams hf later h refused = failed

loop-Outcome :
    (fuel : ℕ) (buf : Bytes) (oparams : Oparam)
    → length buf < fuel
    → All IsByte buf
    → IsOparam oparams
    → Outcome (deserialize_loop fuel buf oparams)
unfolding deserialize_loop
loop-Outcome zero buf oparams hf v h = absurd (omega arith)
loop-Outcome (suc fuel) buf oparams hf v h = elim (Bool-cases (ltb (length buf) 4)) [
  | inl short ↦ rw short (built oparams buf (ground arith) v h)
  | inr long ↦ rw long (
      after-Round fuel buf oparams hf (loop-Outcome fuel) h (next_entry-Round buf (ground arith) v))
]

-- On every byte sequence the constructor ends, and it either throws the one length_error or builds
-- parameters in the order of distinct tags, each fit to be serialized, leaving at most three bytes.
pub deserialize_oparam-Outcome : (buf : Bytes) → All IsByte buf → Outcome (deserialize_oparam buf)
unfolding deserialize_oparam
deserialize_oparam-Outcome buf v =
    loop-Outcome _ buf [] (omega arith) v (record { ordered = tt; entries = tt })
