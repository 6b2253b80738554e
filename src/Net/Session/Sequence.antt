-- ===== src/Net/Session/Sequence.antt =====
-- session::next_sequence_number.
use smpp.Common.{ℕ, zero, suc, ◌+◌, ◌%◌, ◌^◌, ◌<◌, ◌≤◌, ◌≡◌, ◌≢◌, refl, arith, ltb, if◌then◌else◌}

-- `++sequence_number_` on a uint32_t; the new value of the member is also the result.
unfoldable pub next_sequence_number : ℕ → ℕ
next_sequence_number sequence_number =
    let incremented = (sequence_number + 1) % 2 ^ 32 in
    if ltb 0x7fff_ffff incremented then 1 else incremented

-- The number that the k-th call on a new session returns.
abbrev pub issued : ℕ → ℕ
issued zero = 0
issued (suc k) = next_sequence_number (issued k)

issued-mod : (k : ℕ) → issued (suc k) ≡ k % 0x7fff_ffff + 1
unfolding next_sequence_number
issued-mod zero = refl
issued-mod (suc k) = ground (arith, issued-mod k)

-- Every number that a new session issues is between 1 and 0x7fffffff, as the protocol wants, and
-- no number is issued twice within 0x7fffffff calls.
pub issued_range_distinct :
    (i j : ℕ)
    → i < j
    → j < i + 0x7fff_ffff
    → (1 ≤ issued (suc i)) × (issued (suc i) ≤ 0x7fff_ffff) × (issued (suc i) ≢ issued (suc j))
issued_range_distinct i j h k = omega (arith, issued-mod i, issued-mod j)
