-- ===== src/Net/FlatBuffer/Invariant.antt =====
-- The positions stay in order and within the array, and what each operation does to the contents.
use smpp.Common.{ℕ, ◌+◌, ◌-◌, ◌<◌, ◌≤◌, ◌≡◌, refl, ap, ◌∙◌, sym, min, arith, ◌++◌}
use smpp.Common.{length, take, drop, leb, Bool-cases, inl, inr, ◌⊎◌, append_assoc, true}
use smpp.Common.{
  length-append, length-take, length-drop, drop-drop, drop-take, drop_all, drop-append_le,
}
use smpp.Common.{take-append_exact, le→ltb}
use smpp.Exceptions.{Bytes, length_error, ok, throws}
use smpp.Net.FlatBuffer.{FlatBuffer, capacity, size, contents, prepare}
use smpp.Net.FlatBuffer.{write_prepared, commit, consume}

pub record IsBuffer (b : FlatBuffer) : Type 0 where
  pub in_out : b.in_pos ≤ b.out_pos
  pub out_last : b.out_pos ≤ b.last_pos
  pub last_end : b.last_pos ≤ length b.buf

pub length-contents : (b : FlatBuffer) → IsBuffer b → length (contents b) ≡ size b
unfolding contents size
length-contents b v =
    omega
      (arith, length-take (b.out_pos - b.in_pos) (drop b.in_pos b.buf), length-drop b.in_pos b.buf)

-- What a successful `prepare` of `n` bytes keeps and makes.
pub record Prepared (n : ℕ) (b b' : FlatBuffer) : Type 0 where
  pub is_buffer : IsBuffer b'
  pub same_contents : contents b' ≡ contents b
  pub same_capacity : capacity b' ≡ capacity b
  pub region : b'.last_pos ≡ b'.out_pos + n

-- The array after the contents were moved to its front.
module _ (n : ℕ) (b : FlatBuffer) (v : IsBuffer b) where
  moved : FlatBuffer
  moved = record {
    buf = contents b ++ drop (size b) b.buf;
    in_pos = 0;
    out_pos = size b;
    last_pos = size b + n;
  }

  length-moved : length moved.buf ≡ length b.buf
  unfolding moved size
  length-moved = omega (
    arith,
    length-append (contents b) (drop (size b) b.buf),
    length-contents b v,
    length-drop (size b) b.buf,
  )

  moved-Prepared : size b + n ≤ capacity b → Prepared n b moved
  unfolding moved capacity contents size
  moved-Prepared h = record {
    is_buffer = record {
      in_out = omega arith;
      out_last = omega arith;
      last_end = omega (arith, length-moved);
    };
    same_contents = same;
    same_capacity = length-moved;
    region = refl;
  }
    where
      whole : size b - 0 ≡ size b
      whole = omega arith

      same : contents moved ≡ contents b
      same =
          ap (λ (k : ℕ). take k (contents b ++ drop (size b) b.buf)) whole
          ∙ take-append_exact (contents b) (drop (size b) b.buf) (size b)
              (sym (length-contents b v))

module _ (b : FlatBuffer) (v : IsBuffer b) where
  -- `prepare` makes room for `n` bytes behind the contents, which it keeps, whenever they fit.
  pub prepare_fits :
      (n : ℕ)
      → size b + n ≤ capacity b
      → (b' : FlatBuffer) × (prepare n b ≡ ok b') × Prepared n b b'
  unfolding prepare capacity size contents
  prepare_fits n h = elim (Bool-cases (leb n (length b.buf - b.out_pos))) [
    | inl room ↦ (
      record b { last_pos = b.out_pos + n },
      rw room,
      record {
        is_buffer = record { in_out = v.in_out; out_last = omega arith; last_end = ground arith };
        same_contents = refl;
        same_capacity = refl;
        region = refl;
      },
    )
    | inr tight ↦ (
      moved n b v,
      rw (tight, le→ltb (length b.buf - (b.out_pos - b.in_pos)) n (omega arith))
          (unfold moved in refl),
      moved-Prepared n b v h,
    )
  ]

  -- It throws where they do not fit.
  pub prepare_overflow :
      (n : ℕ)
      → capacity b < size b + n
      → prepare n b ≡ throws (length_error "static_flat_buffer::prepare buffer overflow")
  unfolding prepare capacity size
  prepare_overflow n h = ground arith

  -- Where `n` bytes fit behind the contents `prepare` succeeds, keeps the contents and the capacity and
  -- makes room for the `n` bytes behind them; where they do not fit it throws.
  pub prepare-cases :
      (n : ℕ)
      → ((size b + n ≤ capacity b) × ((b' : FlatBuffer) × (prepare n b ≡ ok b') × Prepared n b b'))
        ⊎ ((capacity b < size b + n)
            × (prepare n b ≡ throws (length_error "static_flat_buffer::prepare buffer overflow")))
  prepare-cases n = elim (Bool-cases (leb (size b + n) (capacity b))) [
    | inl fits ↦ inl (ground arith, prepare_fits n (ground arith))
    | inr over ↦ inr (ground arith, prepare_overflow n (ground arith))
  ]

  pub consume-IsBuffer : (n : ℕ) → IsBuffer (consume n b)
  unfolding consume size
  consume-IsBuffer n = ground arith

  consume_some :
      (n : ℕ)
      → n < size b
      → take (b.out_pos - (b.in_pos + n)) (drop (b.in_pos + n) b.buf) ≡ drop n (contents b)
  unfolding contents size
  consume_some n h =
      rw (← drop-drop b.in_pos n b.buf, drop-take n (b.out_pos - b.in_pos) (drop b.in_pos b.buf))
        (ap (λ (k : ℕ). take k (drop n (drop b.in_pos b.buf))) left)
    where
      left : b.out_pos - (b.in_pos + n) ≡ b.out_pos - b.in_pos - n
      left = omega arith

  -- Bytes that are consumed are taken off the front.
  pub contents-consume : (n : ℕ) → contents (consume n b) ≡ drop n (contents b)
  contents-consume n = elim (Bool-cases (leb (size b) n)) [
    | inl all ↦
        rw (drop_all n (contents b) (omega (arith, length-contents b v, enough all)))
          (unfold contents size consume in rw all)
    | inr some ↦ rw (← consume_some n (ground arith)) (unfold contents size consume in rw some)
  ]
    where
      enough : leb (size b) n ≡ true → size b ≤ n
      enough e = ground arith

module _ (b : FlatBuffer) (v : IsBuffer b) where
  pub write-IsBuffer :
      (bytes : Bytes)
      → length bytes ≤ b.last_pos - b.out_pos
      → IsBuffer (commit (length bytes) (write_prepared bytes b))
        × (capacity (commit (length bytes) (write_prepared bytes b)) ≡ capacity b)
  unfolding commit write_prepared capacity
  write-IsBuffer bytes h = (
    record { in_out = omega arith; out_last = omega arith; last_end = omega (arith, whole) },
    whole,
  )
    where
      tail : Bytes
      tail = drop (b.out_pos + length bytes) b.buf

      whole : length (take b.out_pos b.buf ++ (bytes ++ tail)) ≡ length b.buf
      whole = omega (
        arith,
        length-append (take b.out_pos b.buf) (bytes ++ tail),
        length-append bytes tail,
        length-take b.out_pos b.buf,
        length-drop (b.out_pos + length bytes) b.buf,
      )

  -- What stands behind the read position once the array is cut at the write position.
  drop-in_pos : (ys : Bytes) → drop b.in_pos (take b.out_pos b.buf ++ ys) ≡ contents b ++ ys
  unfolding contents size
  drop-in_pos ys =
      drop-append_le b.in_pos (take b.out_pos b.buf) ys (omega (arith, length-take b.out_pos b.buf))
      ∙ ap (λ (xs : Bytes). xs ++ ys) (drop-take b.in_pos b.out_pos b.buf)

  -- Bytes that are written to the prepared region and committed are added at the end.
  pub contents-write :
      (bytes : Bytes)
      → length bytes ≤ b.last_pos - b.out_pos
      → contents (commit (length bytes) (write_prepared bytes b)) ≡ contents b ++ bytes
  unfolding contents size commit write_prepared
  contents-write bytes h =
      ap (take k) (drop-in_pos (bytes ++ tail))
      ∙ ap (take k) (sym (append_assoc (contents b) bytes tail))
      ∙ take-append_exact (contents b ++ bytes) tail k
          (omega (arith, length-append (contents b) bytes, length-contents b v))
    where
      k : ℕ
      k = b.out_pos + min (length bytes) (b.last_pos - b.out_pos) - b.in_pos

      tail : Bytes
      tail = drop (b.out_pos + length bytes) b.buf

-- Nothing is consumed.
pub consume-zero : (b : FlatBuffer) → 1 ≤ size b → consume 0 b ≡ b
unfolding consume size
consume-zero b h = ground arith
