-- ===== src/Net/FlatBuffer.antt =====
-- include/smpp/net/detail/static_flat_buffer.hpp: an array with pointers to the first byte to be
-- read, behind the last one, and behind the region that was prepared for writing. The pointers are
-- positions in the array.
pub mod Invariant
pub mod Queue
use smpp.Common.{
  ℕ, zero, suc, ◌+◌, ◌-◌, ◌≤◌, min, List, [], ◌∷◌, ◌++◌, length, take, drop, leb, ltb,
  if◌then◌else◌,
}
use smpp.Exceptions.{Bytes, Exception, length_error, Result, ok, throws}

pub record FlatBuffer : Type 0 where
  pub buf : Bytes
  pub in_pos : ℕ
  pub out_pos : ℕ
  pub last_pos : ℕ

zeros : ℕ → Bytes
zeros zero = []
zeros (suc n) = 0 ∷ zeros n

-- The array of N elements, value-initialized.
pub empty_buffer : ℕ → FlatBuffer
unfolding zeros
empty_buffer n = record { buf = zeros n; in_pos = 0; out_pos = 0; last_pos = 0 }

pub clear : FlatBuffer → FlatBuffer
clear b = record b { in_pos = 0; out_pos = 0; last_pos = 0 }

unfoldable pub capacity : FlatBuffer → ℕ
capacity b = length b.buf

unfoldable pub size : FlatBuffer → ℕ
size b = b.out_pos - b.in_pos

-- The bytes from `begin()` to `end()`, which `data()` refers to as well.
unfoldable pub contents : FlatBuffer → Bytes
unfolding size
contents b = take (size b) (drop b.in_pos b.buf)

-- The region returned is that from `out_pos` to `last_pos`.
unfoldable pub prepare : ℕ → FlatBuffer → Result FlatBuffer
unfolding size capacity contents
prepare n b =
    if leb n (capacity b - b.out_pos)
    then ok (record b { last_pos = b.out_pos + n })
    else let len = size b in
      if ltb (capacity b - len) n
      then throws (length_error "static_flat_buffer::prepare buffer overflow")
      else ok (record {
        buf = contents b ++ drop len b.buf;
        in_pos = 0;
        out_pos = len;
        last_pos = len + n;
      })

-- Not a member function: the owner of the buffer writes to the region that was prepared.
unfoldable pub write_prepared : Bytes → FlatBuffer → FlatBuffer
write_prepared bytes b = record b {
  buf = take b.out_pos b.buf ++ (bytes ++ drop (b.out_pos + length bytes) b.buf);
}

unfoldable pub commit : ℕ → FlatBuffer → FlatBuffer
commit n b = record b { out_pos = b.out_pos + min n (b.last_pos - b.out_pos) }

unfoldable pub consume : ℕ → FlatBuffer → FlatBuffer
unfolding size
consume n b =
    if leb (size b) n
    then record b { in_pos = 0; out_pos = 0 }
    else record b { in_pos = b.in_pos + n }
