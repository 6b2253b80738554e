-- ===== src/Net/FlatBuffer/Queue.antt =====
-- The buffer as a queue of bytes: every history of reads and removals that the session makes has
-- the effect of appending to a list and dropping from its front.
use smpp.Common.{
  ℕ, zero, suc, ◌+◌, ◌-◌, ◌≤◌, ◌≡◌, refl, ap, ◌∙◌, arith, List, [], ◌∷◌, ◌++◌, length, drop,
}
use smpp.Exceptions.{Bytes, Result, ok, ◌>>=◌}
use smpp.Net.FlatBuffer.{FlatBuffer, zeros, empty_buffer, clear, capacity, size, contents, prepare}
use smpp.Net.FlatBuffer.{write_prepared, commit, consume}
use smpp.Net.FlatBuffer.Invariant.{IsBuffer, prepare_fits, consume-IsBuffer, contents-consume}
use smpp.Net.FlatBuffer.Invariant.{write-IsBuffer, contents-write, length-contents}

-- `async_read_some` into `prepare(capacity() - size())`, and the commit of what was received.
pub receive : Bytes → FlatBuffer → Result FlatBuffer
receive bytes b = do
  b' ← prepare (capacity b - size b) b
  ok (commit (length bytes) (write_prepared bytes b'))

pub data Use : Type 0 where
  received : Bytes → Use
  consumed : ℕ → Use
  cleared : Use

pub run : List Use → FlatBuffer → Result FlatBuffer
run [] b = ok b
run (received bytes ∷ us) b = do b' ← receive bytes b; run us b'
run (consumed n ∷ us) b = run us (consume n b)
run (cleared ∷ us) b = run us (clear b)

-- The same history on a plain list.
abbrev pub run_list : List Use → Bytes → Bytes
run_list [] xs = xs
run_list (received bytes ∷ us) xs = run_list us (xs ++ bytes)
run_list (consumed n ∷ us) xs = run_list us (drop n xs)
run_list (cleared ∷ us) xs = run_list us []

-- No read receives more than fits into what was prepared.
abbrev pub Fits : ℕ → List Use → Bytes → Type 0
Fits cap [] xs = Unit {0}
Fits cap (received bytes ∷ us) xs = (length xs + length bytes ≤ cap) × Fits cap us (xs ++ bytes)
Fits cap (consumed n ∷ us) xs = Fits cap us (drop n xs)
Fits cap (cleared ∷ us) xs = Fits cap us []

pub size-le-capacity : (b : FlatBuffer) → IsBuffer b → size b ≤ capacity b
unfolding size capacity
size-le-capacity b v = omega arith

-- Reading as much as fits never overflows, wherever the positions stand.
pub receive_lem :
    (bytes : Bytes) (b : FlatBuffer)
    → IsBuffer b
    → size b + length bytes ≤ capacity b
    → (b' : FlatBuffer) × (receive bytes b ≡ ok b')
      × IsBuffer b'
      × (contents b' ≡ contents b ++ bytes)
      × (capacity b' ≡ capacity b)
unfolding receive
receive_lem bytes b v h =
    let (p, e, made) =
      prepare_fits b v (capacity b - size b) (omega (arith, size-le-capacity b v)) in
    let room : length bytes ≤ p.last_pos - p.out_pos = omega (arith, made.region) in
    let (valid, same) = write-IsBuffer p made.is_buffer bytes room in
    (
      commit (length bytes) (write_prepared bytes p),
      rw e,
      valid,
      contents-write p made.is_buffer bytes room
          ∙ ap (λ (xs : Bytes). xs ++ bytes) made.same_contents,
      same ∙ made.same_capacity,
    )

clear-IsBuffer : (b : FlatBuffer) → IsBuffer b → IsBuffer (clear b) × (contents (clear b) ≡ [])
unfolding clear contents size
clear-IsBuffer b v = (omega arith, refl)

pub capacity-consume : (n : ℕ) (b : FlatBuffer) → capacity (consume n b) ≡ capacity b
unfolding capacity consume
capacity-consume n b = ground arith

-- The induction, for a buffer that is known by its contents and its capacity.
run_from :
    (us : List Use) (b : FlatBuffer) (xs : Bytes) (cap : ℕ)
    → IsBuffer b
    → contents b ≡ xs
    → capacity b ≡ cap
    → Fits cap us xs
    → (b' : FlatBuffer) × (run us b ≡ ok b')
      × IsBuffer b'
      × (contents b' ≡ run_list us xs)
      × (capacity b' ≡ cap)
unfolding run
run_from [] b xs cap v e k f = (b, refl, v, e, k)
run_from (received bytes ∷ us) b xs cap v e k (h, f) =
    let fits : size b + length bytes ≤ capacity b =
      omega (arith, ap length e, length-contents b v, k) in
    let (p, made, pv, pe, pk) = receive_lem bytes b v fits in
    rw made
      (run_from us p (xs ++ bytes) cap pv (pe ∙ ap (λ (ys : Bytes). ys ++ bytes) e) (pk ∙ k) f)
run_from (consumed n ∷ us) b xs cap v e k f =
    run_from us (consume n b) (drop n xs) cap (consume-IsBuffer b v n)
      (contents-consume b v n ∙ ap (drop n) e) (capacity-consume n b ∙ k) f
run_from (cleared ∷ us) b xs cap v e k f =
    let (cv, ce) = clear-IsBuffer b v in
    run_from us (clear b) [] cap cv ce (unfold capacity clear in k) f

-- From any state that the operations reach, each history that reads no more than fits runs without
-- an exception, and leaves the bytes that the same history leaves of a plain list.
pub run-run_list :
    (us : List Use) (b : FlatBuffer)
    → IsBuffer b
    → Fits (capacity b) us (contents b)
    → (b' : FlatBuffer) × (run us b ≡ ok b')
      × IsBuffer b'
      × (contents b' ≡ run_list us (contents b))
      × (capacity b' ≡ capacity b)
run-run_list us b v f = run_from us b (contents b) (capacity b) v refl refl f

length-zeros : (n : ℕ) → length (zeros n) ≡ n
unfolding zeros
length-zeros zero = refl
length-zeros (suc n) = ap suc (length-zeros n)

-- A new buffer is such a state: it is empty, and its capacity is the template argument.
pub empty_buffer-IsBuffer :
    (n : ℕ)
    → IsBuffer (empty_buffer n) × (contents (empty_buffer n) ≡ []) × (capacity (empty_buffer n) ≡ n)
unfolding empty_buffer contents size capacity
empty_buffer-IsBuffer n = (omega arith, refl, length-zeros n)
