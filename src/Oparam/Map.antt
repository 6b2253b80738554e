-- ===== src/Oparam/Map.antt =====
-- A std::map<oparam_tag, std::string> as the list of its entries in the order of the tags.
use smpp.Common.{ℕ, ◌<◌, ◌≡◌, refl, List, [], ◌∷◌, ◌++◌, Option, none, some, All, arith}
use smpp.Common.{ltb, ◌==◌, if◌then◌else◌, ==_iff}
use smpp.Exceptions.{Bytes}

abbrev pub Entries : Type 0
Entries = List (ℕ × Bytes)

-- `emplace` leaves an entry that is there already.
unfoldable pub emplace : ℕ → Bytes → Entries → Entries
emplace k v [] = (k, v) ∷ []
emplace k v ((j, w) ∷ m) =
    if ltb k j then (k, v) ∷ (j, w) ∷ m else if k == j then (j, w) ∷ m else (j, w) ∷ emplace k v m

-- `m[k] = v` replaces it.
unfoldable pub assign : ℕ → Bytes → Entries → Entries
assign k v [] = (k, v) ∷ []
assign k v ((j, w) ∷ m) =
    if ltb k j then (k, v) ∷ (j, w) ∷ m else if k == j then (j, v) ∷ m else (j, w) ∷ assign k v m

unfoldable pub find : ℕ → Entries → Option Bytes
find k [] = none
find k ((j, w) ∷ m) = if k == j then some w else find k m

unfoldable pub erase : ℕ → Entries → Entries
erase k [] = []
erase k ((j, w) ∷ m) = if k == j then m else (j, w) ∷ erase k m

-- Each tag is below those behind it.
abbrev pub IsOrdered : Entries → Type 0
IsOrdered [] = Unit {0}
IsOrdered ((k, v) ∷ m) = All (λ p. k < p.0) m × IsOrdered m

abbrev pub AllAbove : ℕ → Entries → Type 0
AllAbove k m = All (λ p. k < p.0) m

AllAbove-trans : (j k : ℕ) (m : Entries) → j < k → AllAbove k m → AllAbove j m
AllAbove-trans j k [] h a = tt
AllAbove-trans j k ((i, v) ∷ m) h a = (omega arith, AllAbove-trans j k m h a.1)

pub find_above : (k : ℕ) (m : Entries) → AllAbove k m → find k m ≡ none
unfolding find
find_above k [] a = refl
find_above k ((j, w) ∷ m) a = ground (arith, find_above k m a.1)

module _ {ℓ} (P : ℕ × Bytes → Type ℓ) (k : ℕ) where
  pub All-emplace : (v : Bytes) (m : Entries) → P (k, v) → All P m → All P (emplace k v m)
  unfolding emplace
  All-emplace v [] h a = (h, tt)
  All-emplace v ((j, w) ∷ m) h a = ground (arith, All-emplace v m h a.1)

  pub All-assign : (v : Bytes) (m : Entries) → P (k, v) → All P m → All P (assign k v m)
  unfolding assign
  All-assign v [] h a = (h, tt)
  All-assign v ((j, w) ∷ m) h a = ground (arith, All-assign v m h a.1, ==_iff k j)

  pub All-erase : (m : Entries) → All P m → All P (erase k m)
  unfolding erase
  All-erase [] a = tt
  All-erase ((j, w) ∷ m) a = ground (arith, All-erase m a.1)

-- The invariant of a std::map, kept by each operation.
pub emplace-IsOrdered : (k : ℕ) (v : Bytes) (m : Entries) → IsOrdered m → IsOrdered (emplace k v m)
unfolding emplace
emplace-IsOrdered k v [] h = (tt, tt)
emplace-IsOrdered k v ((j, w) ∷ m) h =
    ground
      (arith, AllAbove-trans k j m, All-emplace (λ p. j < p.0) k v m, emplace-IsOrdered k v m h.1)

pub assign-IsOrdered : (k : ℕ) (v : Bytes) (m : Entries) → IsOrdered m → IsOrdered (assign k v m)
unfolding assign
assign-IsOrdered k v [] h = (tt, tt)
assign-IsOrdered k v ((j, w) ∷ m) h =
    ground
      (arith, AllAbove-trans k j m, All-assign (λ p. j < p.0) k v m, assign-IsOrdered k v m h.1)

pub erase-IsOrdered : (k : ℕ) (m : Entries) → IsOrdered m → IsOrdered (erase k m)
unfolding erase
erase-IsOrdered k [] h = tt
erase-IsOrdered k ((j, w) ∷ m) h =
    ground (arith, All-erase (λ p. j < p.0) k m h.0, erase-IsOrdered k m h.1)

-- The first value that `emplace` is given for a tag stays.
pub find-emplace :
    (i k : ℕ) (v : Bytes) (m : Entries)
    → IsOrdered m
    → find i (emplace k v m)
      ≡ (if k == i then elim (find i m) [ none ↦ some v | some w ↦ some w ] else find i m)
unfolding find emplace
find-emplace i k v [] h = ground arith
find-emplace i k v ((j, w) ∷ m) h =
    ground (arith, find-emplace i k v m h.1, find_above i m, AllAbove-trans i j m)

pub find-assign :
    (i k : ℕ) (v : Bytes) (m : Entries)
    → find i (assign k v m) ≡ (if k == i then some v else find i m)
unfolding find assign
find-assign i k v [] = ground arith
find-assign i k v ((j, w) ∷ m) = ground (arith, find-assign i k v m)

pub find-erase :
    (i k : ℕ) (m : Entries) → IsOrdered m → find i (erase k m) ≡ (if k == i then none else find i m)
unfolding find erase
find-erase i k [] h = ground arith
find-erase i k ((j, w) ∷ m) h = ground (arith, find-erase i k m h.1, find_above i m)

-- A tag above all others is added at the end.
pub emplace_at_end :
    (k : ℕ) (v : Bytes) (m : Entries) → All (λ p. p.0 < k) m → emplace k v m ≡ m ++ ((k, v) ∷ [])
unfolding emplace
emplace_at_end k v [] h = refl
emplace_at_end k v ((j, w) ∷ m) h = ground (arith, emplace_at_end k v m h.1)

-- In an ordered list the tags in front of an entry are below its tag.
pub IsOrdered-front :
    (m : Entries) (k : ℕ) (v : Bytes) (rest : Entries)
    → IsOrdered (m ++ ((k, v) ∷ rest))
    → All (λ p. p.0 < k) m
IsOrdered-front [] k v rest h = tt
IsOrdered-front ((j, w) ∷ m) k v rest h = (above m h.0, IsOrdered-front m k v rest h.1)
  where
    above : (xs : Entries) → AllAbove j (xs ++ ((k, v) ∷ rest)) → j < k
    above [] a = a.0
    above (x ∷ xs) a = above xs a.1
