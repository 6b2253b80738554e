-- ===== src/Common/Lists.antt =====
-- Lists measured and cut by native numbers, under the library's names.
use Prim.Native.Nat.{ℕ, zero, suc, ◌+◌, ◌-◌, ◌≤◌, min}
use mathlib.Core.Path.{◌≡◌, refl, ap, subst}
use mathlib.Core.List.{List, [], ◌∷◌, ◌++◌}
use native.Mathlib.Omega.{arith}

module _ {ℓ} {A : Type ℓ} where
  abbrev pub length : List A → ℕ
  length [] = 0
  length (x ∷ xs) = suc (length xs)

  abbrev pub take : ℕ → List A → List A
  take zero xs = []
  take (suc n) [] = []
  take (suc n) (x ∷ xs) = x ∷ take n xs

  abbrev pub drop : ℕ → List A → List A
  drop zero xs = xs
  drop (suc n) [] = []
  drop (suc n) (x ∷ xs) = drop n xs

  abbrev pub All {κ} : (A → Type κ) → List A → Type κ
  All P [] = Unit {κ}
  All P (x ∷ xs) = P x × All P xs

  pub length-append : (xs ys : List A) → length (xs ++ ys) ≡ length xs + length ys
  length-append [] ys = omega arith
  length-append (x ∷ xs) ys = omega (arith, length-append xs ys)

  pub length-take : (n : ℕ) (xs : List A) → length (take n xs) ≡ min n (length xs)
  length-take zero xs = omega arith
  length-take (suc n) [] = omega arith
  length-take (suc n) (x ∷ xs) = omega (arith, length-take n xs)

  pub length-drop : (n : ℕ) (xs : List A) → length (drop n xs) ≡ length xs - n
  length-drop zero xs = omega arith
  length-drop (suc n) [] = omega arith
  length-drop (suc n) (x ∷ xs) = omega (arith, length-drop n xs)

  pub take-append_exact : (xs ys : List A) (n : ℕ) → n ≡ length xs → take n (xs ++ ys) ≡ xs
  take-append_exact [] ys zero h = refl
  take-append_exact [] ys (suc n) h = absurd (omega arith)
  take-append_exact (x ∷ xs) ys zero h = absurd (omega arith)
  take-append_exact (x ∷ xs) ys (suc n) h = ap (◌∷◌ x) (take-append_exact xs ys n (omega arith))

  pub drop-append_exact : (xs ys : List A) (n : ℕ) → n ≡ length xs → drop n (xs ++ ys) ≡ ys
  drop-append_exact [] ys zero h = refl
  drop-append_exact [] ys (suc n) h = absurd (omega arith)
  drop-append_exact (x ∷ xs) ys zero h = absurd (omega arith)
  drop-append_exact (x ∷ xs) ys (suc n) h = drop-append_exact xs ys n (omega arith)

  pub drop-drop : (n m : ℕ) (xs : List A) → drop m (drop n xs) ≡ drop (n + m) xs
  drop-drop zero m xs = let e : 0 + m ≡ m = omega arith in rw e
  drop-drop (suc n) zero [] = let e : suc n + 0 ≡ suc n = omega arith in rw e
  drop-drop (suc n) (suc m) [] = let e : suc n + suc m ≡ suc (n + suc m) = omega arith in rw e
  drop-drop (suc n) m (x ∷ xs) =
      let e : suc n + m ≡ suc (n + m) = omega arith in rw e (drop-drop n m xs)

  pub take-append-drop : (n : ℕ) (xs : List A) → take n xs ++ drop n xs ≡ xs
  take-append-drop zero xs = refl
  take-append-drop (suc n) [] = refl
  take-append-drop (suc n) (x ∷ xs) = ap (◌∷◌ x) (take-append-drop n xs)

  pub drop_all : (n : ℕ) (xs : List A) → length xs ≤ n → drop n xs ≡ []
  drop_all zero [] h = refl
  drop_all (suc n) [] h = refl
  drop_all zero (x ∷ xs) h = absurd (omega arith)
  drop_all (suc n) (x ∷ xs) h = drop_all n xs (omega arith)

  pub drop-append_le :
      (n : ℕ) (xs ys : List A) → n ≤ length xs → drop n (xs ++ ys) ≡ drop n xs ++ ys
  drop-append_le zero xs ys h = refl
  drop-append_le (suc n) [] ys h = absurd (omega arith)
  drop-append_le (suc n) (x ∷ xs) ys h = drop-append_le n xs ys (omega arith)

  -- The longer of two prefixes of one list begins with the shorter one.
  pub append-split :
      (us xs ys vs : List A)
      → xs ++ ys ≡ us ++ vs
      → length us ≤ length xs
      → (zs : List A) × (xs ≡ us ++ zs) × (zs ++ ys ≡ vs)
  append-split [] xs ys vs e h = (xs, refl, e)
  append-split (u ∷ us) [] ys vs e h = absurd (omega arith)
  append-split (u ∷ us) (x ∷ xs) ys vs e h =
      let (zs, same, rest) = append-split us xs ys vs (cc) (omega arith) in (zs, cc, rest)

  pub drop-take : (n m : ℕ) (xs : List A) → drop n (take m xs) ≡ take (m - n) (drop n xs)
  drop-take zero m xs = let e : m - 0 ≡ m = omega arith in rw e
  drop-take (suc n) zero xs = let e : 0 - suc n ≡ 0 = omega arith in rw e
  drop-take (suc n) (suc m) [] = go (suc m - suc n)
    where
      go : (k : ℕ) → [] ≡ take k []
      go zero = refl
      go (suc k) = refl
  drop-take (suc n) (suc m) (x ∷ xs) =
      let e : suc m - suc n ≡ m - n = omega arith in rw e (drop-take n m xs)

  pub All-append {κ} : (P : A → Type κ) (xs ys : List A) → All P xs → All P ys → All P (xs ++ ys)
  All-append P [] ys hx hy = hy
  All-append P (x ∷ xs) ys hx hy = (hx.0, All-append P xs ys hx.1 hy)

  -- One element taken out.
  pub All-remove {κ} :
      (P : A → Type κ) (before behind : List A) (x : A) (xs : List A)
      → xs ≡ before ++ (x ∷ behind)
      → All P xs
      → P x × All P (before ++ behind)
  All-remove P before behind x xs e h = go before (subst (All P) e h)
    where
      go : (ys : List A) → All P (ys ++ (x ∷ behind)) → P x × All P (ys ++ behind)
      go [] a = a
      go (y ∷ ys) a = let (o, r) = go ys a.1 in (o, (a.0, r))

  pub All-take {κ} : (P : A → Type κ) (n : ℕ) (xs : List A) → All P xs → All P (take n xs)
  All-take P zero xs h = tt
  All-take P (suc n) [] h = tt
  All-take P (suc n) (x ∷ xs) h = (h.0, All-take P n xs h.1)

  pub All-drop {κ} : (P : A → Type κ) (n : ℕ) (xs : List A) → All P xs → All P (drop n xs)
  All-drop P zero xs h = h
  All-drop P (suc n) [] h = tt
  All-drop P (suc n) (x ∷ xs) h = All-drop P n xs h.1

  -- std::span::last: the view of the last `n` elements.
  abbrev pub last : ℕ → List A → List A
  last n xs = drop (length xs - n) xs

  pub last-append : (xs ys : List A) (n : ℕ) → n ≡ length ys → last n (xs ++ ys) ≡ ys
  last-append xs ys n h =
      drop-append_exact xs ys (length (xs ++ ys) - n) (omega (arith, length-append xs ys))

  -- Taking off the front by `last` is dropping it.
  pub last-drop : (n : ℕ) (xs : List A) → n ≤ length xs → last (length xs - n) xs ≡ drop n xs
  last-drop n xs h =
      let e : length xs - (length xs - n) ≡ n = omega arith in ap (λ (k : ℕ). drop k xs) e
