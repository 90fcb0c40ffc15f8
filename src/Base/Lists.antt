-- ===== src/Base/Lists.antt =====
-- C arrays as lists, measured and indexed by native numbers.
use Prim.Native.Nat.{ℕ, zero, suc, ◌+◌, ◌≤◌, ◌<◌}
use mathlib.Core.Path.{◌≡◌, refl, sym, ap, ◌∙◌}
use mathlib.Core.Logic.{◌≢◌}
use mathlib.Core.List.{List, [], ◌∷◌, ◌++◌}
use mathlib.Core.List.{append-nil, append_assoc}
use native.Mathlib.Nat.{add-zero, zero-add, add-suc, suc-add}
use native.Mathlib.Omega.{arith}

module _ {ℓ} {A : Type ℓ} where
  abbrev pub length : List A → ℕ
  length [] = 0
  length (x ∷ xs) = suc (length xs)

  abbrev pub get_or : List A → ℕ → A → A
  get_or [] i d = d
  get_or (x ∷ xs) zero d = x
  get_or (x ∷ xs) (suc i) d = get_or xs i d

  -- A write out of bounds changes nothing; the models test the bound before they write.
  abbrev pub set : List A → ℕ → A → List A
  set [] i v = []
  set (x ∷ xs) zero v = v ∷ xs
  set (x ∷ xs) (suc i) v = x ∷ set xs i v

  abbrev pub take : ℕ → List A → List A
  take zero xs = []
  take (suc n) [] = []
  take (suc n) (x ∷ xs) = x ∷ take n xs

  abbrev pub drop : ℕ → List A → List A
  drop zero xs = xs
  drop (suc n) [] = []
  drop (suc n) (x ∷ xs) = drop n xs

  abbrev pub replicate : ℕ → A → List A
  replicate zero a = []
  replicate (suc n) a = a ∷ replicate n a

  abbrev pub All {κ} : (A → Type κ) → List A → Type κ
  All P [] = Unit
  All P (x ∷ xs) = P x × All P xs

module _ {ℓ} {A : Type ℓ} where
  pub length-set : (xs : List A) (i : ℕ) (v : A) → length (set xs i v) ≡ length xs
  length-set [] i v = refl
  length-set (x ∷ xs) zero v = refl
  length-set (x ∷ xs) (suc i) v = ap suc (length-set xs i v)

  pub length-replicate : (n : ℕ) (a : A) → length (replicate n a) ≡ n
  length-replicate zero a = refl
  length-replicate (suc n) a = ap suc (length-replicate n a)

  pub length-append : (xs ys : List A) → length (xs ++ ys) ≡ length xs + length ys
  length-append [] ys = omega arith
  length-append (x ∷ xs) ys = omega (arith, length-append xs ys)

  pub get_or-set_self :
      (xs : List A) (i : ℕ) (v d : A) → i < length xs → get_or (set xs i v) i d ≡ v
  get_or-set_self [] i v d h = absurd (omega arith)
  get_or-set_self (x ∷ xs) zero v d h = refl
  get_or-set_self (x ∷ xs) (suc i) v d h = get_or-set_self xs i v d (omega arith)

  pub get_or-set_ne :
      (xs : List A) (i j : ℕ) (v d : A) → i ≢ j → get_or (set xs i v) j d ≡ get_or xs j d
  get_or-set_ne [] i j v d h = refl
  get_or-set_ne (x ∷ xs) zero zero v d h = absurd (h refl)
  get_or-set_ne (x ∷ xs) zero (suc j) v d h = refl
  get_or-set_ne (x ∷ xs) (suc i) zero v d h = refl
  get_or-set_ne (x ∷ xs) (suc i) (suc j) v d h = get_or-set_ne xs i j v d (λ e. h (ap suc e))

  -- One more element of a prefix.
  pub take-suc :
      (n : ℕ) (xs : List A) (d : A)
      → n < length xs
      → take (suc n) xs ≡ take n xs ++ get_or xs n d ∷ []
  take-suc n [] d h = absurd (omega arith)
  take-suc zero (x ∷ xs) d h = refl
  take-suc (suc n) (x ∷ xs) d h = ap (◌∷◌ x) (take-suc n xs d (omega arith))

  -- Writing at the end of a prefix does not change the prefix.
  pub take-set : (n : ℕ) (xs : List A) (v : A) → take n (set xs n v) ≡ take n xs
  take-set zero xs v = refl
  take-set (suc n) [] v = refl
  take-set (suc n) (x ∷ xs) v = ap (◌∷◌ x) (take-set n xs v)

  pub drop-eq-cons :
      (n : ℕ) (xs : List A) (d : A) → n < length xs → drop n xs ≡ get_or xs n d ∷ drop (suc n) xs
  drop-eq-cons n [] d h = absurd (omega arith)
  drop-eq-cons zero (x ∷ xs) d h = refl
  drop-eq-cons (suc n) (x ∷ xs) d h = drop-eq-cons n xs d (omega arith)

  pub drop-length : (xs : List A) → drop (length xs) xs ≡ []
  drop-length [] = refl
  drop-length (x ∷ xs) = drop-length xs

  pub take-suc-eq-cons :
      (n : ℕ) (xs : List A) (d : A)
      → 0 < length xs
      → take (suc n) xs ≡ get_or xs 0 d ∷ take n (drop 1 xs)
  take-suc-eq-cons n [] d h = absurd (omega arith)
  take-suc-eq-cons n (x ∷ xs) d h = refl

  -- Writing a list of values from an index on.
  abbrev pub set_all : List A → ℕ → List A → List A
  set_all xs i [] = xs
  set_all xs i (v ∷ vs) = set_all (set xs i v) (suc i) vs

  pub length-set_all : (xs : List A) (i : ℕ) (vs : List A) → length (set_all xs i vs) ≡ length xs
  length-set_all xs i [] = refl
  length-set_all xs i (v ∷ vs) =
      omega (arith, length-set_all (set xs i v) (suc i) vs, length-set xs i v)

  pub take-set_after : (n i : ℕ) (xs : List A) (v : A) → n ≤ i → take n (set xs i v) ≡ take n xs
  take-set_after zero i xs v h = refl
  take-set_after (suc n) i [] v h = refl
  take-set_after (suc n) zero (x ∷ xs) v h = absurd (omega arith)
  take-set_after (suc n) (suc i) (x ∷ xs) v h = ap (◌∷◌ x) (take-set_after n i xs v (omega arith))

  take-suc-set :
      (i : ℕ) (xs : List A) (v : A)
      → i < length xs
      → take (suc i) (set xs i v) ≡ take i xs ++ v ∷ []
  take-suc-set i [] v h = absurd (omega arith)
  take-suc-set zero (x ∷ xs) v h = refl
  take-suc-set (suc i) (x ∷ xs) v h = ap (◌∷◌ x) (take-suc-set i xs v (omega arith))

  -- What was written stands behind what was there before the index.
  pub take-set_all :
      (xs : List A) (i : ℕ) (vs : List A)
      → i + length vs ≤ length xs
      → take (i + length vs) (set_all xs i vs) ≡ take i xs ++ vs
  take-set_all xs i [] h = rw (add-zero i) (sym (append-nil (take i xs)))
  take-set_all xs i (v ∷ vs) h =
      rw (add-suc i (length vs), ← suc-add i (length vs))
        (take-set_all (set xs i v) (suc i) vs (omega (arith, length-set xs i v))
          ∙ ap (λ (l : List A). l ++ vs) (take-suc-set i xs v (omega arith))
          ∙ append_assoc (take i xs) (v ∷ []) vs)

  pub take-append : (xs ys : List A) → take (length xs) (xs ++ ys) ≡ xs
  take-append [] ys = refl
  take-append (x ∷ xs) ys = ap (◌∷◌ x) (take-append xs ys)

  pub take-take : (n m : ℕ) (xs : List A) → n ≤ m → take n (take m xs) ≡ take n xs
  take-take zero m xs h = refl
  take-take (suc n) zero xs h = absurd (omega arith)
  take-take (suc n) (suc m) [] h = refl
  take-take (suc n) (suc m) (x ∷ xs) h = ap (◌∷◌ x) (take-take n m xs (omega arith))

  pub get_or-take : (n i : ℕ) (xs : List A) (d : A) → i < n → get_or (take n xs) i d ≡ get_or xs i d
  get_or-take zero i xs d h = absurd (omega arith)
  get_or-take (suc n) i [] d h = refl
  get_or-take (suc n) zero (x ∷ xs) d h = refl
  get_or-take (suc n) (suc i) (x ∷ xs) d h = get_or-take n i xs d (omega arith)

  pub get_or-append :
      (xs ys : List A) (i : ℕ) (d : A) → get_or (xs ++ ys) (length xs + i) d ≡ get_or ys i d
  get_or-append [] ys i d = rw (zero-add i) refl
  get_or-append (x ∷ xs) ys i d = rw (suc-add (length xs) i) (get_or-append xs ys i d)
