-- ===== src/Base/Slices.antt =====
-- Arrays in two parts: what is in front of an index and what is behind it.
use Prim.Native.Nat.{ℕ, zero, suc, ◌+◌, ◌≤◌, ◌<◌}
use mathlib.Core.Path.{◌≡◌, refl, ap, ap₂, ◌∙◌}
use mathlib.Core.List.{List, [], ◌∷◌, ◌++◌}
use native.Mathlib.Nat.{add-zero, zero-add, add-suc, suc-add}
use native.Mathlib.Omega.{arith}
use misc_verilog_cores.Base.Lists.{
  length, get_or, set, take, drop, set_all, length-set, length-set_all, get_or-set_ne,
  get_or-set_self, drop-eq-cons, take-set_after,
}

module _ {ℓ} {A : Type ℓ} where
  pub drop-set :
      (xs : List A) (i : ℕ) (x : A) → i < length xs → drop i (set xs i x) ≡ x ∷ drop (suc i) xs
  drop-set [] i x h = absurd (omega arith)
  drop-set (y ∷ ys) zero x h = refl
  drop-set (y ∷ ys) (suc i) x h = drop-set ys i x (omega arith)

  pub drop-suc-set : (xs : List A) (i : ℕ) (x : A) → drop (suc i) (set xs i x) ≡ drop (suc i) xs
  drop-suc-set [] i x = refl
  drop-suc-set (y ∷ ys) zero x = refl
  drop-suc-set (y ∷ ys) (suc i) x = drop-suc-set ys i x

  pub take-add : (i j : ℕ) (xs : List A) → take (i + j) xs ≡ take i xs ++ take j (drop i xs)
  take-add zero j xs = rw (zero-add j) refl
  take-add (suc i) zero [] = rw (suc-add i 0) refl
  take-add (suc i) (suc j) [] = rw (suc-add i (suc j)) refl
  take-add (suc i) j (x ∷ xs) = rw (suc-add i j) (ap (◌∷◌ x) (take-add i j xs))

  pub drop-add : (i j : ℕ) (xs : List A) → drop (i + j) xs ≡ drop j (drop i xs)
  drop-add zero j xs = rw (zero-add j) refl
  drop-add (suc i) zero [] = rw (suc-add i 0) refl
  drop-add (suc i) (suc j) [] = rw (suc-add i (suc j)) refl
  drop-add (suc i) j (x ∷ xs) = rw (suc-add i j) (drop-add i j xs)

  drop-before-set :
      (i j : ℕ) (xs : List A) (v : A) → i ≤ j → drop (suc j) (set xs i v) ≡ drop (suc j) xs
  drop-before-set i j [] v h = refl
  drop-before-set zero j (x ∷ xs) v h = refl
  drop-before-set (suc i) zero (x ∷ xs) v h = absurd (omega arith)
  drop-before-set (suc i) (suc j) (x ∷ xs) v h = drop-before-set i j xs v (omega arith)

  get_or-set_all :
      (xs : List A) (j i : ℕ) (vs : List A) (d : A)
      → i < j
      → get_or (set_all xs j vs) i d ≡ get_or xs i d
  get_or-set_all xs j i [] d h = refl
  get_or-set_all xs j i (v ∷ vs) d h =
      get_or-set_all (set xs j v) (suc j) i vs d (omega arith)
      ∙ get_or-set_ne xs j i v d (λ e. absurd (omega (arith, e)))

  -- Values that are written from an index on stand there, and what is behind them stays.
  pub drop-set_all :
      (xs : List A) (i : ℕ) (vs : List A)
      → i + length vs ≤ length xs
      → drop i (set_all xs i vs) ≡ vs ++ drop (i + length vs) xs
  drop-set_all xs i [] h = rw (add-zero i) refl
  drop-set_all xs i (v ∷ vs) h =
      let ys = set xs i v in
      let zs = set_all ys (suc i) vs in
      let n = length-set xs i v in
      let head : get_or zs i v ≡ v =
        get_or-set_all ys (suc i) i vs v (omega arith) ∙ get_or-set_self xs i v v (omega arith) in
      let behind : drop (suc i + length vs) ys ≡ drop (i + suc (length vs)) xs =
        rw (suc-add i (length vs), add-suc i (length vs))
          (drop-before-set i (i + length vs) xs v (omega arith)) in
      drop-eq-cons i zs v (omega (arith, length-set_all ys (suc i) vs, n))
      ∙ ap₂ (λ (w : A) (l : List A). w ∷ l) head
          (drop-set_all ys (suc i) vs (omega (arith, n)) ∙ ap (λ (l : List A). vs ++ l) behind)

  pub drop-append : (xs ys : List A) → drop (length xs) (xs ++ ys) ≡ ys
  drop-append [] ys = refl
  drop-append (x ∷ xs) ys = drop-append xs ys

  -- What is in front of the first place that is written stays.
  pub take-set_all_front : (n i : ℕ) (xs vs : List A) → n ≤ i → take n (set_all xs i vs) ≡ take n xs
  take-set_all_front n i xs [] h = refl
  take-set_all_front n i xs (v ∷ vs) h =
      take-set_all_front n (suc i) (set xs i v) vs (omega arith) ∙ take-set_after n i xs v h
