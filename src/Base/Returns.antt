-- ===== src/Base/Returns.antt =====
-- Signed return codes, and what a C function does that aborts or leaves an array.
use Prim.Native.Nat.{ℕ, zero, suc}
use mathlib.Core.Bool.{Bool, true, false}
use mathlib.Core.List.{List}
use misc_verilog_cores.Base.Tests.{ltb, leb, if◌then◌else◌}
use misc_verilog_cores.Base.Lists.{length, get_or, set, take}

-- C's `int`; `negsuc n` is -(n + 1).
pub data ℤ : Type 0 where
  pos : ℕ → ℤ
  negsuc : ℕ → ℤ

-- `x < 0` and `x > 0`.
abbrev pub is_negative : ℤ → Bool
is_negative (pos n) = false
is_negative (negsuc n) = true

abbrev pub is_positive : ℤ → Bool
is_positive (pos zero) = false
is_positive (pos (suc n)) = true
is_positive (negsuc n) = false

-- Why a call has no result: a failed `assert`, an access outside an array, a read of a variable that
-- was never set, a use of what was freed or of NULL, a division by 0.
pub data Fault : Type 0 where
  assertion bounds uninitialised freed null_pointer zero_division : Fault

pub data Result {ℓ} (A : Type ℓ) : Type ℓ where
  ok : A → Result A
  fault : Fault → Result A

infixl 5 ◌>>=◌ ◌>>◌
abbrev pub ◌>>=◌ {ℓ κ} : {A : Type ℓ} {B : Type κ} → Result A → (A → Result B) → Result B
ok a >>= f = f a
fault e >>= f = fault e

abbrev pub ◌>>◌ {ℓ} : {B : Type ℓ} → Result (Unit {0}) → Result B → Result B
m >> k = m >>= λ _. k

-- `assert(b)`.
abbrev pub assert : Bool → Result (Unit {0})
assert true = ok tt
assert false = fault assertion

-- `a[i]`, `a[i] = v`, and a read of `a[0]` to `a[n - 1]`.
abbrev pub load : List ℕ → ℕ → Result ℕ
load xs i = if ltb i (length xs) then ok (get_or xs i 0) else fault bounds

abbrev pub store : List ℕ → ℕ → ℕ → Result (List ℕ)
store xs i v = if ltb i (length xs) then ok (set xs i v) else fault bounds

abbrev pub load_first : ℕ → List ℕ → Result (List ℕ)
load_first n xs = if leb n (length xs) then ok (take n xs) else fault bounds
