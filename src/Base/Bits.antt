-- ===== src/Base/Bits.antt =====
-- Laws of `^` and `&` at variables, from the recursion on binary digits.
use Prim.Native.Nat.{
  ℕ, zero, suc, ◌+◌, ◌*◌, ◌-◌, ◌/◌, ◌%◌, ◌^◌, ◌≤◌, ◌<◌, min, bit_and, bit_xor, digits,
  bit_and-bitwise, bit_xor-bitwise, differ,
}
use mathlib.Core.Path.{◌≡◌, refl, sym, ap, ap₂, ◌∙◌}
use native.Mathlib.Nat.{pow-suc, pow-succ', one-le-pow, div-one, mod-one, div-div-eq-div-mul}
use native.Mathlib.Omega.{arith}

-- The operations count digits by their first number; any two counts above it agree.
module _ (z : ℕ → ℕ) (f : ℕ → ℕ → ℕ) where
  pub count_free : (n m a b : ℕ) → a ≤ n → a ≤ m → digits z f n a b ≡ digits z f m a b
  count_free zero zero a b h k = refl
  count_free zero (suc m) zero b h k = refl
  count_free (suc n) zero zero b h k = refl
  count_free (suc n) (suc m) zero b h k = refl
  count_free zero (suc m) (suc a) b h k = absurd (omega arith)
  count_free (suc n) zero (suc a) b h k = absurd (omega arith)
  count_free (suc n) (suc m) (suc a) b h k =
      omega (arith, count_free n m (suc a / 2) (b / 2) (omega arith) (omega arith))

differ-mod : (x y : ℕ) → x < 2 → y < 2 → differ x y ≡ (x + y) % 2
differ-mod zero y h k = omega arith
differ-mod (suc zero) zero h k = refl
differ-mod (suc zero) (suc zero) h k = refl
differ-mod (suc zero) (suc (suc y)) h k = absurd (omega arith)
differ-mod (suc (suc x)) y h k = absurd (omega arith)

pub zero-xor : (b : ℕ) → bit_xor 0 b ≡ b
zero-xor b = bit_xor-bitwise 0 b

zero-and : (b : ℕ) → bit_and 0 b ≡ 0
zero-and b = bit_and-bitwise 0 b

-- One equation for the lowest digit.
pub xor_step : (a b : ℕ) → bit_xor a b ≡ bit_xor (a / 2) (b / 2) * 2 + (a % 2 + b % 2) % 2
xor_step zero b = omega (arith, zero-xor b, zero-xor (b / 2))
xor_step (suc a) b = omega (
  arith,
  bit_xor-bitwise (suc a) b,
  bit_xor-bitwise (suc a / 2) (b / 2),
  count_free (λ y. y) differ a (suc a / 2) (suc a / 2) (b / 2) (omega arith) (omega arith),
  differ-mod (suc a % 2) (b % 2) (omega arith) (omega arith),
)

and_step : (a b : ℕ) → bit_and a b ≡ bit_and (a / 2) (b / 2) * 2 + min (a % 2) (b % 2)
and_step zero b = omega (arith, zero-and b, zero-and (b / 2))
and_step (suc a) b = omega (
  arith,
  bit_and-bitwise (suc a) b,
  bit_and-bitwise (suc a / 2) (b / 2),
  count_free (λ y. 0) min a (suc a / 2) (suc a / 2) (b / 2) (omega arith) (omega arith),
)

-- Shifting right and taking the lowest bit go through `^`.
pub xor-half : (a b : ℕ) → bit_xor a b / 2 ≡ bit_xor (a / 2) (b / 2)
xor-half a b = omega (arith, xor_step a b)

pub xor-parity : (a b : ℕ) → bit_xor a b % 2 ≡ (a % 2 + b % 2) % 2
xor-parity a b = omega (arith, xor_step a b)

xor_comm_below : (n a b : ℕ) → a + b ≤ n → bit_xor a b ≡ bit_xor b a
xor_comm_below zero zero zero h = refl
xor_comm_below zero (suc a) b h = absurd (omega arith)
xor_comm_below zero zero (suc b) h = absurd (omega arith)
xor_comm_below (suc n) zero zero h = refl
xor_comm_below (suc n) a b h =
    omega (arith, xor_step a b, xor_step b a, xor_comm_below n (a / 2) (b / 2) (omega arith))

pub xor_comm : (a b : ℕ) → bit_xor a b ≡ bit_xor b a
xor_comm a b = xor_comm_below (a + b) a b (omega arith)

xor_assoc_below : (n a b c : ℕ) → a + b + c ≤ n → bit_xor (bit_xor a b) c ≡ bit_xor a (bit_xor b c)
xor_assoc_below zero zero zero zero h = refl
xor_assoc_below zero (suc a) b c h = absurd (omega arith)
xor_assoc_below zero zero (suc b) c h = absurd (omega arith)
xor_assoc_below zero zero zero (suc c) h = absurd (omega arith)
xor_assoc_below (suc n) zero b c h = rw (zero-xor b, zero-xor (bit_xor b c))
xor_assoc_below (suc n) (suc a) b c h =
    let x = suc a in
    let ih = xor_assoc_below n (x / 2) (b / 2) (c / 2) (omega arith) in
    xor_step (bit_xor x b) c
    ∙ rw (xor-half x b, xor-parity x b, ih)
        (omega (
          arith,
          xor_step x (bit_xor b c),
          xor-parity b c,
          ap (λ (t : ℕ). bit_xor (x / 2) t) (xor-half b c),
        ))

pub xor_assoc : (a b c : ℕ) → bit_xor (bit_xor a b) c ≡ bit_xor a (bit_xor b c)
xor_assoc a b c = xor_assoc_below (a + b + c) a b c (omega arith)

-- A sum of both ends that `^` leaves within a width.
pub xor-lt : (k a b : ℕ) → a < 2 ^ k → b < 2 ^ k → bit_xor a b < 2 ^ k
xor-lt zero a b h g =
    let p : a ≡ 0 = omega arith in let q : b ≡ 0 = omega arith in rw (p, q) (omega arith)
xor-lt (suc k) a b h g = omega (
  arith,
  pow-suc 2 k,
  xor_step a b,
  xor-lt k (a / 2) (b / 2) (omega (arith, pow-suc 2 k)) (omega (arith, pow-suc 2 k)),
)

pub xor_self : (a : ℕ) → bit_xor a a ≡ 0
xor_self a = go a a (omega arith)
  where
    go : (n m : ℕ) → m ≤ n → bit_xor m m ≡ 0
    go zero zero h = refl
    go zero (suc m) h = absurd (omega arith)
    go (suc n) zero h = refl
    go (suc n) (suc m) h = omega (arith, xor_step (suc m) (suc m), go n (suc m / 2) (omega arith))

and-zero : (a : ℕ) → bit_and a 0 ≡ 0
and-zero a = go a a (omega arith)
  where
    go : (n m : ℕ) → m ≤ n → bit_and m 0 ≡ 0
    go zero zero h = refl
    go zero (suc m) h = absurd (omega arith)
    go (suc n) zero h = refl
    go (suc n) (suc m) h = omega (arith, and_step (suc m) 0, go n (suc m / 2) (omega arith))

mod_double : (m a : ℕ) → 0 < m → a % (2 * m) ≡ a / 2 % m * 2 + a % 2
mod_double m a h = grind arith

-- `^` goes through a division by a power of two, and through the remainder.
pub shift_suc : (k a : ℕ) → a / 2 ^ suc k ≡ a / 2 / 2 ^ k
shift_suc k a = ap (λ (t : ℕ). a / t) (pow-succ' 2 k) ∙ sym (div-div-eq-div-mul a 2 (2 ^ k))

pub xor-shift : (k a b : ℕ) → bit_xor a b / 2 ^ k ≡ bit_xor (a / 2 ^ k) (b / 2 ^ k)
xor-shift zero a b = rw (div-one (bit_xor a b), div-one a, div-one b) refl
xor-shift (suc k) a b =
    rw (shift_suc k (bit_xor a b), shift_suc k a, shift_suc k b, xor-half a b)
      (xor-shift k (a / 2) (b / 2))

pub mod_pow_suc : (k a : ℕ) → a % 2 ^ suc k ≡ a / 2 % 2 ^ k * 2 + a % 2
mod_pow_suc k a = rw (pow-succ' 2 k) (mod_double (2 ^ k) a (one-le-pow k 2 (omega arith)))

pub xor-mod : (k a b : ℕ) → bit_xor a b % 2 ^ k ≡ bit_xor (a % 2 ^ k) (b % 2 ^ k)
xor-mod zero a b = rw (mod-one (bit_xor a b), mod-one a, mod-one b) refl
xor-mod (suc k) a b =
    (omega (
      arith,
      mod_pow_suc k (bit_xor a b),
      mod_pow_suc k a,
      mod_pow_suc k b,
      xor_step a b,
      xor_step (a % 2 ^ suc k) (b % 2 ^ suc k),
      ap₂ bit_xor (half a) (half b),
      ap (λ (t : ℕ). t % 2 ^ k) (xor-half a b),
      xor-mod k (a / 2) (b / 2),
    ))
  where
    half : (x : ℕ) → x % 2 ^ suc k / 2 ≡ x / 2 % 2 ^ k
    half x = omega (arith, mod_pow_suc k x)

half_mask : (k : ℕ) → (2 ^ suc k - 1) / 2 ≡ 2 ^ k - 1
half_mask k = omega (arith, pow-suc 2 k, one-le-pow k 2)

-- `x & (2 ^ k - 1)` is the remainder by `2 ^ k`.
pub and-mask : (k a : ℕ) → bit_and a (2 ^ k - 1) ≡ a % 2 ^ k
and-mask zero a = omega (arith, and-zero a)
and-mask (suc k) a =
    let odd : (2 ^ suc k - 1) % 2 ≡ 1 = omega (arith, pow-suc 2 k, one-le-pow k 2) in
    and_step a (2 ^ suc k - 1)
    ∙ rw (half_mask k, and-mask k (a / 2), odd) (omega (arith, mod_pow_suc k a))
