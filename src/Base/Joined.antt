-- ===== src/Base/Joined.antt =====
-- `|` of two numbers whose digits do not overlap.
use Prim.Native.Nat.{ℕ, zero, suc, ◌+◌, ◌*◌, ◌/◌, ◌%◌, ◌^◌, ◌<◌, max, bit_or, bit_or-bitwise}
use mathlib.Core.Path.{◌≡◌, ◌∙◌}
use native.Mathlib.Nat.{pow-suc}
use native.Mathlib.Omega.{arith}
use misc_verilog_cores.Base.Bits.{count_free}

zero-or : (b : ℕ) → bit_or 0 b ≡ b
zero-or b = bit_or-bitwise 0 b

or_step : (a b : ℕ) → bit_or a b ≡ bit_or (a / 2) (b / 2) * 2 + max (a % 2) (b % 2)
or_step zero b = omega (arith, zero-or b, zero-or (b / 2))
or_step (suc a) b = omega (
  arith,
  bit_or-bitwise (suc a) b,
  bit_or-bitwise (suc a / 2) (b / 2),
  count_free (λ y. y) max a (suc a / 2) (suc a / 2) (b / 2) (omega arith) (omega arith),
)

or-zero_below : (n a : ℕ) → a < n → bit_or a 0 ≡ a
or-zero_below zero a h = absurd (omega arith)
or-zero_below (suc n) zero h = zero-or 0
or-zero_below (suc n) (suc a) h =
    omega (arith, or_step (suc a) 0, or-zero_below n (suc a / 2) (omega arith))

-- `(a << k) | b` is their sum, for a `b` of `k` digits.
pub or-shifted : (k a b : ℕ) → b < 2 ^ k → bit_or (a * 2 ^ k) b ≡ a * 2 ^ k + b
or-shifted zero a b h =
    let e : b ≡ 0 = omega arith in
    let one : a * 2 ^ zero ≡ a = omega arith in
    rw (one, e) (omega (arith, or-zero_below (a + 1) a (omega arith)))
or-shifted (suc k) a b h =
    let double : a * 2 ^ suc k ≡ 2 * (a * 2 ^ k) = rw (pow-suc 2 k) (grind arith) in
    let half : a * 2 ^ suc k / 2 ≡ a * 2 ^ k = omega (arith, double) in
    let even : a * 2 ^ suc k % 2 ≡ 0 = omega (arith, double) in
    let below : b / 2 < 2 ^ k = omega (arith, pow-suc 2 k) in
    or_step (a * 2 ^ suc k) b
    ∙ rw (half, even, or-shifted k a (b / 2) below) (omega (arith, double))
