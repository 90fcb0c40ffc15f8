-- ===== src/Crc/Token.antt =====
-- The CRC5 of a token (`crc5_calc`, `crc5_check`), by evaluation over the 11-bit payloads.
use native.Mathlib.Nat.{mod-mod}
use misc_verilog_cores.Base.{
  ℕ, ◌%◌, ◌^◌, ◌≡◌, ◌<◌, refl, bit_xor, Bool, true, false, not, ◌==◌, ◌&&◌, arith, all_below,
  all_below-apply,
}
use misc_verilog_cores.Base.Bits.{and-mask}
use misc_verilog_cores.Crc.{crc5_rounds, crc5_check_rounds, crc5_calc, crc5_check}

abbrev accepted : ℕ → Bool
accepted x = crc5_check (crc5_calc x) && (crc5_calc x % 2048 == x)

abbrev flip_refused : ℕ → ℕ → Bool
flip_refused x k = not (crc5_check (bit_xor (crc5_calc x) (2 ^ k)))

token_table : all_below 2048 accepted ≡ true
unfolding all_below crc5_calc crc5_rounds crc5_check crc5_check_rounds
token_table = refl

flip_table : all_below 2048 (λ x. all_below 16 (flip_refused x)) ≡ true
unfolding all_below crc5_calc crc5_rounds crc5_check crc5_check_rounds
flip_table = refl

crc5_calc-mod : (dat : ℕ) → crc5_calc dat ≡ crc5_calc (dat % 2048)
unfolding crc5_calc
crc5_calc-mod dat = rw (and-mask 11 dat, and-mask 11 (dat % 2048), mod-mod dat 2048)

-- For every value the low 11 bits of `crc5_calc` are those of its argument, and `crc5_check`
-- accepts the result.
pub crc5_check-crc5_calc :
    (dat : ℕ) → (crc5_calc dat % 2048 ≡ dat % 2048) × (crc5_check (crc5_calc dat) ≡ true)
crc5_check-crc5_calc dat =
    rw (crc5_calc-mod dat)
      (ground (arith, all_below-apply 2048 accepted (dat % 2048) (omega arith) token_table))

-- Flipping any one of the 16 bits of a protected token makes `crc5_check` refuse it.
pub crc5_check_flip : (dat k : ℕ) → k < 16 → crc5_check (bit_xor (crc5_calc dat) (2 ^ k)) ≡ false
crc5_check_flip dat k h =
    let row = all_below-apply 2048 _ (dat % 2048) (omega arith) flip_table in
    rw (crc5_calc-mod dat) (ground (arith, all_below-apply 16 (flip_refused (dat % 2048)) k h row))

pub crc5_calc-lt : (dat : ℕ) → crc5_calc dat < 65536
unfolding crc5_calc
crc5_calc-lt dat = omega arith
