-- ===== src/Crc/Linear.antt =====
-- The register of `crc16_calc` is linear over `^`, in the register and the data together.
use native.Mathlib.Nat.{zero-add, suc-add, div-one}
use misc_verilog_cores.Base.{
  ℕ, zero, suc, ◌+◌, ◌*◌, ◌/◌, ◌%◌, ◌^◌, ◌≡◌, ◌<◌, refl, sym, ap, ◌∙◌, bit_xor, arith,
}
use misc_verilog_cores.Base.Bits.{
  zero-xor, xor_comm, xor_assoc, xor-half, xor-parity, xor-lt, and-mask, mod_pow_suc, shift_suc,
}
use misc_verilog_cores.Crc.{crc16_round, crc16_rounds, crc16_polyn_reflected}

-- The bit that decides whether a round adds the polynomial.
abbrev pub selector : ℕ → ℕ → ℕ
selector crc val = (val % 2 + crc % 2) % 2

-- A round without its cast, on a 16-bit register.
pub crc16_round_lem :
    (crc val : ℕ)
    → crc < 65536
    → crc16_round crc val ≡ bit_xor (crc / 2) (selector crc val * crc16_polyn_reflected)
unfolding crc16_round
crc16_round_lem crc val h =
    rw (and-mask 1 (bit_xor val crc), xor-parity val crc)
      (omega (
        arith,
        xor-lt 16 (crc / 2) (selector crc val * crc16_polyn_reflected) (omega arith) (omega arith),
      ))

pub crc16_round-lt : (crc val : ℕ) → crc16_round crc val < 65536
unfolding crc16_round
crc16_round-lt crc val = omega arith

pub crc16_rounds-lt : (j crc val : ℕ) → crc < 65536 → crc16_rounds j crc val < 65536
unfolding crc16_rounds
crc16_rounds-lt zero crc val h = h
crc16_rounds-lt (suc j) crc val h =
    crc16_rounds-lt j (crc16_round crc val) (val / 2) (crc16_round-lt crc val)

-- Regrouping four terms.
xor_swap : (a b c d : ℕ) → bit_xor (bit_xor a b) (bit_xor c d) ≡ bit_xor (bit_xor a c) (bit_xor b d)
xor_swap a b c d =
    xor_assoc a b (bit_xor c d)
    ∙ ap (bit_xor a)
        (sym (xor_assoc b c d) ∙ ap (λ (t : ℕ). bit_xor t d) (xor_comm b c) ∙ xor_assoc c b d)
    ∙ sym (xor_assoc a c (bit_xor b d))

-- The polynomial, added or not, under the sum of two selectors.
poly_sum :
    (s t : ℕ)
    → s < 2
    → t < 2
    → (s + t) % 2 * crc16_polyn_reflected
      ≡ bit_xor (s * crc16_polyn_reflected) (t * crc16_polyn_reflected)
poly_sum zero zero h k = refl
poly_sum zero (suc zero) h k = refl
poly_sum (suc zero) zero h k = refl
poly_sum (suc zero) (suc zero) h k = refl
poly_sum (suc (suc s)) t h k = absurd (omega arith)
poly_sum s (suc (suc t)) h k = absurd (omega arith)

crc16_round-xor :
    (c d v w : ℕ)
    → c < 65536
    → d < 65536
    → crc16_round (bit_xor c d) (bit_xor v w) ≡ bit_xor (crc16_round c v) (crc16_round d w)
crc16_round-xor c d v w hc hd =
    rw
      (
        crc16_round_lem (bit_xor c d) (bit_xor v w) (xor-lt 16 c d hc hd),
        crc16_round_lem c v hc,
        crc16_round_lem d w hd,
        xor-half c d,
        xor_swap (c / 2) (selector c v * crc16_polyn_reflected) (d / 2)
            (selector d w * crc16_polyn_reflected),
        ← poly_sum (selector c v) (selector d w) (omega arith) (omega arith),
      )
      (ap (λ (t : ℕ). bit_xor (bit_xor (c / 2) (d / 2)) (t * crc16_polyn_reflected))
        (omega (arith, xor-parity c d, xor-parity v w)))

-- Linearity of any number of rounds.
pub crc16_rounds-xor :
    (j c d v w : ℕ)
    → c < 65536
    → d < 65536
    → crc16_rounds j (bit_xor c d) (bit_xor v w) ≡ bit_xor (crc16_rounds j c v) (crc16_rounds j d w)
unfolding crc16_rounds
crc16_rounds-xor zero c d v w hc hd = refl
crc16_rounds-xor (suc j) c d v w hc hd =
    rw (crc16_round-xor c d v w hc hd, xor-half v w)
      (crc16_rounds-xor j (crc16_round c v) (crc16_round d w) (v / 2) (w / 2) (crc16_round-lt c v)
        (crc16_round-lt d w))

-- Data that equals the register is only shifted out.
pub crc16_rounds-same : (j x : ℕ) → x < 65536 → crc16_rounds j x x ≡ x / 2 ^ j
unfolding crc16_rounds
crc16_rounds-same zero x h = omega arith
crc16_rounds-same (suc j) x h =
    let once : crc16_round x x ≡ x / 2 =
      crc16_round_lem x x h
      ∙ (let e : selector x x ≡ 0 = omega arith in rw e (xor_comm (x / 2) 0 ∙ zero-xor (x / 2))) in
    rw (once, shift_suc j x) (crc16_rounds-same j (x / 2) (omega arith))

-- `j` rounds read the `j` low bits of the data.
pub crc16_rounds-mod :
    (j c v w : ℕ) → c < 65536 → v % 2 ^ j ≡ w % 2 ^ j → crc16_rounds j c v ≡ crc16_rounds j c w
unfolding crc16_rounds
crc16_rounds-mod zero c v w h e = refl
crc16_rounds-mod (suc j) c v w h e =
    let dv : v % 2 ^ suc j ≡ v / 2 % 2 ^ j * 2 + v % 2 = mod_pow_suc j v in
    let dw : w % 2 ^ suc j ≡ w / 2 % 2 ^ j * 2 + w % 2 = mod_pow_suc j w in
    let low : v % 2 ≡ w % 2 = omega arith in
    let first : crc16_round c v ≡ crc16_round c w =
      rw (crc16_round_lem c v h, crc16_round_lem c w h, low) refl in
    rw first
      (crc16_rounds-mod j (crc16_round c w) (v / 2) (w / 2) (crc16_round-lt c w) (omega arith))

-- Rounds in two runs.
pub crc16_rounds-add :
    (i j c v : ℕ) → crc16_rounds (i + j) c v ≡ crc16_rounds j (crc16_rounds i c v) (v / 2 ^ i)
unfolding crc16_rounds
crc16_rounds-add zero j c v = rw (zero-add j, div-one v) refl
crc16_rounds-add (suc i) j c v =
    rw (suc-add i j, shift_suc i v) (crc16_rounds-add i j (crc16_round c v) (v / 2))
