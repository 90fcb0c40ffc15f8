-- ===== src/Crc/Detect.antt =====
-- What the CRC16 detects: two registers, or two bytes, that differ never meet again.
use native.Mathlib.Decide.{ℕ_discrete}
use misc_verilog_cores.Base.{
  ℕ, ◌/◌, ◌%◌, ◌≡◌, ◌≢◌, ◌<◌, ◌≤◌, refl, sym, ap, ap₂, ◌∙◌, bit_xor, u16, complement, List, [], ◌∷◌,
  ◌++◌, Bool, true, false, leb, ◌||◌, ◌==◌, all_below, all_below-apply, arith,
}
use misc_verilog_cores.Base.Bits.{zero-xor, xor_comm, xor_assoc, xor_self, xor-lt}
use misc_verilog_cores.Crc.{crc16_round, crc16_rounds, crc16_bytes, crc16_calc, crc16_check}
use misc_verilog_cores.Crc.Linear.{
  crc16_rounds-lt, crc16_rounds-xor, crc16_rounds-same, crc16_rounds-mod,
}
use misc_verilog_cores.Crc.Packet.{crc16_bytes-append, crc16_bytes-lt, complement16}

xor_cancel : (a b : ℕ) → bit_xor a b ≡ 0 → a ≡ b
xor_cancel a b e =
    sym (zero-xor a ∙ refl)
    ∙ xor_comm 0 a
    ∙ ap (bit_xor a) (sym (xor_self b))
    ∙ sym (xor_assoc a b b)
    ∙ ap (λ (t : ℕ). bit_xor t b) e
    ∙ zero-xor b

-- Eight rounds from the empty register: only the byte 0 leaves the high half empty.
abbrev spreads : ℕ → Bool
spreads u = u == 0 || leb 256 (crc16_rounds 8 0 u)

spread_table : all_below 256 spreads ≡ true
unfolding all_below crc16_rounds crc16_round
spread_table = refl

spread : (u : ℕ) → u % 256 ≢ 0 → 256 ≤ crc16_rounds 8 0 u
spread u h =
    rw (crc16_rounds-mod 8 0 u (u % 256) (omega arith) (omega arith))
      (ground (arith, all_below-apply 256 spreads (u % 256) (omega arith) spread_table))

-- Eight rounds without data send only the empty register to 0.
rounds_zero : (e : ℕ) → e < 65536 → crc16_rounds 8 e 0 ≡ 0 → e ≡ 0
rounds_zero e h z =
    let parts : bit_xor (crc16_rounds 8 0 e) (e / 256) ≡ 0 =
      ap (bit_xor (crc16_rounds 8 0 e)) (sym (crc16_rounds-same 8 e h))
      ∙ sym (crc16_rounds-xor 8 0 e e e (omega arith) h)
      ∙ ap₂ (crc16_rounds 8) (zero-xor e) (xor_self e)
      ∙ z in
    let met : crc16_rounds 8 0 e ≡ e / 256 = xor_cancel (crc16_rounds 8 0 e) (e / 256) parts in
    elim (ℕ_discrete (e % 256) 0) [
      | yes low ↦
          let none_left : crc16_rounds 8 0 e ≡ 0 =
            crc16_rounds-mod 8 0 e 0 (omega arith) low
            ∙ (unfold crc16_rounds crc16_round in refl) in
          omega arith
      | no high ↦ absurd (omega (arith, spread e high))
    ]

crc16_rounds-register :
    (c d v : ℕ) → c < 65536 → d < 65536 → crc16_rounds 8 c v ≡ crc16_rounds 8 d v → c ≡ d
crc16_rounds-register c d v hc hd e = xor_cancel c d (
    rounds_zero (bit_xor c d) (xor-lt 16 c d hc hd) (
      ap (crc16_rounds 8 (bit_xor c d)) (sym (xor_self v))
      ∙ crc16_rounds-xor 8 c d v v hc hd
      ∙ ap (λ (t : ℕ). bit_xor t (crc16_rounds 8 d v)) e
      ∙ xor_self (crc16_rounds 8 d v)))

crc16_rounds-data :
    (c v w : ℕ) → c < 65536 → v < 256 → w < 256 → crc16_rounds 8 c v ≡ crc16_rounds 8 c w → v ≡ w
crc16_rounds-data c v w hc hv hw e =
    let z : crc16_rounds 8 0 (bit_xor v w) ≡ 0 =
      ap (λ (t : ℕ). crc16_rounds 8 t (bit_xor v w)) (sym (xor_self c))
      ∙ crc16_rounds-xor 8 c c v w hc hc
      ∙ ap (λ (t : ℕ). bit_xor t (crc16_rounds 8 c w)) e
      ∙ xor_self (crc16_rounds 8 c w) in
    elim (ℕ_discrete (bit_xor v w % 256) 0) [
      | yes low ↦ xor_cancel v w (omega (arith, xor-lt 8 v w hv hw))
      | no high ↦ absurd (omega (arith, spread (bit_xor v w) high))
    ]

-- Registers that differ stay different over any data.
crc16_bytes-register :
    (c d : ℕ) (xs : List ℕ) → c < 65536 → d < 65536 → crc16_bytes c xs ≡ crc16_bytes d xs → c ≡ d
unfolding crc16_bytes
crc16_bytes-register c d [] hc hd e = e
crc16_bytes-register c d (x ∷ xs) hc hd e = crc16_rounds-register c d x hc hd (
    crc16_bytes-register (crc16_rounds 8 c x) (crc16_rounds 8 d x) xs (crc16_rounds-lt 8 c x hc)
      (crc16_rounds-lt 8 d x hd) e)

crc16_bytes-data :
    (c : ℕ) (x y : ℕ) (post : List ℕ)
    → c < 65536
    → x < 256
    → y < 256
    → crc16_bytes c (x ∷ post) ≡ crc16_bytes c (y ∷ post)
    → x ≡ y
unfolding crc16_bytes
crc16_bytes-data c x y post hc hx hy e = crc16_rounds-data c x y hc hx hy (
    crc16_bytes-register (crc16_rounds 8 c x) (crc16_rounds 8 c y) post (crc16_rounds-lt 8 c x hc)
      (crc16_rounds-lt 8 c y hc) e)

complement16-injective :
    (r s : ℕ) → r < 65536 → s < 65536 → u16 (complement r) ≡ u16 (complement s) → r ≡ s
complement16-injective r s hr hs e =
    sym (back r) ∙ ap (bit_xor 0xFFFF) (sym (complement16 r hr) ∙ e ∙ complement16 s hs) ∙ back s
  where
    back : (t : ℕ) → bit_xor 0xFFFF (bit_xor 0xFFFF t) ≡ t
    back t = sym (xor_assoc 0xFFFF 0xFFFF t) ∙ zero-xor t

pub crc16_calc-lt : (xs : List ℕ) → crc16_calc xs < 65536
unfolding crc16_calc
crc16_calc-lt xs = omega arith

pub crc16_calc-data :
    (pre post : List ℕ) (x y : ℕ)
    → x < 256
    → y < 256
    → crc16_calc (pre ++ x ∷ post) ≡ crc16_calc (pre ++ y ∷ post)
    → x ≡ y
unfolding crc16_calc
crc16_calc-data pre post x y hx hy e =
    let start : crc16_bytes 0xFFFF pre < 65536 = crc16_bytes-lt 0xFFFF pre (omega arith) in
    let whole = λ (zs : List ℕ). crc16_bytes-lt 0xFFFF zs (omega arith) in
    crc16_bytes-data (crc16_bytes 0xFFFF pre) x y post start hx hy (
      sym (crc16_bytes-append 0xFFFF pre (x ∷ post))
      ∙ complement16-injective (crc16_bytes 0xFFFF (pre ++ x ∷ post))
          (crc16_bytes 0xFFFF (pre ++ y ∷ post)) (whole (pre ++ x ∷ post)) (whole (pre ++ y ∷ post))
          e
      ∙ crc16_bytes-append 0xFFFF pre (y ∷ post))

-- Whatever packet `crc16_check` accepts, it refuses every packet that differs from it in one byte,
-- at any place and by any change of that byte.
pub crc16_check_byte :
    (pre post : List ℕ) (x y : ℕ)
    → x < 256
    → y < 256
    → x ≢ y
    → crc16_check (pre ++ x ∷ post) ≡ true
    → crc16_check (pre ++ y ∷ post) ≡ false
unfolding crc16_check
crc16_check_byte pre post x y hx hy ne h =
    let c = crc16_calc (pre ++ x ∷ post) in
    let d = crc16_calc (pre ++ y ∷ post) in
    ground (
      arith,
      crc16_calc-data pre post x y hx hy,
      complement16-injective c d (crc16_calc-lt (pre ++ x ∷ post))
          (crc16_calc-lt (pre ++ y ∷ post)),
      ne,
    )
