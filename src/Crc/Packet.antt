-- ===== src/Crc/Packet.antt =====
-- The CRC16 of packets: what `crc16_check` accepts, and what it detects.
use misc_verilog_cores.Base.{
  ℕ, ◌/◌, ◌%◌, ◌^◌, ◌≡◌, ◌<◌, refl, sym, ap, ◌∙◌, bit_xor, u16, complement, shr, List, [], ◌∷◌,
  ◌++◌, true, arith,
}
use misc_verilog_cores.Base.Bits.{zero-xor, xor_comm, xor-mod}
use misc_verilog_cores.Crc.{crc16_round, crc16_rounds, crc16_bytes, crc16_calc, crc16_check}
use misc_verilog_cores.Crc.Linear.{
  crc16_rounds-lt, crc16_rounds-xor, crc16_rounds-same, crc16_rounds-mod, crc16_rounds-add,
}

pub crc16_bytes-append :
    (crc : ℕ) (xs ys : List ℕ) → crc16_bytes crc (xs ++ ys) ≡ crc16_bytes (crc16_bytes crc xs) ys
unfolding crc16_bytes
crc16_bytes-append crc [] ys = refl
crc16_bytes-append crc (x ∷ xs) ys = crc16_bytes-append (crc16_rounds 8 crc x) xs ys

pub crc16_bytes-lt : (crc : ℕ) (xs : List ℕ) → crc < 65536 → crc16_bytes crc xs < 65536
unfolding crc16_bytes
crc16_bytes-lt crc [] h = h
crc16_bytes-lt crc (x ∷ xs) h = crc16_bytes-lt (crc16_rounds 8 crc x) xs (crc16_rounds-lt 8 crc x h)

-- The complement of a register, in 16 bits.
pub complement16 : (r : ℕ) → r < 65536 → u16 (complement r) ≡ bit_xor 0xFFFF r
complement16 r h =
    xor-mod 16 r 0xffff_ffff ∙ (let e : r % 2 ^ 16 ≡ r = omega arith in rw e (xor_comm r 0xFFFF))

-- The two bytes that the senders put behind the data, the low one first.
abbrev pub trailer : List ℕ → List ℕ
trailer bytes = crc16_calc bytes % 256 ∷ shr (crc16_calc bytes) 8 ∷ []

-- Sixteen rounds over the complement of the register leave the residue.
residue : (r : ℕ) → r < 65536 → crc16_rounds 16 r (bit_xor 0xFFFF r) ≡ 0xB001
residue r h =
    let split : crc16_rounds 16 (bit_xor 0 r) (bit_xor 0xFFFF r)
        ≡ bit_xor (crc16_rounds 16 0 0xFFFF) (crc16_rounds 16 r r) =
      crc16_rounds-xor 16 0 r 0xFFFF r (omega arith) h in
    let gone : r / 2 ^ 16 ≡ 0 = omega arith in
    let start : crc16_rounds 16 0 0xFFFF ≡ 0xB001 = unfold crc16_rounds crc16_round in refl in
    ap (λ (t : ℕ). crc16_rounds 16 t (bit_xor 0xFFFF r)) (sym (zero-xor r))
    ∙ split
    ∙ rw (crc16_rounds-same 16 r h, gone, start) refl

trailer_residue :
    (r w : ℕ) → r < 65536 → w ≡ bit_xor 0xFFFF r → crc16_bytes r (w % 256 ∷ shr w 8 ∷ []) ≡ 0xB001
unfolding crc16_bytes
trailer_residue r w h e =
    rw (crc16_rounds-mod 8 r (w % 256) w h (omega arith))
      (sym (crc16_rounds-add 8 8 r w) ∙ rw e (residue r h))

pub register_after_trailer : (bytes : List ℕ) → crc16_bytes 0xFFFF (bytes ++ trailer bytes) ≡ 0xB001
unfolding crc16_calc
register_after_trailer bytes =
    let r = crc16_bytes 0xFFFF bytes in
    let h : r < 65536 = crc16_bytes-lt 0xFFFF bytes (omega arith) in
    crc16_bytes-append 0xFFFF bytes (trailer bytes)
    ∙ trailer_residue r (crc16_calc bytes) h (complement16 r h)

-- Data of any length with the two bytes of its CRC16 behind it is accepted by `crc16_check`, and
-- `crc16_calc` of the whole is 0x4FFE, the code for which `check_rx_crc16` looks.
pub crc16_check-trailer :
    (bytes : List ℕ)
    → (crc16_check (bytes ++ trailer bytes) ≡ true) × (crc16_calc (bytes ++ trailer bytes) ≡ 0x4FFE)
unfolding crc16_check
crc16_check-trailer bytes =
    let e : crc16_calc (bytes ++ trailer bytes) ≡ 0x4FFE =
      unfold crc16_calc in ap (λ (t : ℕ). u16 (complement t)) (register_after_trailer bytes) in
    (rw e refl, e)
