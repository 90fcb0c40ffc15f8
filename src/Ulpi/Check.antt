-- ===== src/Ulpi/Check.antt =====
-- `check_rx_crc16` of vpi/usb/ulpi.c against the bytes that were received.
use native.Mathlib.Nat.{add-zero}
use misc_verilog_cores.Base.{
  ℕ, ◌+◌, ◌%◌, ◌≤◌, ◌<◌, ◌≡◌, ◌≢◌, sym, ap, ◌∙◌, bit_and, shr, true, false, ◌&&◌, ◌==◌, ok, List,
  ◌∷◌, ◌++◌, length, get_or, take, take-take, take-append, get_or-take, get_or-append, arith,
}
use misc_verilog_cores.Base.Bits.{and-mask}
use misc_verilog_cores.Crc.{crc16_calc}
use misc_verilog_cores.Crc.Packet.{trailer, crc16_check-trailer}
use misc_verilog_cores.Crc.Detect.{crc16_calc-lt, crc16_calc-data}
use misc_verilog_cores.Ulpi.{Transfer}
use misc_verilog_cores.Ulpi.Step.Eop.{check_rx_trailer}

-- The transfer with the CRC of the data in `crc1` and `crc2`.
abbrev pub with_crc : ℕ → Transfer → Transfer
with_crc crc xfer = record xfer { crc1 = bit_and crc 0xFF; crc2 = bit_and (shr crc 8) 0xFF }

-- Within the buffer the check compares both bytes and the code of the whole.
check_value :
    (len : ℕ) (xfer : Transfer)
    → len + 2 ≡ xfer.rx_ptr
    → xfer.rx_ptr ≤ length xfer.rx
    → let crc = crc16_calc (take len xfer.rx) in
      check_rx_trailer len xfer
      ≡ ok (
        bit_and crc 0xFF == get_or xfer.rx len 0
            && (bit_and (shr crc 8) 0xFF == get_or xfer.rx (len + 1) 0
                && crc16_calc (take xfer.rx_ptr xfer.rx) == 0x4FFE),
        with_crc crc xfer,
      )
unfolding check_rx_trailer
check_value len xfer e fits = ground arith

module _ (xfer : Transfer) (fits : xfer.rx_ptr ≤ length xfer.rx) where
  pub check_good :
      (d : List ℕ)
      → length d + 2 ≡ xfer.rx_ptr
      → take xfer.rx_ptr xfer.rx ≡ d ++ trailer d
      → check_rx_trailer (length d) xfer ≡ ok (true, with_crc (crc16_calc d) xfer)
  check_good d e w =
      let front : take (length d) xfer.rx ≡ d =
        sym (take-take (length d) xfer.rx_ptr xfer.rx (omega arith))
        ∙ ap (take (length d)) w
        ∙ take-append d (trailer d) in
      let first : get_or xfer.rx (length d) 0 ≡ crc16_calc d % 256 =
        sym (get_or-take xfer.rx_ptr (length d) xfer.rx 0 (omega arith))
        ∙ ap (λ (l : List ℕ). get_or l (length d) 0) w
        ∙ ap (λ (k : ℕ). get_or (d ++ trailer d) k 0) (sym (add-zero (length d)))
        ∙ get_or-append d (trailer d) 0 0 in
      let second : get_or xfer.rx (length d + 1) 0 ≡ shr (crc16_calc d) 8 =
        sym (get_or-take xfer.rx_ptr (length d + 1) xfer.rx 0 (omega arith))
        ∙ ap (λ (l : List ℕ). get_or l (length d + 1) 0) w
        ∙ get_or-append d (trailer d) 1 0 in
      check_value (length d) xfer e fits
      ∙ rw (front, first, second, w, (crc16_check-trailer d).1)
          (ground
            (arith, and-mask 8 (crc16_calc d), and-mask 8 (shr (crc16_calc d) 8), crc16_calc-lt d))

  -- Data that agrees with a protected packet up to one byte is refused.
  pub check_bad :
      (len : ℕ) (d pre post : List ℕ) (x y : ℕ)
      → len + 2 ≡ xfer.rx_ptr
      → pre ++ x ∷ post ≡ d ++ trailer d
      → take xfer.rx_ptr xfer.rx ≡ pre ++ y ∷ post
      → x < 256
      → y < 256
      → x ≢ y
      → check_rx_trailer len xfer ≡ ok (false, with_crc (crc16_calc (take len xfer.rx)) xfer)
  check_bad len d pre post x y e sent w hx hy ne =
      let code : crc16_calc (pre ++ x ∷ post) ≡ 0x4FFE =
        ap crc16_calc sent ∙ (crc16_check-trailer d).1 in
      check_value len xfer e fits
      ∙ rw w (ground (arith, code, crc16_calc-data pre post x y hx hy, ne))
