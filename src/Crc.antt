-- ===== src/Crc.antt =====
-- vpi/usb/usbcrc.c. A `uint8_t*` with its length is the list of the bytes.
pub mod Token
pub mod Linear
pub mod Packet
pub mod Detect
use misc_verilog_cores.Base.{
  ℕ, zero, suc, ◌+◌, ◌*◌, ◌/◌, ◌%◌, bit_and, bit_or, bit_xor, u8, u16, shl, shr, complement, Bool,
  ◌==◌, List, [], ◌∷◌,
}

abbrev crc5_start : ℕ
crc5_start = 0x1F

abbrev crc5_polyn : ℕ
crc5_polyn = 0x05

abbrev crc5_start_reflected : ℕ
crc5_start_reflected = 0xF800

abbrev crc5_polyn_reflected : ℕ
crc5_polyn_reflected = 0x14

abbrev crc16_start_reflected : ℕ
crc16_start_reflected = 0xFFFF

abbrev pub crc16_polyn_reflected : ℕ
crc16_polyn_reflected = 0xA001

abbrev pub crc16_resid_reflected : ℕ
crc16_resid_reflected = 0xB001

-- One round of the loop in `crc5_calc`.
crc5_round : ℕ → ℕ
crc5_round crc =
    u16 (bit_xor (shr crc 1) (bit_and (bit_xor crc (shl crc 11)) 0x0800 * crc5_polyn_reflected))

unfoldable pub crc5_rounds : ℕ → ℕ → ℕ
unfolding crc5_round
crc5_rounds zero crc = crc
crc5_rounds (suc j) crc = crc5_rounds j (crc5_round crc)

unfoldable pub crc5_calc : ℕ → ℕ
crc5_calc dat =
    let crc = crc5_rounds 11 (u16 (bit_or crc5_start_reflected (bit_and dat 0x07FF))) in
    u16 (bit_or (bit_and dat 0x07FF) (bit_and (complement crc) 0xF800))

-- The loop of `crc5_check`, on its two variables.
unfoldable pub crc5_check_rounds : ℕ → ℕ → ℕ → ℕ
crc5_check_rounds zero crc dat = crc
crc5_check_rounds (suc j) crc dat =
    crc5_check_rounds j
      (u8 (bit_xor (shl crc 1) (bit_and (bit_xor dat (shr crc 4)) 0x01 * crc5_polyn))) (shr dat 1)

unfoldable pub crc5_check : ℕ → Bool
crc5_check dat = bit_and (crc5_check_rounds 16 crc5_start dat) 0x1F == 0x0C

-- One round of the inner loop of `crc16_calc`; the byte shifts beside the register.
unfoldable pub crc16_round : ℕ → ℕ → ℕ
crc16_round crc val =
    u16 (bit_xor (shr crc 1) (bit_and (bit_xor val crc) 0x01 * crc16_polyn_reflected))

unfoldable pub crc16_rounds : ℕ → ℕ → ℕ → ℕ
crc16_rounds zero crc val = crc
crc16_rounds (suc j) crc val = crc16_rounds j (crc16_round crc val) (shr val 1)

-- The outer loop, from any register.
unfoldable pub crc16_bytes : ℕ → List ℕ → ℕ
crc16_bytes crc [] = crc
crc16_bytes crc (val ∷ rest) = crc16_bytes (crc16_rounds 8 crc val) rest

unfoldable pub crc16_calc : List ℕ → ℕ
crc16_calc bytes = u16 (complement (crc16_bytes crc16_start_reflected bytes))

unfoldable pub crc16_check : List ℕ → Bool
crc16_check bytes = u16 (complement (crc16_calc bytes)) == crc16_resid_reflected
