-- ===== src/Tests/Crc.antt =====
-- Tests of the CRCs.
use misc_verilog_cores.Base.{ℕ, ◌≡◌, refl, true, false, List, [], ◌∷◌, ◌++◌, arith}
use misc_verilog_cores.Crc.{crc16_calc, crc16_check, crc16_bytes, crc16_rounds, crc16_round}
use misc_verilog_cores.Crc.Packet.{crc16_check-trailer, trailer}
use misc_verilog_cores.Crc.Detect.{crc16_check_byte}

abbrev two_bytes : List ℕ
two_bytes = 0x12 ∷ 0x34 ∷ []

trailer_of_two : trailer two_bytes ≡ 0xF3 ∷ 0x38 ∷ []
unfolding crc16_calc crc16_bytes crc16_rounds crc16_round
trailer_of_two = refl

crc16_check-trailer_example :
    (crc16_check (two_bytes ++ trailer two_bytes) ≡ true)
    × (crc16_calc (two_bytes ++ trailer two_bytes) ≡ 0x4FFE)
crc16_check-trailer_example = crc16_check-trailer two_bytes

packet_accepted : crc16_check ([] ++ 0x12 ∷ 0x34 ∷ 0xF3 ∷ 0x38 ∷ []) ≡ true
unfolding crc16_check crc16_calc crc16_bytes crc16_rounds crc16_round
packet_accepted = refl

crc16_check_byte_example : crc16_check ([] ++ 0x13 ∷ 0x34 ∷ 0xF3 ∷ 0x38 ∷ []) ≡ false
crc16_check_byte_example =
    crc16_check_byte [] (0x34 ∷ 0xF3 ∷ 0x38 ∷ []) 0x12 0x13 (omega arith) (omega arith)
      (λ p. omega arith) packet_accepted
