-- ===== src/Ulpi/Laws.antt =====
-- Laws of the helpers of vpi/usb/ulpi.c and vpi/usb/ulpi.h.
use misc_verilog_cores.Base.{
  ℕ, ◌+◌, ◌*◌, ◌/◌, ◌%◌, ◌<◌, ◌≡◌, ◌≢◌, refl, sym, ap₂, ◌∙◌, bit_and, bit_or, Bool, true, ◌==◌,
  if◌then◌else◌, some, ok, all_below, all_below-apply, length, get_or, set, get_or-set_self,
  get_or-set_ne, arith,
}
use misc_verilog_cores.Base.Bits.{and-mask}
use misc_verilog_cores.Crc.{crc5_check, crc5_calc}
use misc_verilog_cores.Crc.Token.{crc5_check-crc5_calc, crc5_calc-lt}
use misc_verilog_cores.Ulpi.{
  Bus, byte, XferType, setup, up_ack, type_number, base_pid, Transfer, transfer_type_to_pid,
  transfer_tok, transfer_ack, check_pid, check_seq, usbpid_data0, usbpid_data1,
}

-- The address below the endpoint.
abbrev joined : ℕ → ℕ → Bool
joined a e = bit_or a (e * 128) == a + e * 128

join_table : all_below 128 (λ a. all_below 16 (joined a)) ≡ true
unfolding all_below
join_table = refl

join : (a e : ℕ) → a < 128 → e < 16 → bit_or a (e * 128) ≡ a + e * 128
join a e ha he =
    let row = all_below-apply 128 _ a ha join_table in
    ground (arith, all_below-apply 16 (joined a) e he row)

-- The two bytes of a token, and what they carry.
tok_parts :
    (c a e : ℕ)
    → c < 65536
    → a < 128
    → e < 16
    → c % 2048 ≡ (a + e * 128) % 2048
    → (c % 256 + 256 * (c / 256) ≡ c) × (c % 128 ≡ a) × (c / 128 % 16 ≡ e)
tok_parts c a e h ha he p = omega arith

-- `transfer_tok` makes the two bytes of a token: together they pass `crc5_check`, and they carry the
-- low 7 bits of the address and above them the low 4 bits of the endpoint.
pub transfer_tok_lem :
    (xfer : Transfer)
    → let y = transfer_tok xfer in
      let tok = y.tok1 + 256 * y.tok2 in
      (y.tok1 < 256)
      × (y.tok2 < 256)
      × (tok % 128 ≡ xfer.address % 128)
      × (tok / 128 % 16 ≡ xfer.endpoint % 16)
      × (crc5_check tok ≡ true)
unfolding transfer_tok
transfer_tok_lem xfer =
    let a = xfer.address % 128 in
    let e = xfer.endpoint % 16 in
    let arg = a + e * 128 in
    let c = crc5_calc arg in
    let given : bit_or (bit_and xfer.address 0x7F) (bit_and xfer.endpoint 0x0F * 128) ≡ arg =
      ap₂ (λ (x y : ℕ). bit_or x (y * 128)) (and-mask 7 xfer.address) (and-mask 4 xfer.endpoint)
      ∙ join a e (omega arith) (omega arith) in
    let parts =
      tok_parts c a e (crc5_calc-lt arg) (omega arith) (omega arith) (crc5_check-crc5_calc arg).0 in
    rw (given, and-mask 8 c)
      (
        omega arith,
        omega (arith, crc5_calc-lt arg),
        rw parts.0 parts.1,
        rw parts.0 parts.2,
        rw parts.0 (crc5_check-crc5_calc arg).1,
      )

-- The PID that the host sends for a transfer type passes `check_pid`, and its low half is the PID.
check_pid-transfer_type_to_pid :
    (t : XferType) (pid : ℕ) (bus : Bus)
    → base_pid t ≡ some pid
    → type_number t < type_number up_ack
    → bus.dat ≡ byte (transfer_type_to_pid t) 0x00
    → (check_pid bus ≡ true) × (transfer_type_to_pid t % 16 ≡ pid)
unfolding check_pid transfer_type_to_pid
check_pid-transfer_type_to_pid setup pid bus p down d = ground arith
check_pid-transfer_type_to_pid _ pid bus p down d = ground arith

-- Acknowledging a packet toggles the parity of its endpoint: where DATA0 was expected DATA1 is, and
-- the other way round. The parity of every other endpoint stays.
pub transfer_ack_parity :
    (xfer : Transfer)
    → xfer.endpoint < 16
    → length xfer.ep_seq ≡ 16
    → (y : Transfer) × (transfer_ack xfer ≡ ok y)
      × (check_seq xfer usbpid_data0 ≡ true → check_seq y usbpid_data1 ≡ true)
      × (check_seq xfer usbpid_data1 ≡ true → check_seq y usbpid_data0 ≡ true)
      × ((e : ℕ) → e ≢ xfer.endpoint → get_or y.ep_seq e 0 ≡ get_or xfer.ep_seq e 0)
unfolding transfer_ack check_seq
transfer_ack_parity xfer h n =
    let v : ℕ = if get_or xfer.ep_seq xfer.endpoint 0 == 0 then 1 else 0 in
    let same : bit_and xfer.endpoint 0x0f ≡ xfer.endpoint =
      omega (arith, and-mask 4 xfer.endpoint) in
    let new = get_or-set_self xfer.ep_seq xfer.endpoint v 0 (omega arith) in
    (
      record xfer { ep_seq = set xfer.ep_seq xfer.endpoint v },
      ground arith,
      λ p. rw (same, new) (ground (arith, same)),
      λ p. rw (same, new) (ground (arith, same)),
      λ e ne. get_or-set_ne xfer.ep_seq xfer.endpoint e v 0 (λ q. ne (sym q)),
    )
