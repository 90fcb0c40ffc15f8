-- ===== src/Cases/Corrupt.antt =====
-- What `adjust_seq`, `adjust_crc` and `adjust_ept` of vpi/tc_parity.c do to a transfer.
use misc_verilog_cores.Base.{
  ℕ, zero, suc, ◌+◌, ◌*◌, ◌%◌, ◌/◌, ◌^◌, ◌≤◌, ◌<◌, ◌≡◌, refl, ap, ◌∙◌, bit_and, bit_or, bit_xor,
  shl, shr, true, false, ◌==◌, List, [], ◌∷◌, ◌++◌, length, take, get_or, set, length-set,
  get_or-set_self, if◌then◌else◌, ok, ◌>>=◌, arith, Bool-cases, inl, inr,
}
use misc_verilog_cores.Base.Bits.{
  and-mask, xor_assoc, xor_self, xor_comm, zero-xor, xor-lt, xor-mod, xor-shift, xor-parity,
}
use misc_verilog_cores.Crc.{crc5_calc, crc5_check, crc16_check}
use misc_verilog_cores.Crc.Token.{crc5_check_flip, crc5_calc-lt}
use misc_verilog_cores.Crc.Detect.{crc16_check_byte}
use misc_verilog_cores.Ulpi.{Transfer, transfer_ack, transfer_tok}
use misc_verilog_cores.Host.{Host}
use misc_verilog_cores.Cases.{Calls, bulk_in_ep, bulk_out_ep, address_token}
use misc_verilog_cores.Cases.Parity.{
  Adjust, adjust_seq, adjust_crc, adjust_ept, adjusted, adjusted_host, parity_length,
  tc_parity_xfer,
}
use misc_verilog_cores.Cases.Prepared.{bulk_out_prepared}

xor_twice : (a b : ℕ) → bit_xor (bit_xor a b) b ≡ a
xor_twice a b = xor_assoc a b b ∙ ap (bit_xor a) (xor_self b) ∙ xor_comm a 0 ∙ zero-xor a

-- The top bit of the second byte of a token is the top bit of the token.
flip_high : (c : ℕ) → c < 65536 → c % 256 + 256 * bit_xor (c / 256) 0x80 ≡ bit_xor c (2 ^ 15)
flip_high c h =
    let y = bit_xor c (2 ^ 15) in
    let low : y % 256 ≡ c % 256 =
      xor-mod 8 c (2 ^ 15) ∙ xor_comm (c % 256) 0 ∙ zero-xor (c % 256) in
    let high : y / 256 ≡ bit_xor (c / 256) 0x80 = xor-shift 8 c (2 ^ 15) in omega (arith, low, high)

module _ {A : Type 0} where
  set-set : (xs : List A) (i : ℕ) (v w : A) → set (set xs i v) i w ≡ set xs i w
  set-set [] i v w = refl
  set-set (x ∷ xs) zero v w = refl
  set-set (x ∷ xs) (suc i) v w = ap (◌∷◌ x) (set-set xs i v w)

  set-get_or : (xs : List A) (i : ℕ) (d : A) → set xs i (get_or xs i d) ≡ xs
  set-get_or [] i d = refl
  set-get_or (x ∷ xs) zero d = refl
  set-get_or (x ∷ xs) (suc i) d = ap (◌∷◌ x) (set-get_or xs i d)

-- A transfer with a sequence bit for its endpoint and the token of its address and endpoint.
pub record IsAddressed (x : Transfer) : Type 0 where
  pub few : x.endpoint < 16
  pub entries : length x.ep_seq ≡ 16
  pub parity : get_or x.ep_seq x.endpoint 0 < 2
  pub token : transfer_tok x ≡ x

abbrev flipped : ℕ → ℕ
flipped seq = if seq == 0 then 1 else 0

ack_once :
    (x : Transfer)
    → x.endpoint < length x.ep_seq
    → transfer_ack x
      ≡ ok (record x { ep_seq = set x.ep_seq x.endpoint (flipped (get_or x.ep_seq x.endpoint 0)) })
unfolding transfer_ack
ack_once x h = ground arith

seq_twice : (x : Transfer) → IsAddressed x → (adjusted adjust_seq x >>= adjusted adjust_seq) ≡ ok x
unfolding adjusted
seq_twice x w =
    let e = x.endpoint in
    let v = get_or x.ep_seq e 0 in
    let inside : e < length x.ep_seq = omega (arith, w.few, w.entries) in
    let once = set x.ep_seq e (flipped v) in
    let again : flipped (get_or once e 0) ≡ v =
      ap flipped (get_or-set_self x.ep_seq e (flipped v) 0 inside) ∙ ground (arith, w.parity) in
    rw (ack_once x inside) (
      ack_once (record x { ep_seq = once })
        (omega (arith, inside, length-set x.ep_seq e (flipped v)))
      ∙ ap (λ (l : List ℕ). ok (record x { ep_seq = l }))
          (ap (set once e) again ∙ set-set x.ep_seq e (flipped v) v ∙ set-get_or x.ep_seq e 0))

crc_twice : (x : Transfer) → (adjusted adjust_crc x >>= adjusted adjust_crc) ≡ ok x
unfolding adjusted
crc_twice x = elim (Bool-cases (x.endpoint == bulk_in_ep)) [
  | inl e ↦ rw (e, e, xor_twice x.tok2 0x80) refl
  | inr e ↦ rw (e, e, xor_twice x.crc1 0xFF) refl
]

ept_twice : (x : Transfer) → IsAddressed x → (adjusted adjust_ept x >>= adjusted adjust_ept) ≡ ok x
unfolding adjusted transfer_tok
ept_twice x w =
    ap (λ (e : ℕ). ok (transfer_tok (record x { endpoint = e }))) (xor_twice x.endpoint 0xF)
    ∙ ap ok w.token

-- Every adjustment is undone by a second one: a transfer to one of the 16 endpoints, with a sequence
-- bit for it and the token of its address and endpoint, is the same after both.
adjusted_twice : (a : Adjust) (x : Transfer) → IsAddressed x → (adjusted a x >>= adjusted a) ≡ ok x
adjusted_twice adjust_seq x w = seq_twice x w
adjusted_twice adjust_crc x w = crc_twice x
adjusted_twice adjust_ept x w = ept_twice x w

-- The bulk IN with a wrong CRC5.
in_refused :
    (host : Host) (ep : ℕ) (x : Transfer)
    → (let y = address_token host ep x in crc5_check (y.tok1 + 256 * bit_xor y.tok2 0x80) ≡ false)
unfolding address_token
in_refused host ep x =
    let arg = bit_or (bit_and host.addr 0x7F) (shl (bit_and ep 0x0F) 7) in
    let c = crc5_calc arg in
    let l = crc5_calc-lt arg in
    let high : bit_and (shr c 8) 0xFF ≡ c / 256 = and-mask 8 (shr c 8) ∙ omega arith in
    rw (and-mask 8 c, high, flip_high c l) (crc5_check_flip arg 15 (omega arith))

-- The bulk OUT with a wrong CRC16.
out_refused :
    (bytes : List ℕ) (c1 c2 : ℕ)
    → c1 < 256
    → crc16_check (bytes ++ c1 ∷ c2 ∷ []) ≡ true
    → crc16_check (bytes ++ bit_xor c1 0xFF ∷ c2 ∷ []) ≡ false
out_refused bytes c1 c2 h e =
    crc16_check_byte bytes (c2 ∷ []) c1 (bit_xor c1 0xFF) h (xor-lt 8 c1 0xFF h (omega arith))
      (λ same. absurd (omega (arith, same, xor-parity c1 0xFF))) e

out_adjusted :
    (h : Host)
    → h.xfer.endpoint ≡ bulk_out_ep
    → adjusted_host adjust_crc h
      ≡ ok (record h { xfer = record (h.xfer) { crc1 = bit_xor h.xfer.crc1 0xFF } })
unfolding adjusted
out_adjusted h e = rw (e) refl

-- The transfers that the stage of the wrong CRC makes, for every host with room for eight bytes and
-- whatever `rand` returns: the token of its bulk IN does not pass `crc5_check`, and the data of its
-- bulk OUT does not pass `crc16_check`, while the token of the bulk OUT does.
pub corrupted_refused :
    (c : Calls) (host : Host)
    → 8 ≤ length host.xfer.tx
    → ((g : Host) × ((tc_parity_xfer c bulk_in_ep host >>= adjusted_host adjust_crc) ≡ ok g)
        × (crc5_check (g.xfer.tok1 + 256 * g.xfer.tok2) ≡ false))
      × ((g : Host) × ((tc_parity_xfer c bulk_out_ep host >>= adjusted_host adjust_crc) ≡ ok g)
          × (crc5_check (g.xfer.tok1 + 256 * g.xfer.tok2) ≡ true)
          × (crc16_check (take g.xfer.tx_len g.xfer.tx ++ g.xfer.crc1 ∷ g.xfer.crc2 ∷ []) ≡ false))
unfolding tc_parity_xfer adjusted address_token
corrupted_refused c host room =
    let n = parity_length (c.rand 0) in
    let small : n ≤ length host.xfer.tx =
      omega (arith, and-mask 3 (shl (bit_or (c.rand 0) 0x01) 1)) in
    let (h, e, op, type, len, ptr, ep, c1, token, front, back, valid) =
      bulk_out_prepared c.rand 1 n bulk_out_ep host small in
    (
      (_, refl, in_refused host bulk_in_ep host.xfer),
      (
        record h { xfer = record (h.xfer) { crc1 = bit_xor h.xfer.crc1 0xFF } },
        rw (e) (out_adjusted h ep),
        token.2,
        rw (len) (out_refused (take n h.xfer.tx) h.xfer.crc1 h.xfer.crc2 c1 valid),
      ),
    )
