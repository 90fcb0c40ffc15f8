-- ===== src/Ulpi/Overrun.antt =====
-- `datax_recv_step` of vpi/usb/ulpi.c where the packet is longer than the buffer.
use native.Mathlib.Decide.{ℕ_discrete, dec_lt}
use misc_verilog_cores.Base.{
  ℕ, suc, ◌+◌, ◌≤◌, ◌<◌, ◌≡◌, ap, ap₂, ◌∙◌, true, fault, bounds, Result, ◌>>=◌, List, [], ◌∷◌,
  length, set, length-set, All, arith,
}
use misc_verilog_cores.Ulpi.{sig1, datax_body, Bus, Transfer, XferType, XferStage, Stepped}
use misc_verilog_cores.Ulpi.Receive.{
  receive, carry_on, taken, taken_yes, taken_no, InBody, is_up_data, body, body_cycle, body_take,
  body_wait, body_full,
}

overrun_from :
    (t : XferType) (xfer : Transfer) (bytes : List ℕ) (i : ℕ) (inps : List Bus) (out : Bus)
    → is_up_data t ≡ true
    → All InBody inps
    → i ≤ length bytes
    → length bytes < i + length (taken inps)
    → receive inps (body t xfer bytes i) out ≡ fault bounds
overrun_from t xfer bytes i [] out up h low over = absurd (omega arith)
overrun_from t xfer bytes i (inp ∷ inps) out up h low over = elim (ℕ_discrete inp.nxt sig1) [
  | yes n ↦
      let tk : taken (inp ∷ inps) ≡ inp.dat.a ∷ taken inps = taken_yes inp inps n in
      let over' : length bytes < i + suc (length (taken inps)) = rw tk at over in
      body_cycle t xfer up bytes i inp inps out h.0.0 ∙ elim (dec_lt i (length bytes)) [
        | yes p ↦
            ap (λ (r : Result (Stepped Transfer)). r >>= carry_on (receive inps))
              (body_take xfer bytes t i inp h.0.1 n p)
            ∙ overrun_from t xfer (set bytes i inp.dat.a) (suc i) inps inp up h.1
                (omega (arith, length-set bytes i inp.dat.a))
                (omega (arith, length-set bytes i inp.dat.a))
        | no p ↦
            ap (λ (r : Result (Stepped Transfer)). r >>= carry_on (receive inps))
              (body_full xfer bytes t i inp h.0.1 n (omega arith))
      ]
  | no n ↦
      let tk : taken (inp ∷ inps) ≡ taken inps = taken_no inp inps n in
      body_cycle t xfer up bytes i inp inps out h.0.0
      ∙ ap (λ (r : Result (Stepped Transfer)). r >>= carry_on (receive inps))
          (body_wait xfer bytes t i inp h.0.1 n)
      ∙ overrun_from t xfer bytes i inps (record inp { nxt = sig1 }) up h.1 low (rw tk at over)
]

-- In the body of a packet from its start, whenever the link sends more bytes, data and CRC together,
-- than `rx` holds, `datax_recv_step` writes outside the array.
pub receive_overrun :
    (xfer : Transfer) (inps : List Bus) (out : Bus)
    → is_up_data xfer.type ≡ true
    → xfer.stage ≡ datax_body
    → xfer.rx_ptr ≡ 0
    → All InBody inps
    → length xfer.rx < length (taken inps)
    → receive inps xfer out ≡ fault bounds
receive_overrun xfer inps out up stage start h over =
    ap₂ (λ (g : XferStage) (k : ℕ). receive inps (record xfer { stage = g; rx_ptr = k }) out) stage
      start
    ∙ overrun_from xfer.type xfer xfer.rx 0 inps out up h (omega arith) (omega arith)
