-- ===== src/Host/StepLaws.antt =====
-- `usbh_step` of vpi/usb/usbhost.c: the end of the reset, the start of a frame, and transactions.
use misc_verilog_cores.Base.{
  ◌⊎◌, inl, inr, ℕ, zero, suc, ◌+◌, ◌*◌, ◌/◌, ◌%◌, ◌<◌, ◌≡◌, ◌≢◌, refl, bit_and, shr, u16, u64,
  true, pos, negsuc, Result, ok, ◌>>=◌, List, [], ◌∷◌, length, All, arith,
}
use misc_verilog_cores.Ulpi.{Bus, byte, sof, no_xfer, assert_dir, sig0, sig1, Stepped, stepped}
use misc_verilog_cores.Host.{
  Host, HostOp, host_reset, host_idle, host_setup, host_bulk_out, host_bulk_in, host_sof,
  sof_n_ticks, guardian, reset_ticks,
}
use misc_verilog_cores.Base.Bits.{and-mask}
use misc_verilog_cores.Crc.{crc5_calc, crc5_check}
use misc_verilog_cores.Crc.Token.{crc5_check-crc5_calc, crc5_calc-lt}
use misc_verilog_cores.Ulpi.Step.Token.{token_send_step, token_at}
use misc_verilog_cores.Host.Step.{
  usbh_step, host_op_step, before_step, start_frame, reset_tick, after_step, frame_op,
}

-- One call for each clock edge, as long as the result is 0.
abbrev carry_on : (Host → Bus → Result (Stepped Host)) → Stepped Host → Result (Stepped Host)
carry_on rest s = elim s.code [
  | pos zero ↦ rest s.state s.out
  | pos (suc n) ↦ ok s
  | negsuc n ↦ ok s
]

unfoldable pub usbh_run : ℕ → List Bus → Host → Bus → Result (Stepped Host)
usbh_run rand [] host out = stepped (pos 0) host out
usbh_run rand (inp ∷ inps) host out = usbh_step rand host inp out >>= carry_on (usbh_run rand inps)

abbrev pub Released : Bus → Type 0
Released inp = inp.rst_n ≡ sig1

-- The host one cycle on.
abbrev ticked : Host → Bus → HostOp → ℕ → Host
ticked host inp o k = record host { cycle = u64 (host.cycle + 1); op = o; step = k; prev = inp }

counting :
    (rand : ℕ) (host : Host) (inp out : Bus)
    → host.op ≡ host_reset
    → host.guard ≡ guardian
    → inp.rst_n ≡ sig1
    → host.step + 1 < 6000
    → usbh_step rand host inp out ≡ stepped (pos 0) (ticked host inp host_reset (host.step + 1)) inp
unfolding usbh_step host_op_step before_step start_frame reset_tick after_step
counting rand host inp out o g r h = ground arith

finishing :
    (rand : ℕ) (host : Host) (inp out : Bus)
    → host.op ≡ host_reset
    → host.guard ≡ guardian
    → inp.rst_n ≡ sig1
    → host.step + 1 ≡ 6000
    → usbh_step rand host inp out ≡ stepped (pos 0) (ticked host inp host_idle 0) inp
unfolding usbh_step host_op_step before_step start_frame reset_tick after_step
finishing rand host inp out o g r h = ground arith

abbrev pub IsTransaction : HostOp → Type 0
IsTransaction o = (o ≡ host_setup) ⊎ (o ≡ host_bulk_out) ⊎ (o ≡ host_bulk_in)

count_down :
    (left : ℕ) (rand : ℕ) (inps : List Bus) (host : Host) (out : Bus)
    → length inps ≡ suc left
    → host.step + suc left ≡ 6000
    → host.op ≡ host_reset
    → host.guard ≡ guardian
    → All Released inps
    → (h : Host) × (o : Bus) × (usbh_run rand inps host out ≡ stepped (pos 0) h o)
      × (h.op ≡ host_idle)
      × (h.step ≡ 0)
unfolding usbh_run
count_down left rand [] host out n e op g r = absurd (omega arith)
count_down zero rand (inp ∷ []) host out n e op g r = (
  ticked host inp host_idle 0,
  inp,
  rw (finishing rand host inp out op g r.0 (omega arith)) refl,
  refl,
  refl,
)
count_down zero rand (inp ∷ inp' ∷ inps) host out n e op g r = absurd (omega arith)
count_down (suc left) rand (inp ∷ inps) host out n e op g r =
    let next = ticked host inp host_reset (host.step + 1) in
    let (h, o, run, idle, start) =
      count_down left rand inps next inp (omega arith) (omega arith) refl g r.1 in
    (h, o, rw (counting rand host inp out op g r.0 (omega arith)) run, idle, start)

-- A reset ends: whatever the bus carries while reset is not asserted, a host that has just been
-- reset returns 0 for 6000 cycles and is idle after them, also across the ticks of the frame timer.
pub reset_ends :
    (rand : ℕ) (inps : List Bus) (host : Host) (out : Bus)
    → host.op ≡ host_reset
    → host.step ≡ 0
    → host.guard ≡ guardian
    → All Released inps
    → length inps ≡ reset_ticks
    → (h : Host) × (o : Bus) × (usbh_run rand inps host out ≡ stepped (pos 0) h o)
      × (h.op ≡ host_idle)
      × (h.step ≡ 0)
reset_ends rand inps host out op z g r n =
    count_down 5999 rand inps host out (omega arith) (omega arith) op g r

-- In a transaction and out of reset, whatever the cycle count, a step of the host is the step of its
-- operation on the same bus: a tick of the frame timer changes nothing.
pub transaction_goes_on :
    (rand : ℕ) (host : Host) (inp out : Bus)
    → IsTransaction host.op
    → inp.rst_n ≢ sig0
    → usbh_step rand host inp out
      ≡ host_op_step host.op rand (record host { cycle = u64 (host.cycle + 1) }) inp inp
unfolding usbh_step before_step start_frame
transaction_goes_on rand host inp out (inl s) r = ground arith
transaction_goes_on rand host inp out (inr (inl s)) r = ground arith
transaction_goes_on rand host inp out (inr (inr s)) r = ground arith

-- At every tick of the frame timer an idle host starts a SOF packet: it takes the bus in that cycle,
-- counts the frame in 16 bits, and the token passes `crc5_check` and carries the low 11 bits of an
-- eighth of the count.
pub frame_starts :
    (rand : ℕ) (host : Host) (inp out : Bus)
    → host.op ≡ host_idle
    → host.xfer.stage ≡ no_xfer
    → host.guard ≡ guardian
    → inp.rst_n ≡ sig1
    → host.cycle % sof_n_ticks ≡ 0
    → (h : Host) × (usbh_step rand host inp out
        ≡ stepped (pos 0) h (record inp { dir = sig1; nxt = sig1; dat = byte 0x00 0xFF }))
      × (h.op ≡ host_sof)
      × (h.xfer.type ≡ sof)
      × (h.sof_count ≡ (host.sof_count + 1) % 65536)
      × ((h.xfer.tok1 + 256 * h.xfer.tok2) % 2048 ≡ host.sof_count / 8 % 2048)
      × (crc5_check (h.xfer.tok1 + 256 * h.xfer.tok2) ≡ true)
unfolding usbh_step host_op_step before_step start_frame after_step token_send_step token_at
    frame_op
frame_starts rand host inp out op st g r t =
    let crc = crc5_calc (shr host.sof_count 3) in
    let valid = crc5_check-crc5_calc (shr host.sof_count 3) in
    let whole : bit_and crc 0xFF + 256 * bit_and (shr crc 8) 0xFF ≡ crc =
      rw (and-mask 8 crc, and-mask 8 (shr crc 8))
        (omega (arith, crc5_calc-lt (shr host.sof_count 3))) in
    (
      record host {
        cycle = u64 (host.cycle + 1);
        op = host_sof;
        step = 0;
        prev = inp;
        sof_count = u16 (host.sof_count + 1);
        xfer = record (host.xfer) {
          type = sof;
          stage = assert_dir;
          tok1 = bit_and crc 0xFF;
          tok2 = bit_and (shr crc 8) 0xFF;
        };
      },
      rw (r, t, op, st, g) refl,
      refl,
      refl,
      refl,
      rw whole valid.0,
      rw whole valid.1,
    )
