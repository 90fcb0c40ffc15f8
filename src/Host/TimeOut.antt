-- ===== src/Host/TimeOut.antt =====
-- The turn-around timer of a bulk OUT transaction in vpi/usb/usbhost.c.
use misc_verilog_cores.Base.{
  ℕ, zero, suc, ◌+◌, ◌-◌, ◌<◌, ◌≡◌, refl, ap, ap₂, ◌∙◌, pos, List, [], ◌∷◌, length, All, arith,
}
use misc_verilog_cores.Ulpi.{
  Bus, XferType, XferStage, up_ack, xfer_idle, no_xfer, ulpi_bus_is_idle, stepped,
}
use misc_verilog_cores.Ulpi.Step.Ack.{ack_recv_step, ack_recv_at}
use misc_verilog_cores.Ulpi.Handshake.{IsIdle}
use misc_verilog_cores.Host.{Host, HostOp, host_bulk_out}
use misc_verilog_cores.Host.Bulk.{bulk_out_step}
use misc_verilog_cores.Host.Step.{usbh_step, host_op_step, before_step, start_frame}
use misc_verilog_cores.Host.StepLaws.{usbh_run}

-- A host at cycle `k` that waits for an ACK until cycle `d`.
abbrev waiting : Host → ℕ → ℕ → Host
waiting host d k = record host {
  cycle = k;
  op = host_bulk_out;
  xfer = record (host.xfer) { type = up_ack; stage = no_xfer; cycle = d };
}

abbrev expired : Host → ℕ → Host
expired host d = record host {
  cycle = d;
  op = host_bulk_out;
  xfer = record (host.xfer) { type = xfer_idle; stage = no_xfer; cycle = d };
}

wait_step :
    (rand : ℕ) (host : Host) (d k : ℕ) (inp out : Bus)
    → IsIdle inp
    → k + 1 < d
    → d < 4294967296
    → usbh_step rand (waiting host d k) inp out ≡ stepped (pos 0) (waiting host d (k + 1)) inp
unfolding usbh_step before_step start_frame host_op_step bulk_out_step ack_recv_step ack_recv_at
    ulpi_bus_is_idle
wait_step rand host d k inp out i h small = ground arith

expire_step :
    (rand : ℕ) (host : Host) (d k : ℕ) (inp out : Bus)
    → IsIdle inp
    → k + 1 ≡ d
    → d < 4294967296
    → usbh_step rand (waiting host d k) inp out ≡ stepped (pos 1) (expired host d) inp
unfolding usbh_step before_step start_frame host_op_step bulk_out_step ulpi_bus_is_idle
expire_step rand host d k inp out i h small = ground arith

wait_run :
    (left rand : ℕ) (inps : List Bus) (host : Host) (d k : ℕ) (out : Bus)
    → All IsIdle inps
    → length inps ≡ suc left
    → k + suc left ≡ d
    → d < 4294967296
    → (o : Bus) × (usbh_run rand inps (waiting host d k) out ≡ stepped (pos 1) (expired host d) o)
unfolding usbh_run
wait_run left rand [] host d k out i n e small = absurd (omega arith)
wait_run zero rand (inp ∷ inps) host d k out i n e small =
    (inp, rw (expire_step rand host d k inp out i.0 (omega arith) small) refl)
wait_run (suc left) rand (inp ∷ inps) host d k out i n e small =
    let (o, run) =
      wait_run left rand inps host d (k + 1) inp i.1 (omega arith) (omega arith) small in
    (o, rw (wait_step rand host d k inp out i.0 (omega arith) small) run)

-- A bulk OUT transaction whose ACK never comes ends: on an idle bus the host returns 0 until its
-- cycle count reaches the turn-around deadline and 1 then, also across the ticks of the frame timer.
-- Its transfer is idle, and the parity of the endpoints and the data are as they were, so that the
-- packet can be sent again. The deadline lies within the 32 bits that hold it.
pub ack_times_out :
    (rand : ℕ) (inps : List Bus) (host : Host) (out : Bus)
    → host.op ≡ host_bulk_out
    → host.xfer.type ≡ up_ack
    → host.xfer.stage ≡ no_xfer
    → host.cycle < host.xfer.cycle
    → host.xfer.cycle < 4294967296
    → All IsIdle inps
    → length inps ≡ host.xfer.cycle - host.cycle
    → (h : Host) × (o : Bus) × (usbh_run rand inps host out ≡ stepped (pos 1) h o)
      × (h.cycle ≡ host.xfer.cycle)
      × (h.xfer.type ≡ xfer_idle)
      × (h.xfer.ep_seq ≡ host.xfer.ep_seq)
      × (h.xfer.tx ≡ host.xfer.tx)
ack_times_out rand inps host out op t st h small i n =
    let d = host.xfer.cycle in
    let left = d - host.cycle - 1 in
    let same : host ≡ waiting host d host.cycle =
      ap (λ (g : HostOp). record host { op = g }) op
      ∙ ap₂
          (λ (a : XferType) (b : XferStage). record host {
            op = host_bulk_out;
            xfer = record (host.xfer) { type = a; stage = b };
          })
          t st in
    let (o, run) =
      wait_run left rand inps host d host.cycle out i (omega arith) (omega arith) small in
    (
      expired host d,
      o,
      ap (λ (g : Host). usbh_run rand inps g out) same ∙ run,
      refl,
      refl,
      refl,
      refl,
    )
