-- ===== src/Host/Transaction/Whole.antt =====
-- A whole bulk OUT transaction of vpi/usb/usbhost.c under `usbh_step`: token, data and handshake.
use misc_verilog_cores.Base.{
  ℕ, ◌+◌, ◌*◌, ◌≤◌, ◌<◌, ◌≡◌, refl, ap, ap₂, ◌∙◌, bit_and, true, pos, ok, List, [], ◌∷◌, ◌++◌,
  length, get_or, All, arith,
}
use misc_verilog_cores.Base.Bits.{and-mask}
use misc_verilog_cores.Ulpi.{
  sig0, sig1, Bus, Transfer, XferType, XferStage, out_token, up_ack, xfer_idle, no_xfer,
  ulpi_bus_idle, ulpitx_ack, transfer_type_to_pid, transfer_ack, stepped,
}
use misc_verilog_cores.Ulpi.Step.Send.{datax_pid_byte}
use misc_verilog_cores.Ulpi.SendRun.{is_dn_data, InSequence, payload}
use misc_verilog_cores.Ulpi.Handshake.{IsIdle, Holds, toggled}
use misc_verilog_cores.Ulpi.Listen.{phy_bus}
use misc_verilog_cores.Host.{Host, HostOp, host_bulk_out, turnaround_timer}
use misc_verilog_cores.Host.StepLaws.{usbh_run, Released}
use misc_verilog_cores.Host.Transaction.{out_host, ready, sending_run}
use misc_verilog_cores.Host.Transaction.Token.{at, parity_type, token-Reaches}
use misc_verilog_cores.Host.Transaction.Data.{sent}
use misc_verilog_cores.Host.Transaction.Payload.{packet-Reaches}
use misc_verilog_cores.Host.Transaction.Answer.{answer_run}

-- The bytes of a bulk OUT transaction: the token, then the data packet of the endpoint's parity.
abbrev pub transaction_bytes : Transfer → List ℕ
transaction_bytes x =
    transfer_type_to_pid out_token
    ∷ x.tok1
    ∷ x.tok2
    ∷ datax_pid_byte (parity_type x)
    ∷ (payload x x.tx_len ++ x.crc2 ∷ [])

parity-data : (x : Transfer) → is_dn_data (parity_type x) ≡ true
parity-data x = ground arith

parity-InSequence :
    (x : Transfer)
    → x.endpoint < 16
    → get_or x.ep_seq x.endpoint 0 < 2
    → InSequence (parity_type x) x
parity-InSequence x e p =
    let low : bit_and x.endpoint 0x0f ≡ x.endpoint = omega (arith, and-mask 4 x.endpoint) in
    rw low (ground arith)

pub transfer_acked :
    (x : Transfer)
    → x.endpoint < length x.ep_seq
    → transfer_ack x ≡ ok (record x { ep_seq = toggled x })
unfolding transfer_ack
transfer_acked x h = ground arith

-- A whole bulk OUT transaction, under `usbh_step`. From its token, on an idle bus, for an endpoint with
-- a parity of 0 or 1 and a buffer that holds the data: whatever `rand()` returns, 2 * tx_len + 19
-- steps are enough for the host to send the packets, in which the link takes exactly the bytes of the
-- token and of the data packet of the endpoint's parity, once and in order; the host then waits for the
-- handshake with a deadline 40 cycles on. If the link answers with an ACK, after any idle cycles and
-- held for any number of cycles that end before the deadline, the transaction returns 1 in the last of
-- them: the endpoint was acknowledged exactly once, by `transfer_ack`, and the transfer is idle with
-- all bytes counted, and else unchanged. The cycle count and the deadline lie within 32 bits.
pub bulk_out_transaction :
    (rands : List ℕ) (host : Host) (rand : ℕ) (waits holds : List Bus) (ack stop last : Bus)
    → host.op ≡ host_bulk_out
    → host.xfer.type ≡ out_token
    → host.xfer.stage ≡ no_xfer
    → host.xfer.tx_ptr ≡ 0
    → host.xfer.endpoint < 16
    → host.xfer.endpoint < length host.xfer.ep_seq
    → get_or host.xfer.ep_seq host.xfer.endpoint 0 < 2
    → host.xfer.tx_len ≤ length host.xfer.tx
    → 2 * host.xfer.tx_len + 19 ≤ length rands
    → host.cycle + 2 * host.xfer.tx_len + 100 < 4294967296
    → ack.dat.a ≡ ulpitx_ack
    → (stop.dir ≡ sig0) × (stop.dat.b ≡ 0x00) × (stop.stp ≡ sig1)
    → (last.dir ≡ sig0) × (last.nxt ≡ sig0) × (last.stp ≡ sig0)
    → All Released (ack ∷ stop ∷ last ∷ [])
    → All IsIdle waits
    → All Released waits
    → All Holds holds
    → All Released holds
    → length waits + length holds + 3 < turnaround_timer
    → (h : Host) × (o : Bus) × (g : Host) × (y : Transfer) × (sending_run rands host ulpi_bus_idle
          []
        ≡ ok (record { code = pos 0; state = h; out = o }, transaction_bytes host.xfer))
      × (h.xfer.type ≡ up_ack)
      × (h.xfer.cycle ≡ h.cycle + turnaround_timer)
      × (usbh_run rand (waits ++ ack ∷ (holds ++ stop ∷ last ∷ [])) h o ≡ stepped (pos 1) g last)
      × (transfer_ack host.xfer ≡ ok y)
      × (g.xfer
          ≡ record y { type = xfer_idle; stage = no_xfer; tx_ptr = y.tx_len; cycle = h.xfer.cycle })
bulk_out_transaction rands host rand waits holds ack stop last op t st start low fits p room enough
      small is_ack stops ends up wi wr hi hr late =
    let x = host.xfer in
    let d = parity-data x in
    let s = parity-InSequence x low p in
    let same : host ≡ out_host host host.cycle (at out_token no_xfer (record x { tx_ptr = 0 })) =
      ap (λ (a : HostOp). record host { op = a }) op
      ∙ ap₂ (λ (a : XferType) (b : XferStage). out_host host host.cycle (at a b x)) t st
      ∙ ap (λ (k : ℕ). out_host host host.cycle (at out_token no_xfer (record x { tx_ptr = k })))
          start in
    let reach =
      token-Reaches host (sent host x (parity_type x) d s) (record x { tx_ptr = 0 })
        (2 * x.tx_len + 10) _ fits (packet-Reaches host x (parity_type x) d s room) in
    let (k, run, lo, hi') = reach rands host.cycle [] (omega arith) (omega arith) in
    let z = ready (sent host x (parity_type x) d s) k in
    let (k', done) =
      answer_run host z rand (omega arith) ack stop last is_ack stops ends up waits holds k
        (phy_bus 0 0 0x00 0xFF) fits wi wr hi hr (omega arith) in
    (
      out_host host k z,
      phy_bus 0 0 0x00 0xFF,
      _,
      record x { ep_seq = toggled x },
      ap (λ (g : Host). sending_run rands g ulpi_bus_idle []) same ∙ run,
      refl,
      refl,
      done,
      transfer_acked x fits,
      refl,
    )
