-- ===== src/Host/Incoming/Silence.antt =====
-- A bulk IN transaction of vpi/usb/usbhost.c under `usbh_step` in which no data packet comes.
use misc_verilog_cores.Base.{
  ℕ, suc, ◌+◌, ◌≤◌, ◌<◌, ◌≡◌, sym, ap, ap₂, ◌∙◌, true, pos, ok, Option, none, some, List, [], ◌∷◌,
  ◌++◌, length, map, All, arith,
}
use misc_verilog_cores.Ulpi.{
  sig0, sig1, Bus, Transfer, XferType, XferStage, in_token, time_out, up_data0, up_data1, xfer_idle,
  no_xfer, ulpi_bus_idle, transfer_type_to_pid, stepped,
}
use misc_verilog_cores.Ulpi.Step.Recv.{datax_recv_step, datax_recv_at}
use misc_verilog_cores.Ulpi.Listen.{phy_bus}
use misc_verilog_cores.Ulpi.Receive.{is_up_data}
use misc_verilog_cores.Host.{Host, HostOp, host_bulk_in, turnaround_timer}
use misc_verilog_cores.Host.Bulk.{bulk_in_step}
use misc_verilog_cores.Host.StepLaws.{Released}
use misc_verilog_cores.Host.Transaction.Token.{at}
use misc_verilog_cores.Host.Incoming.{in_host, incoming_run, one_cycle, last_cycle}
use misc_verilog_cores.Host.Incoming.Token.{expected_type, expecting, alone, token-Passes}
use misc_verilog_cores.Host.Incoming.Start.{Quiet, hold_cycles, no_data_cycle}
use misc_verilog_cores.Host.Incoming.Whole.{expected-data}

late_step :
    (t : XferType) (host : Host) (r k : ℕ) (x : Transfer) (inp : Bus)
    → is_up_data t ≡ true
    → x.rx_ptr ≡ 0
    → x.cycle ≤ k
    → Quiet inp
    → bulk_in_step r (in_host host k (at t no_xfer x)) inp inp
      ≡ stepped (pos 0) (in_host host k (at time_out no_xfer x)) (record inp { dir = sig0 })
unfolding bulk_in_step datax_recv_step datax_recv_at
late_step up_data0 host r k x inp d p h q = rw q (ground arith)
late_step up_data1 host r k x inp d p h q = rw q (ground arith)
late_step _ host r k x inp d p h q = cc

give_up_step :
    (host : Host) (r k : ℕ) (x : Transfer) (inp : Bus)
    → x.cycle ≤ k
    → bulk_in_step r (in_host host k (at time_out no_xfer x)) inp inp
      ≡ stepped (pos 1) (in_host host k (at xfer_idle no_xfer x)) inp
unfolding bulk_in_step
give_up_step host r k x inp h = ground arith

-- Behind the token, in which the link does not drive the bus.
abbrev pub silent_script : List Bus → Bus → List (Option Bus)
silent_script waits late = alone 9 ++ (map some waits ++ (some late ∷ none ∷ []))

-- A bulk IN transaction without an answer, under `usbh_step`: from its token, on an idle bus and with
-- `rx_ptr` 0, the link takes the bytes of the token, the PID of IN (0x69) first, and then sends no command up to the turn-around
-- deadline, 40 cycles on. Whatever `rand()` returns, the transaction returns 1 one cycle behind the
-- deadline, and the link takes nothing but the token: no ACK is sent, the endpoint is not acknowledged,
-- the transfer is idle and else unchanged but for the deadline, and the host but for its cycle. The
-- cycle count lies within 32 bits.
pub bulk_in_times_out :
    (rand : ℕ → ℕ) (host : Host) (waits : List Bus) (late : Bus)
    → host.op ≡ host_bulk_in
    → host.xfer.type ≡ in_token
    → host.xfer.stage ≡ no_xfer
    → host.xfer.rx_ptr ≡ 0
    → host.xfer.endpoint < length host.xfer.ep_seq
    → host.cycle + 200 < 4294967296
    → All Quiet waits
    → Quiet late
    → All Released waits
    → late.rst_n ≡ sig1
    → suc (length waits) ≡ turnaround_timer
    → incoming_run rand (silent_script waits late) host ulpi_bus_idle []
      ≡ ok (
        record {
          code = pos 1;
          state = record host {
            cycle = host.cycle + 9 + turnaround_timer + 1;
            xfer = record (host.xfer) {
              type = xfer_idle;
              cycle = host.cycle + 9 + turnaround_timer;
            };
          };
          out = record late { dir = sig0 };
        },
        0x69 ∷ host.xfer.tok1 ∷ host.xfer.tok2 ∷ [],
      )
unfolding transfer_type_to_pid
bulk_in_times_out rand host waits late op t st p fits small q ql released r n =
    let x = host.xfer in
    let ty = expected_type x in
    let k = host.cycle + 9 in
    let d = k + turnaround_timer in
    let y = expecting x d in
    let same : host ≡ in_host host host.cycle (at in_token no_xfer x) =
      ap (λ (a : HostOp). record host { op = a }) op
      ∙ ap₂ (λ (a : XferType) (b : XferStage). in_host host host.cycle (at a b x)) t st in
    let up = expected-data x in
    let tokens = token-Passes rand host x host.cycle fits (omega arith) in
    let (o, quiet) =
      hold_cycles rand host y ty up Quiet y (no_data_cycle rand host y ty up) waits k
        (phy_bus 0 0 0x00 0xFF) q released (omega arith) (omega arith) in
    let lates =
      one_cycle rand host (some late) (k + length waits) (at ty no_xfer y) (at time_out no_xfer y) o
        (record late { dir = sig0 }) r (omega arith)
        (late_step ty host (rand (k + length waits)) (k + length waits + 1) y late up p
          (omega arith) ql) in
    let released_bus : Bus = record late { dir = sig0 } in
    let n' = k + length waits + 1 in
    let count : n' + 1 ≡ d + 1 = omega arith in
    let ends =
      last_cycle rand host none n' (at time_out no_xfer y) (at xfer_idle no_xfer y) released_bus
        released_bus _ r (omega arith)
        (give_up_step host (rand n') (n' + 1) y released_bus (omega arith)) in
    let back : in_host host (n' + 1) (at xfer_idle no_xfer y)
        ≡ record host { cycle = d + 1; xfer = record x { type = xfer_idle; cycle = d } } =
      ap (λ (c : ℕ). in_host host c (at xfer_idle no_xfer y)) count
      ∙ ap₂
          (λ (a : HostOp) (b : XferStage). record host {
            cycle = d + 1;
            op = a;
            xfer = record x { type = xfer_idle; stage = b; cycle = d };
          })
          (sym op) (sym st) in
    ap (λ (g : Host). incoming_run rand (silent_script waits late) g ulpi_bus_idle []) same
    ∙ tokens.run _ []
    ∙ quiet.run _ _
    ∙ lates.run _ _
    ∙ ends
    ∙ ap
        (λ (h : Host). ok (
          record { code = pos 1; state = h; out = released_bus },
          transfer_type_to_pid in_token ∷ x.tok1 ∷ x.tok2 ∷ [],
        ))
        back
