-- ===== src/Host/Incoming/Whole.antt =====
-- A whole bulk IN transaction of vpi/usb/usbhost.c under `usbh_step`: token, data and handshake.
use misc_verilog_cores.Base.{
  ℕ, suc, ◌+◌, ◌≤◌, ◌<◌, ◌≡◌, ◌≢◌, sym, ap, ap₂, ◌∙◌, bit_and, true, pos, ok, Option, some, List,
  [], ◌∷◌, ◌++◌, length, length-append, get_or, take, All, arith,
}
use misc_verilog_cores.Base.Bits.{and-mask}
use misc_verilog_cores.Crc.Packet.{trailer}
use misc_verilog_cores.Ulpi.{
  sig0, sig1, Bus, Transfer, XferType, XferStage, in_token, xfer_idle, no_xfer, ulpi_bus_idle,
  transfer_ack, transfer_type_to_pid, check_seq,
}
use misc_verilog_cores.Ulpi.Listen.{phy_bus}
use misc_verilog_cores.Ulpi.Handshake.{toggled}
use misc_verilog_cores.Ulpi.Packet.{take-filled}
use misc_verilog_cores.Ulpi.Receive.{taken, taken_yes, InBody, is_up_data}
use misc_verilog_cores.Host.{Host, HostOp, host_bulk_in, turnaround_timer}
use misc_verilog_cores.Host.StepLaws.{Released}
use misc_verilog_cores.Host.Transaction.Token.{at}
use misc_verilog_cores.Host.Transaction.Whole.{transfer_acked}
use misc_verilog_cores.Host.Incoming.{in_host, incoming_run}
use misc_verilog_cores.Host.Incoming.Token.{expected_type, expecting, alone, token-Passes}
use misc_verilog_cores.Host.Incoming.Data.{data_script, data-Passes}
use misc_verilog_cores.Host.Incoming.Start.{pid_byte, Expects, Quiet, Leads}
use misc_verilog_cores.Host.Incoming.End.{after_packet}
use misc_verilog_cores.Host.Incoming.Answer.{ack-Passes, ack_ends}

-- What the link does: it leaves the token alone, then drives the data packet up to its stop, releases
-- STP, and leaves the ACK alone.
abbrev pub bulk_in_script :
    List Bus → Bus → Bus → List Bus → Bus → List Bus → Bus → List (Option Bus)
bulk_in_script waits command pid leads first inps stop =
    alone 9
    ++ (data_script waits command pid leads first inps stop ++ (some ulpi_bus_idle ∷ alone 6))

pub expected-data : (x : Transfer) → is_up_data (expected_type x) ≡ true
expected-data x = ground arith

expected-Expects :
    (x : Transfer) (c : ℕ)
    → x.endpoint < 16
    → get_or x.ep_seq x.endpoint 0 < 2
    → Expects (expecting x c) (expected_type x)
unfolding check_seq
expected-Expects x c e p =
    let low : bit_and x.endpoint 0x0f ≡ x.endpoint = omega (arith, and-mask 4 x.endpoint) in
    rw low (ground arith)

-- A whole bulk IN transaction, under `usbh_step`. From its token, on an idle bus, for an endpoint with a
-- parity of 0 or 1: the host sends the token, and the link answers with the data packet of the endpoint's
-- parity after any quiet cycles, with any wait states before the first byte of its body, all within the
-- turn-around time. The body is `d` and its CRC, in any cycles with any wait states between, and `rx` has
-- room for it. Then the transaction returns 1 in the last step of the script, whatever `rand()` returns in
-- each cycle: the link takes exactly the bytes of the token and of the ACK, with the PIDs of IN (0x69) and ACK
-- (0xD2), `rx` begins with `d` and its
-- CRC, `rx_len` is the number of bytes of `d`, the endpoint was acknowledged exactly once, by
-- `transfer_ack`, and the transfer is idle. The rest of the transfer keeps its value, but for `rx_ptr`,
-- the CRC fields and the deadline, and the rest of the host, but for the cycle. The cycle count lies
-- within 32 bits.
pub bulk_in_transaction :
    (rand : ℕ → ℕ) (host : Host) (d : List ℕ) (waits leads inps : List Bus)
    (command pid first stop : Bus)
    → host.op ≡ host_bulk_in
    → host.xfer.type ≡ in_token
    → host.xfer.stage ≡ no_xfer
    → host.xfer.endpoint < 16
    → host.xfer.endpoint < length host.xfer.ep_seq
    → get_or host.xfer.ep_seq host.xfer.endpoint 0 < 2
    → length d + 2 ≤ length host.xfer.rx
    → host.cycle + length waits + length leads + length inps + 200 < 4294967296
    → All Quiet waits
    → command.dat.a ≢ 0x00
    → (pid.dir ≡ sig0)
      × (pid.nxt ≡ sig1)
      × (pid.dat.b ≡ 0x00)
      × (pid.dat.a ≡ pid_byte (expected_type host.xfer))
    → All Leads leads
    → All InBody (first ∷ inps)
    → first.nxt ≡ sig1
    → taken (first ∷ inps) ≡ d ++ trailer d
    → (stop.dir ≡ sig0) × (stop.stp ≡ sig1)
    → All Released waits
    → All Released (command ∷ pid ∷ stop ∷ [])
    → All Released leads
    → All Released (first ∷ inps)
    → length waits + length leads + 2 < turnaround_timer
    → (g : Host) × (y : Transfer) × (incoming_run rand
          (bulk_in_script waits command pid leads first inps stop)
          host
          ulpi_bus_idle
          []
        ≡ ok (
          record { code = pos 1; state = g; out = phy_bus 0 0 0x00 0xFF },
          0x69 ∷ host.xfer.tok1 ∷ host.xfer.tok2 ∷ 0xD2 ∷ [],
        ))
      × (transfer_ack host.xfer ≡ ok y)
      × (g ≡ record host { cycle = g.cycle; xfer = g.xfer })
      × (g.xfer ≡ record y {
        type = xfer_idle;
        stage = no_xfer;
        cycle = host.cycle + 9 + turnaround_timer;
        rx = g.xfer.rx;
        rx_ptr = length d + 2;
        rx_len = pos (length d);
        crc1 = g.xfer.crc1;
        crc2 = g.xfer.crc2;
      })
      × (take (length d + 2) g.xfer.rx ≡ d ++ trailer d)
unfolding transfer_type_to_pid
bulk_in_transaction rand host d waits leads inps command pid first stop op t st low fits p room
      small qw c is_pid ql b n all stops released r rl rb early =
    let x = host.xfer in
    let ty = expected_type x in
    let k = host.cycle + 9 in
    let y = expecting x (k + turnaround_timer) in
    let whole = sym (taken_yes first inps n) ∙ all in
    let size : suc (length (taken inps)) ≡ length d + 2 =
      ap length whole ∙ length-append d (trailer d) in
    let same : host ≡ in_host host host.cycle (at in_token no_xfer x) =
      ap (λ (a : HostOp). record host { op = a }) op
      ∙ ap₂ (λ (a : XferType) (b : XferStage). in_host host host.cycle (at a b x)) t st in
    let tokens = token-Passes rand host x host.cycle fits (omega arith) in
    let (c1, c2, comes) =
      data-Passes rand host y ty (expected-data x) d waits leads inps command pid first stop k
        (phy_bus 0 0 0x00 0xFF) (expected-Expects x (k + turnaround_timer) low p) qw c is_pid ql b n
        whole stops released r rl rb room (omega arith) (omega arith) in
    let z = after_packet y (first.dat.a ∷ taken inps) (length d) c1 c2 in
    let k' = k + length waits + 1 + 1 + length leads + suc (length inps) + 1 + 1 + 1 + 1 + 1 in
    let acks = ack-Passes rand host z k' (phy_bus 0 0 0x00 0xFF) (omega arith) in
    let final : Host =
      in_host host (k' + 1 + 1 + 1 + 1 + 1 + 1 + 1)
        (record z { type = xfer_idle; stage = no_xfer; ep_seq = toggled x }) in
    (
      final,
      record x { ep_seq = toggled x },
      ap
            (λ (g : Host).
              incoming_run rand (bulk_in_script waits command pid leads first inps stop) g
                ulpi_bus_idle [])
            same
          ∙ tokens.run _ []
          ∙ comes.run _ _
          ∙ acks.run _ _
          ∙ ack_ends rand host z _ _ fits (omega arith),
      transfer_acked x fits,
      ap (λ (a : HostOp). record host { op = a; cycle = final.cycle; xfer = final.xfer }) (sym op),
      ap (λ (a : ℕ). record (final.xfer) { rx_ptr = a }) size,
      ap (λ (a : ℕ). take a final.xfer.rx) (sym size)
          ∙ take-filled y (first.dat.a ∷ taken inps) (omega arith)
          ∙ whole,
    )
