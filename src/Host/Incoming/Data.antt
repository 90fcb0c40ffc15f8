-- ===== src/Host/Incoming/Data.antt =====
-- The data packet of a bulk IN transaction of vpi/usb/usbhost.c under `usbh_step`, from the token to the
-- ACK.
use misc_verilog_cores.Base.{
  ℕ, suc, ◌+◌, ◌≤◌, ◌<◌, ◌≡◌, ◌≢◌, ap, ◌∙◌, true, Option, some, List, [], ◌∷◌, ◌++◌, length,
  length-append, map, All, arith,
}
use misc_verilog_cores.Crc.Packet.{trailer}
use misc_verilog_cores.Ulpi.{sig0, sig1, Bus, Transfer, XferType, dn_ack, no_xfer}
use misc_verilog_cores.Ulpi.Listen.{phy_bus}
use misc_verilog_cores.Ulpi.Packet.{turned, filled}
use misc_verilog_cores.Ulpi.Receive.{taken, InBody, is_up_data, body}
use misc_verilog_cores.Host.{Host}
use misc_verilog_cores.Host.StepLaws.{Released}
use misc_verilog_cores.Host.Transaction.Token.{at}
use misc_verilog_cores.Host.Incoming.{Passes, both}
use misc_verilog_cores.Host.Incoming.Packet.{packet_cycle}
use misc_verilog_cores.Host.Incoming.Start.{
  pid_byte, Expects, Quiet, Leads, start_script, start-Passes,
}
use misc_verilog_cores.Host.Incoming.End.{
  after_packet, first-Brings, stop_taken, end_script, end-Passes,
}

-- What the link does: it drives the packet up to its stop, then releases STP.
abbrev pub data_script : List Bus → Bus → Bus → List Bus → Bus → List Bus → Bus → List (Option Bus)
data_script waits command pid leads first inps stop =
    start_script waits command pid leads
    ++ (map some (first ∷ inps) ++ ((some stop ∷ []) ++ end_script))

module _ (rand : ℕ → ℕ) (host : Host) (x : Transfer) (t : XferType) (up : is_up_data t ≡ true) where
  stop-Passes :
      (w d : List ℕ) (stop : Bus) (k : ℕ) (bus : Bus)
      → w ≡ d ++ trailer d
      → length w ≤ length x.rx
      → (stop.dir ≡ sig0) × (stop.stp ≡ sig1)
      → stop.rst_n ≡ sig1
      → k + 5 < 4294967296
      → (c1 : ℕ) × (c2 : ℕ) × Passes rand host
          ((some stop ∷ []) ++ end_script)
          k
          (body t x (filled x w) (length w))
          bus
          (k + 1 + 1 + 1 + 1 + 1)
          (at dn_ack no_xfer (after_packet (record x { type = t }) w (length d) c1 c2))
          (phy_bus 0 0 0x00 0xFF)
          []
  stop-Passes w d stop k bus e fits s r small =
      let size : length w ≡ length d + 2 = ap length e ∙ length-append d (trailer d) in
      let (c1, c2, step) = stop_taken rand host x t up w d stop e fits s.0 s.1 in
      let z = after_packet (record x { type = t }) w (length d) c1 c2 in
      let some_bytes : length w ≢ 0 = λ zero_bytes. omega arith in
      (
        c1,
        c2,
        both rand host
            (packet_cycle rand host x t up stop k (body t x (filled x w) (length w)) z bus
              (turned stop) r (omega arith) step (ground arith) (ground arith))
            (end-Passes rand host t up z some_bytes (k + 1) _ (omega arith)),
      )

  pub data-Passes :
      (d : List ℕ) (waits leads inps : List Bus) (command pid first stop : Bus) (k : ℕ) (bus : Bus)
      → Expects x t
      → All Quiet waits
      → command.dat.a ≢ 0x00
      → (pid.dir ≡ sig0) × (pid.nxt ≡ sig1) × (pid.dat.b ≡ 0x00) × (pid.dat.a ≡ pid_byte t)
      → All Leads leads
      → All InBody (first ∷ inps)
      → first.nxt ≡ sig1
      → first.dat.a ∷ taken inps ≡ d ++ trailer d
      → (stop.dir ≡ sig0) × (stop.stp ≡ sig1)
      → All Released waits
      → All Released (command ∷ pid ∷ stop ∷ [])
      → All Released leads
      → All Released (first ∷ inps)
      → length d + 2 ≤ length x.rx
      → k + length waits + length leads + 2 < x.cycle
      → k + length waits + length leads + length inps + 8 < 4294967296
      → (c1 : ℕ) × (c2 : ℕ) × Passes rand host
          (data_script waits command pid leads first inps stop)
          k
          (record x { type = t; stage = no_xfer })
          bus
          (k + length waits + 1 + 1 + length leads + suc (length inps) + 1 + 1 + 1 + 1 + 1)
          (at dn_ack no_xfer
            (after_packet (record x { type = t }) (first.dat.a ∷ taken inps) (length d) c1 c2))
          (phy_bus 0 0 0x00 0xFF)
          []
  data-Passes d waits leads inps command pid first stop k bus e qw c is_pid ql b n all stops
        released r rl rb room early small =
      let w = first.dat.a ∷ taken inps in
      let size : suc (length (taken inps)) ≡ length d + 2 =
        ap length all ∙ length-append d (trailer d) in
      let (o, starts) =
        start-Passes rand host x t up waits leads command pid k bus e qw released c is_pid
          (r.0, (r.1.0, tt)) ql rl early (omega arith) in
      let k' = k + length waits + 1 + 1 + length leads in
      let (o', fills) =
        first-Brings rand host x t up first inps k' o n b rb (omega arith) (omega arith) in
      let (c1, c2, ends) =
        stop-Passes w d stop (k' + suc (length inps)) o' all (omega arith) stops r.1.1.0
          (omega arith) in
      (c1, c2, both rand host starts (both rand host fills ends))
