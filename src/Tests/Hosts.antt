-- ===== src/Tests/Hosts.antt =====
-- Tests of the host's state machine.
use misc_verilog_cores.Base.{ok}
use misc_verilog_cores.Ulpi.{up_ack, xfer_idle, ulpi_bus_is_idle}
use misc_verilog_cores.Ulpi.Handshake.{IsIdle}
use misc_verilog_cores.Host.TimeOut.{ack_times_out}
use misc_verilog_cores.Base.{
  zero, suc, length-replicate, ℕ, ◌+◌, ◌*◌, ◌/◌, ◌%◌, ◌≡◌, refl, true, pos, List, [], ◌∷◌, ◌++◌,
  take, replicate, All, arith,
}
use misc_verilog_cores.Crc.{crc5_check, crc16_check}
use misc_verilog_cores.Ulpi.{
  no_xfer, datax_body, Bus, byte, sig1, setup, line_idle, dn_data0, sof, ulpi_bus_idle, stepped,
}
use misc_verilog_cores.Ulpi.SendRun.{InSequence, payload}
use misc_verilog_cores.Host.{Host, host_reset, host_idle, host_sof, host_setup, host_bulk_out}
use misc_verilog_cores.Host.Request.{StdReq, request_bytes, stdreq_start, get_descriptor}
use misc_verilog_cores.Host.RequestLaws.{stdreq_start_lem}
use misc_verilog_cores.Host.Step.{usbh_step}
use misc_verilog_cores.Host.StepLaws.{usbh_run, Released, reset_ends, frame_starts}
use misc_verilog_cores.Host.Throttle.{send_data, wait_states_lose_nothing}
use misc_verilog_cores.Ulpi.Listen.{phy_bus}
use misc_verilog_cores.Tests.{idle_host}

abbrev resetting_host : Host
resetting_host = record idle_host { op = host_reset }

abbrev idle_cycles : List Bus
idle_cycles = replicate 6000 ulpi_bus_idle

replicate-Released : (n : ℕ) → All Released (replicate n ulpi_bus_idle)
replicate-Released zero = tt
replicate-Released (suc n) = (refl, replicate-Released n)

reset_ends_example :
    (h : Host) × (o : Bus) × (usbh_run 0 idle_cycles resetting_host ulpi_bus_idle
      ≡ stepped (pos 0) h o)
    × (h.op ≡ host_idle)
    × (h.step ≡ 0)
reset_ends_example =
    reset_ends 0 idle_cycles resetting_host ulpi_bus_idle refl refl refl (replicate-Released 6000)
      (length-replicate 6000 ulpi_bus_idle)

frame_starts_example :
    (h : Host) × (usbh_step 0 idle_host ulpi_bus_idle ulpi_bus_idle
      ≡ stepped (pos 0) h (record ulpi_bus_idle { dir = sig1; nxt = sig1; dat = byte 0x00 0xFF }))
    × (h.op ≡ host_sof)
    × (h.xfer.type ≡ sof)
    × (h.sof_count ≡ (0x123 + 1) % 65536)
    × ((h.xfer.tok1 + 256 * h.xfer.tok2) % 2048 ≡ 0x123 / 8 % 2048)
    × (crc5_check (h.xfer.tok1 + 256 * h.xfer.tok2) ≡ true)
frame_starts_example =
    frame_starts 0 idle_host ulpi_bus_idle ulpi_bus_idle refl refl refl refl (omega arith)

abbrev ending_host : Host
ending_host = record idle_host {
  op = host_setup;
  xfer = record (idle_host.xfer) { type = setup; stage = line_idle };
}

abbrev device_request : StdReq
device_request = get_descriptor 0x0100 0 64 []

stdreq_start_lem_example :
    let x = (stdreq_start idle_host device_request).1.xfer in
    let tok = x.tok1 + 256 * x.tok2 in
    ((stdreq_start idle_host device_request).0 ≡ pos 1)
    × ((stdreq_start idle_host device_request).1.op ≡ host_setup)
    × ((stdreq_start idle_host device_request).1.step ≡ 0)
    × (x.type ≡ setup)
    × (x.stage ≡ no_xfer)
    × (x.tx_ptr ≡ 0)
    × (x.rx_ptr ≡ 0)
    × (crc5_check tok ≡ true)
    × (tok % 2048 ≡ 9 % 128)
    × InSequence dn_data0 x
    × (take x.tx_len x.tx ≡ request_bytes device_request)
    × (crc16_check (payload x x.tx_len ++ x.crc2 ∷ []) ≡ true)
stdreq_start_lem_example = stdreq_start_lem idle_host device_request (omega arith)

abbrev half_sent : Host
half_sent = record idle_host {
  op = host_bulk_out;
  xfer = record (idle_host.xfer) {
    type = dn_data0;
    stage = datax_body;
    tx = 0x11 ∷ 0x22 ∷ 0x33 ∷ [];
    tx_len = 3;
    tx_ptr = 1;
  };
}

-- The first two of the results of `rand()` ask for wait states.
wait_states_lose_nothing_example :
    (o : Bus) × (send_data (15 ∷ 31 ∷ 0 ∷ 47 ∷ []) half_sent (phy_bus 1 1 0x11 0x00)
      ≡ ok
          (0x22 ∷ 0x33 ∷ [], record half_sent { xfer = record (half_sent.xfer) { tx_ptr = 3 } }, o))
wait_states_lose_nothing_example =
    wait_states_lose_nothing (15 ∷ 31 ∷ 0 ∷ 47 ∷ []) half_sent (phy_bus 1 1 0x11 0x00) refl refl
      refl (omega arith) (omega arith) (omega arith)

abbrev waiting_host : Host
waiting_host = record idle_host {
  op = host_bulk_out;
  xfer = record (idle_host.xfer) { type = up_ack; cycle = 3040 };
}

replicate-IsIdle : (n : ℕ) → All IsIdle (replicate n ulpi_bus_idle)
unfolding ulpi_bus_is_idle
replicate-IsIdle zero = tt
replicate-IsIdle (suc n) = (refl, replicate-IsIdle n)

ack_times_out_example :
    (h : Host) × (o : Bus) × (usbh_run 0 (replicate 40 ulpi_bus_idle) waiting_host ulpi_bus_idle
      ≡ stepped (pos 1) h o)
    × (h.cycle ≡ 3040)
    × (h.xfer.type ≡ xfer_idle)
    × (h.xfer.ep_seq ≡ waiting_host.xfer.ep_seq)
    × (h.xfer.tx ≡ waiting_host.xfer.tx)
ack_times_out_example =
    ack_times_out 0 (replicate 40 ulpi_bus_idle) waiting_host ulpi_bus_idle refl refl refl
      (omega arith) (omega arith) (replicate-IsIdle 40) (length-replicate 40 ulpi_bus_idle)
