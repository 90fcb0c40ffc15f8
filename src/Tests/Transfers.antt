-- ===== src/Tests/Transfers.antt =====
-- Tests of the step functions of the host.
use misc_verilog_cores.Base.{
  ℕ, ◌≡◌, ◌≢◌, refl, true, pos, negsuc, ok, some, fault, bounds, List, [], ◌∷◌, ◌++◌, get_or, take,
  replicate, arith,
}
use misc_verilog_cores.Crc.{crc16_calc, crc16_bytes, crc16_rounds, crc16_round}
use misc_verilog_cores.Ulpi.{
  Bus, Transfer, sig0, sig1, xfer_idle, no_xfer, datax_stop, dn_data0, out_token, transfer_ack,
  transfer_type_to_pid, check_seq, usbpid_data0, usbpid_data1, stepped,
}
use misc_verilog_cores.Ulpi.Step.Send.{datax_send_step}
use misc_verilog_cores.Ulpi.Step.Token.{token_send_step}
use misc_verilog_cores.Ulpi.Run.{ulpi_step_with}
use misc_verilog_cores.Ulpi.Listen.{listen, packet_log, phy_bus}
use misc_verilog_cores.Ulpi.Laws.{transfer_ack_parity}
use misc_verilog_cores.Ulpi.TokenRun.{token_send_run}
use misc_verilog_cores.Ulpi.SendRun.{datax_send_run}
use misc_verilog_cores.Ulpi.Receive.{receive}
use misc_verilog_cores.Ulpi.Packet.{receive_packet, receive_damaged}
use misc_verilog_cores.Ulpi.Overrun.{receive_overrun}
use misc_verilog_cores.Host.{zero_transfer}
use misc_verilog_cores.Tests.{received, good_cycles, stop_cycle, link_bus, out_transfer}

receive_packet_example :
    (y : Transfer) × (o : Bus) × (receive (good_cycles ++ stop_cycle ∷ []) received stop_cycle
      ≡ stepped (pos 0) y o)
    × (y.stage ≡ datax_stop)
    × (y.rx_len ≡ pos 2)
    × (take 2 y.rx ≡ 0x12 ∷ 0x34 ∷ [])
unfolding crc16_calc crc16_bytes crc16_rounds crc16_round
receive_packet_example =
    receive_packet received good_cycles stop_cycle stop_cycle refl refl refl (ground arith) refl
      refl (0x12 ∷ 0x34 ∷ []) refl (omega arith)

abbrev damaged_cycles : List Bus
damaged_cycles =
    link_bus sig1 sig0 0x13
    ∷ link_bus sig1 sig0 0x34
    ∷ link_bus sig1 sig0 0xF3
    ∷ link_bus sig1 sig0 0x38
    ∷ []

receive_damaged_example :
    (z : Transfer) × (o : Bus) × (receive (damaged_cycles ++ stop_cycle ∷ []) received stop_cycle
      ≡ stepped (negsuc 0) z o)
unfolding crc16_calc crc16_bytes crc16_rounds crc16_round
receive_damaged_example =
    receive_damaged received damaged_cycles stop_cycle stop_cycle refl refl refl (ground arith) refl
      refl (0x12 ∷ 0x34 ∷ []) [] (0x34 ∷ 0xF3 ∷ 0x38 ∷ []) 0x12 0x13 (omega arith) (omega arith)
      refl refl (omega arith) (omega arith) (λ p. omega arith)

-- With a buffer of three bytes the four bytes of the packet do not fit.
receive_overrun_example :
    receive good_cycles (record received { rx = replicate 3 0 }) stop_cycle ≡ fault bounds
receive_overrun_example =
    receive_overrun (record received { rx = replicate 3 0 }) good_cycles stop_cycle refl refl refl
      (ground arith) (omega arith)

token_send_run_example :
    ulpi_step_with token_send_step listen 9 out_transfer []
    ≡ ok (
        some (record {
          code = pos 1;
          xfer = record out_transfer { type = xfer_idle; stage = no_xfer };
          user = packet_log (transfer_type_to_pid out_token ∷ 0x09 ∷ 0xB1 ∷ []);
          bus = phy_bus 0 0 0x00 0xFF;
        }))
token_send_run_example = token_send_run 9 out_transfer (omega arith) refl

abbrev two_to_send : Transfer
two_to_send = record zero_transfer {
  type = dn_data0;
  tx = 0x12 ∷ 0x34 ∷ [];
  tx_len = 2;
  crc1 = 0xF3;
  crc2 = 0x38;
}

datax_send_run_example :
    ulpi_step_with datax_send_step listen 11 two_to_send []
    ≡ ok (
        some (record {
          code = pos 1;
          xfer = record two_to_send { type = xfer_idle; stage = no_xfer; tx_ptr = 2 };
          user = packet_log (0xC3 ∷ 0x12 ∷ 0x34 ∷ 0xF3 ∷ 0x38 ∷ []);
          bus = phy_bus 0 0 0x00 0xFF;
        }))
datax_send_run_example = datax_send_run 11 two_to_send refl refl refl (omega arith) (omega arith)

transfer_ack_parity_example :
    (y : Transfer) × (transfer_ack out_transfer ≡ ok y)
    × (check_seq out_transfer usbpid_data0 ≡ true → check_seq y usbpid_data1 ≡ true)
    × (check_seq out_transfer usbpid_data1 ≡ true → check_seq y usbpid_data0 ≡ true)
    × ((e : ℕ) → e ≢ 2 → get_or y.ep_seq e 0 ≡ get_or out_transfer.ep_seq e 0)
transfer_ack_parity_example = transfer_ack_parity out_transfer (omega arith) refl
