-- ===== src/Tests/Incoming.antt =====
-- A bulk IN transaction at concrete inputs.
use misc_verilog_cores.Base.{
  ℕ, ◌+◌, ◌≡◌, refl, pos, zero, suc, All, replicate, List, [], ◌∷◌, ◌++◌, take, ok, arith,
}
use misc_verilog_cores.Crc.{crc16_calc, crc16_bytes, crc16_rounds, crc16_round}
use misc_verilog_cores.Crc.Packet.{trailer}
use misc_verilog_cores.Ulpi.{
  sig0, sig1, Bus, Transfer, in_token, xfer_idle, no_xfer, ulpi_bus_idle, ulpitx_data1,
  transfer_ack,
}
use misc_verilog_cores.Ulpi.Listen.{phy_bus}
use misc_verilog_cores.Host.{Host, host_bulk_in, turnaround_timer}
use misc_verilog_cores.Host.Incoming.{incoming_run}
use misc_verilog_cores.Host.Incoming.Silence.{silent_script, bulk_in_times_out}
use misc_verilog_cores.Host.Incoming.Start.{Quiet}
use misc_verilog_cores.Host.StepLaws.{Released}
use misc_verilog_cores.Host.Incoming.Whole.{bulk_in_script, bulk_in_transaction}
use misc_verilog_cores.Tests.{idle_host, link_bus, stop_cycle}

-- The host expects a DATA1 packet of endpoint 1.
abbrev opening_host : Host
opening_host = record idle_host {
  op = host_bulk_in;
  xfer = record (idle_host.xfer) {
    type = in_token;
    ep_seq = 0 ∷ 1 ∷ [];
    endpoint = 1;
    tok1 = 0x89;
  };
}

abbrev quiet_link : List Bus
quiet_link = link_bus sig0 sig0 0x00 ∷ link_bus sig0 sig0 0x00 ∷ []

-- The PHY makes the link wait before the first byte.
abbrev lead_cycles : List Bus
lead_cycles = link_bus sig0 sig0 0x12 ∷ []

abbrev further_cycles : List Bus
further_cycles =
    link_bus sig0 sig0 0x34
    ∷ link_bus sig1 sig0 0x34
    ∷ link_bus sig1 sig0 0xF3
    ∷ link_bus sig1 sig0 0x38
    ∷ []

-- `rand()` asks for a wait state in every cycle.
abbrev always : ℕ → ℕ
always k = 15

bulk_in_transaction_example :
    (g : Host) × (y : Transfer) × (incoming_run always
        (bulk_in_script quiet_link
          (link_bus sig0 sig0 ulpitx_data1)
          (link_bus sig1 sig0 ulpitx_data1)
          lead_cycles
          (link_bus sig1 sig0 0x12)
          further_cycles
          stop_cycle)
        opening_host
        ulpi_bus_idle
        []
      ≡ ok (
        record { code = pos 1; state = g; out = phy_bus 0 0 0x00 0xFF },
        0x69 ∷ 0x89 ∷ opening_host.xfer.tok2 ∷ 0xD2 ∷ [],
      ))
    × (transfer_ack opening_host.xfer ≡ ok y)
    × (g ≡ record opening_host { cycle = g.cycle; xfer = g.xfer })
    × (g.xfer ≡ record y {
      type = xfer_idle;
      stage = no_xfer;
      cycle = opening_host.cycle + 9 + turnaround_timer;
      rx = g.xfer.rx;
      rx_ptr = 4;
      rx_len = pos 2;
      crc1 = g.xfer.crc1;
      crc2 = g.xfer.crc2;
    })
    × (take 4 g.xfer.rx ≡ (0x12 ∷ 0x34 ∷ []) ++ trailer (0x12 ∷ 0x34 ∷ []))
unfolding crc16_calc crc16_bytes crc16_rounds crc16_round
bulk_in_transaction_example =
    bulk_in_transaction always opening_host (0x12 ∷ 0x34 ∷ []) quiet_link lead_cycles further_cycles
      (link_bus sig0 sig0 ulpitx_data1) (link_bus sig1 sig0 ulpitx_data1) (link_bus sig1 sig0 0x12)
      stop_cycle refl refl refl (omega arith) (omega arith) (omega arith) (omega arith)
      (omega arith) (refl, (refl, tt)) (λ p. omega arith) (refl, refl, refl, refl)
      (((refl, λ p. omega arith), λ p. omega arith), tt)
      (
        (refl, λ p. omega arith),
        (
          (refl, λ p. omega arith),
          ((refl, λ p. omega arith), ((refl, λ p. omega arith), ((refl, λ p. omega arith), tt))),
        ),
      )
      refl refl (refl, refl) (refl, (refl, tt)) (refl, (refl, (refl, tt))) (refl, tt)
      (refl, (refl, (refl, (refl, (refl, tt))))) (omega arith)

abbrev no_data : Bus
no_data = link_bus sig0 sig0 0x00

abbrev silence : ℕ → List Bus
silence n = replicate n no_data

silence-Quiet : (n : ℕ) → All Quiet (silence n)
silence-Quiet zero = tt
silence-Quiet (suc n) = (refl, silence-Quiet n)

silence-Released : (n : ℕ) → All Released (silence n)
silence-Released zero = tt
silence-Released (suc n) = (refl, silence-Released n)

bulk_in_times_out_example :
    incoming_run always (silent_script (silence 39) no_data) opening_host ulpi_bus_idle []
    ≡ ok (
      record {
        code = pos 1;
        state = record opening_host {
          cycle = 3050;
          xfer = record (opening_host.xfer) { type = xfer_idle; cycle = 3049 };
        };
        out = no_data;
      },
      0x69 ∷ 0x89 ∷ opening_host.xfer.tok2 ∷ [],
    )
bulk_in_times_out_example =
    bulk_in_times_out always opening_host (silence 39) no_data refl refl refl refl (omega arith)
      (omega arith) (silence-Quiet 39) refl (silence-Released 39) refl refl
