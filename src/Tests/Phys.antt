-- ===== src/Tests/Phys.antt =====
-- Tests of the PHY.
use misc_verilog_cores.Base.{
  [], ℕ, zero, suc, ◌≡◌, refl, true, pos, fault, bounds, ◌∷◌, ◌++◌, set, length-replicate,
  replicate, All, arith,
}
use misc_verilog_cores.Ulpi.{Bus, byte, sig0, sig1, ulpi_bus_idle, ulpi_bus_is_idle, stepped}
use misc_verilog_cores.Phy.{Phy, phy_idle, ulpi_reg_defaults}
use misc_verilog_cores.Phy.Run.{phy_run}
use misc_verilog_cores.Phy.Registers.{
  write_cycles, read_cycles, register_round_trip, register_overrun,
}
use misc_verilog_cores.Phy.{high_speed}
use misc_verilog_cores.Phy.ChirpCycles.{phy_with_link}
use misc_verilog_cores.Phy.Chirp.{chirps_end}
use misc_verilog_cores.Phy.Start.{Quiet, start_up}
use misc_verilog_cores.Tests.{idle_phy}

bus_idle : ulpi_bus_is_idle ulpi_bus_idle ≡ true
unfolding ulpi_bus_is_idle
bus_idle = refl

register_round_trip_example :
    (q : Phy) × (o : Bus) × (phy_run (write_cycles 4 0x54 ++ read_cycles 4) idle_phy ulpi_bus_idle
      ≡ stepped (pos 0) q o)
    × (o.dir ≡ sig1)
    × (o.dat ≡ byte 0x54 0x00)
    × (q.state.regs ≡ set ulpi_reg_defaults 4 0x54)
register_round_trip_example =
    register_round_trip idle_phy 4 0x54 ulpi_bus_idle refl bus_idle (omega arith) (omega arith)

register_overrun_example : phy_run (write_cycles 0x16 0xFF) idle_phy ulpi_bus_idle ≡ fault bounds
register_overrun_example =
    register_overrun idle_phy 0x16 0xFF ulpi_bus_idle refl bus_idle (omega arith) (omega arith)

abbrev reset_bus : Bus
reset_bus = record ulpi_bus_idle { rst_n = sig0 }

-- The first cycle of reset finds the PHY driving the bus.
abbrev driven_reset : Bus
driven_reset = record reset_bus { dir = sig1; nxt = sig1 }

replicate-Quiet : (n : ℕ) → All Quiet (replicate n ulpi_bus_idle)
replicate-Quiet zero = tt
replicate-Quiet (suc n) = ((refl, refl, refl, refl), replicate-Quiet n)

start_up_example :
    (q : Phy) × (o : Bus) × (phy_run
        ((driven_reset ∷ []) ++ reset_bus ∷ replicate 152 ulpi_bus_idle)
        idle_phy
        ulpi_bus_idle
      ≡ stepped (pos 0) q o)
    × (q.state.op ≡ phy_idle)
    × (q.state.regs ≡ ulpi_reg_defaults)
start_up_example =
    start_up (driven_reset ∷ []) reset_bus (replicate 152 ulpi_bus_idle) idle_phy ulpi_bus_idle
      ((refl, refl), tt) (refl, refl) refl refl (replicate-Quiet 152)
      (length-replicate 152 ulpi_bus_idle)

-- The PHY with its transceiver set to chirps, at the first K chirp of the host.
abbrev chirping_phy : Phy
chirping_phy = record idle_phy {
  state = record (idle_phy.state) { regs = set ulpi_reg_defaults 4 0x54; speed = 3 };
}

chirps_end_example :
    (q : Phy) × (o : Bus) × (phy_with_link 200 chirping_phy ulpi_bus_idle ≡ stepped (pos 1) q o)
    × (q.state.op ≡ phy_idle)
    × (q.state.speed ≡ high_speed)
    × (q.state.regs ≡ set ulpi_reg_defaults 4 0x54)
chirps_end_example = chirps_end chirping_phy refl refl refl refl refl (omega arith, omega arith)
