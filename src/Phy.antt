-- ===== src/Phy.antt =====
-- vpi/usb/ulpiphy.h, and the helpers of vpi/usb/ulpiphy.c: the simulated ULPI PHY.
pub mod Command
pub mod Step
pub mod Run
pub mod Registers
pub mod Start
pub mod ChirpCycles
pub mod Chirp
use misc_verilog_cores.Base.{
  ℕ, bit_and, Bool, true, false, ◌&&◌, ◌==◌, ◌!=◌, if◌then◌else◌, List, [], ◌∷◌, Result, ok, ◌>>=◌,
  load,
}
use misc_verilog_cores.Ulpi.{
  sig0, sig1, sigz, sigx, byte, Bus, Transfer, xfer_idle, no_xfer, type_number, stage_number,
  ulpi_bus_is_idle,
}

-- `ulpi_phy_op_t`.
pub data PhyOp : Type 0 where
  disconnected error_reset_b undefined power_on ref_clk_valid starting wait_for_idle : PhyOp
  status_rxcmd phy_idle phy_recv phy_send phy_regw phy_regi phy_stop phy_regr : PhyOp
  phy_regz phy_rego phy_suspend phy_resume phy_chirp_j phy_chirp_k host_chirp : PhyOp

-- `line_speed_t`; the state keeps it in a `uint8_t`.
abbrev pub full_speed : ℕ
full_speed = 0

abbrev pub host_se0 : ℕ
host_se0 = 1

abbrev pub func_chirp_k : ℕ
func_chirp_k = 2

abbrev pub host_chirp_k1 : ℕ
host_chirp_k1 = 3

abbrev pub host_chirp_j1 : ℕ
host_chirp_j1 = 4

abbrev pub host_chirp_k2 : ℕ
host_chirp_k2 = 5

abbrev pub host_chirp_j2 : ℕ
host_chirp_j2 = 6

abbrev pub host_chirp_k3 : ℕ
host_chirp_k3 = 7

abbrev pub host_chirp_j3 : ℕ
host_chirp_j3 = 8

abbrev pub high_speed : ℕ
high_speed = 9

-- `phy_state_t`.
pub record PhyState : Type 0 where
  pub timer : ℕ
  pub op : PhyOp
  pub rx_cmd : ℕ
  pub regs : List ℕ
  pub regnum : ℕ
  pub update : ℕ
  pub speed : ℕ

-- `ulpi_phy_t`.
pub record Phy : Type 0 where
  pub state : PhyState
  pub bus : Bus
  pub xfer : Transfer

abbrev pub uphy_txcmd_mask : ℕ
uphy_txcmd_mask = 0xC0

abbrev pub uphy_xmit_bits : ℕ
uphy_xmit_bits = 0x40

abbrev pub uphy_regw_bits : ℕ
uphy_regw_bits = 0x80

abbrev pub uphy_regr_bits : ℕ
uphy_regr_bits = 0xC0

abbrev pub uphy_reg_fn_ctrl : ℕ
uphy_reg_fn_ctrl = 4

abbrev pub uphy_delay_2_5_us : ℕ
uphy_delay_2_5_us = 150

-- Neither `__short_timers` nor `__long_timers` is defined.
abbrev pub uphy_chirpk_timer : ℕ
uphy_chirpk_timer = 60

abbrev pub host_chirpk_timer : ℕ
host_chirpk_timer = 30

abbrev pub ulpi_reg_defaults : List ℕ
ulpi_reg_defaults = 0x24 ∷ 0x04 ∷ 0x06 ∷ 0x00 ∷ 0x41 ∷ 0x41 ∷ 0x41 ∷ 0x00 ∷ 0x00 ∷ 0x00 ∷ []

abbrev pub is_phy_idle : PhyOp → Bool
is_phy_idle phy_idle = true
is_phy_idle _ = false

unfoldable pub ulpi_phy_is_idle : Phy → Bool
ulpi_phy_is_idle phy =
    is_phy_idle phy.state.op
    && (ulpi_bus_is_idle phy.bus
        && (type_number phy.xfer.type == type_number xfer_idle
            && stage_number phy.xfer.stage == stage_number no_xfer))

-- `a & UPHY_TXCMD_MASK == bits`: `==` binds tighter than `&`, so the mask is the truth value of
-- `UPHY_TXCMD_MASK == bits`.
abbrev txcmd_test : ℕ → ℕ → Bool
txcmd_test a bits = bit_and a (if uphy_txcmd_mask == bits then 1 else 0) != 0

abbrev is_command : ℕ → Phy → Bus → Bool
is_command bits phy inp =
    ulpi_phy_is_idle phy
    && (inp.rst_n == sig1 && (inp.dir == sig0 && (inp.dat.b == 0x00 && txcmd_test inp.dat.a bits)))

unfoldable pub ulpi_phy_is_reg_read : Phy → Bus → Bool
ulpi_phy_is_reg_read phy inp = is_command uphy_regr_bits phy inp

unfoldable pub ulpi_phy_is_reg_write : Phy → Bus → Bool
ulpi_phy_is_reg_write phy inp = is_command uphy_regw_bits phy inp

unfoldable pub ulpi_phy_is_chirp : Phy → Result Bool
ulpi_phy_is_chirp phy = do
  ctrl ← load phy.state.regs uphy_reg_fn_ctrl
  ok (bit_and ctrl 0x1C == 0x14)

unfoldable pub uphy_reset : Phy → Phy
uphy_reset phy = record phy {
  state = record (phy.state) { regs = ulpi_reg_defaults; rx_cmd = 0x4C; op = power_on };
}

-- `memory` is what `malloc` returns.
unfoldable pub phy_init : Phy → Phy
phy_init memory = record (uphy_reset memory) {
  bus = record {
    clock = sigx;
    rst_n = sigx;
    dir = sigz;
    stp = sigx;
    nxt = sigz;
    dat = byte 0x00 0xff;
  };
}
