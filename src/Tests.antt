-- ===== src/Tests.antt =====
-- Runs of the model at concrete inputs: the packets and states here are test data.
mod Crc
mod Transfers
mod Device
mod Hosts
mod Phys
mod Descriptors
mod Suites
mod Tasks
mod Transactions
mod Incoming
mod Packets
mod Fifos
use misc_verilog_cores.Base.{ℕ, ◌+◌, ◌*◌, List, [], ◌∷◌}
use misc_verilog_cores.Ulpi.{
  ulpi_bus_idle, Bus, byte, sig0, sig1, Transfer, up_data0, dn_data0, dn_data1, out_token,
  datax_body,
}
use misc_verilog_cores.Host.{Host, host_idle, host_buf_len, guardian, zero_transfer, host_reset}
use misc_verilog_cores.Func.{Func, func_idle}
use misc_verilog_cores.Phy.{Phy, phy_idle, ulpi_reg_defaults}
use misc_verilog_cores.Cases.{Calls}
use misc_verilog_cores.Fifo.{Sigs, TcState}

-- A byte that the link drives, in a cycle where the PHY takes it or makes the link wait.
abbrev pub link_bus : ℕ → ℕ → ℕ → Bus
link_bus nxt stp x = record {
  clock = sig1;
  rst_n = sig1;
  dir = sig0;
  stp = stp;
  nxt = nxt;
  dat = byte x 0x00;
}

abbrev pub received : Transfer
received = record zero_transfer { type = up_data0; stage = datax_body }

-- The bytes 0x12 and 0x34 with their CRC, with a wait state.
abbrev pub good_cycles : List Bus
good_cycles =
    link_bus sig1 sig0 0x12
    ∷ link_bus sig0 sig0 0x34
    ∷ link_bus sig1 sig0 0x34
    ∷ link_bus sig1 sig0 0xF3
    ∷ link_bus sig1 sig0 0x38
    ∷ []

abbrev pub stop_cycle : Bus
stop_cycle = link_bus sig0 sig1 0x00

abbrev pub out_transfer : Transfer
out_transfer = record zero_transfer {
  type = out_token;
  address = 9;
  endpoint = 2;
  tok1 = 0x09;
  tok2 = 0xB1;
}

abbrev pub idle_device : Func
idle_device = record {
  cycle = 0;
  op = host_reset;
  state = func_idle;
  step = 0;
  xfer = zero_transfer;
  turnaround = 0;
  addr = 0;
}

abbrev pub idle_host : Host
idle_host = record {
  cycle = 3000;
  op = host_idle;
  step = 0;
  prev = ulpi_bus_idle;
  xfer = zero_transfer;
  sof_count = 0x123;
  turnaround = 0;
  addr = 9;
  error_count = 0;
  len = host_buf_len;
  buf = [];
  guard = guardian;
}

abbrev pub idle_phy : Phy
idle_phy = record {
  state = record {
    timer = 0;
    op = phy_idle;
    rx_cmd = 0x4C;
    regs = ulpi_reg_defaults;
    regnum = 0;
    update = 0;
    speed = 0;
  };
  bus = ulpi_bus_idle;
  xfer = zero_transfer;
}

-- The answers of `rand` and of `malloc`.
abbrev pub calls : Calls
calls = record { rand = λ k. 17 * k + 5; memory = 0 ∷ 0 ∷ 0 ∷ 0 ∷ 0 ∷ 0 ∷ 0 ∷ 0 ∷ [] }

-- The signals of a FIFO at rest, and a packet of three bytes.
abbrev pub quiet : Sigs
quiet = record {
  clock = sig1;
  reset = sig0;
  level = byte 0 0;
  drop_sig = sig0;
  save = sig0;
  redo = sig0;
  next = sig0;
  w_vld = sig0;
  w_rdy = sig1;
  w_lst = sig0;
  w_dat = byte 0 0xFF;
  r_vld = sig0;
  r_rdy = sig1;
  r_lst = sig0;
  r_dat = byte 0 0;
}

abbrev pub three_bytes : TcState
three_bytes = record { step = 1; size = 3; head = 0; tail = 0; buf = 7 ∷ 8 ∷ 9 ∷ 10 ∷ [] }
