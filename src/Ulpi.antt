-- ===== src/Ulpi.antt =====
-- vpi/usb/ulpi.h and the helpers of vpi/usb/ulpi.c: the ULPI bus, the transfer, and what is set
-- and tested on them.
mod Signals
pub mod Step
pub mod Laws
pub mod Run
pub mod Listen
pub mod TokenRun
pub mod SendRun
pub mod Receive
pub mod Packet
pub mod Overrun
pub mod Check
pub mod Handshake
pub use Signals.*
use misc_verilog_cores.Base.{
  ℕ, ◌+◌, bit_and, bit_or, bit_xor, u8, u16, shl, shr, Bool, true, false, ◌&&◌, ◌||◌, ◌==◌, ◌!=◌,
  ltb, if◌then◌else◌, List, Option, none, some, get_or, ℤ, pos, Result, ok, ◌>>=◌, load, store,
}
use misc_verilog_cores.Crc.{crc5_calc}

-- What a step function leaves: its return value, the state it updates and `*out`.
pub record Stepped (S : Type 0) : Type 0 where
  pub code : ℤ
  pub state : S
  pub out : Bus

abbrev pub stepped : {S : Type 0} → ℤ → S → Bus → Result (Stepped S)
stepped c s o = ok (record { code = c; state = s; out = o })

unfoldable pub phy_bus_release : Bus → Bus
phy_bus_release bus = record bus { dir = sig0; nxt = sig0; dat = byte 0x00 0xff }

unfoldable pub ulpi_bus_is_idle : Bus → Bool
ulpi_bus_is_idle bus =
    bus.rst_n == sig1
    && (bus.dat.a == 0x00
        && (bus.dat.b == 0x00 && (bus.dir == sig0 && (bus.nxt == sig0 && bus.stp == sig0))))

unfoldable pub check_pid : Bus → Bool
check_pid bus =
    if bus.dat.b != 0x00
    then false
    else u8 (bit_xor (shr bus.dat.a 4) 0x0f) == bit_and bus.dat.a 0x0f

-- `endpoint & 0x0f` stays within the 16 entries.
unfoldable pub check_seq : Transfer → ℕ → Bool
check_seq xfer pid =
    let seq = get_or xfer.ep_seq (bit_and xfer.endpoint 0x0f) 0 in
    pid == usbpid_data0 && seq == 0 || pid == usbpid_data1 && seq == 1

abbrev pub ulpi_bus_idle : Bus
ulpi_bus_idle = record {
  clock = sig1;
  rst_n = sig1;
  dir = sig0;
  stp = sig0;
  nxt = sig0;
  dat = byte 0x00 0x00;
}

unfoldable pub transfer_out : Transfer → ℕ → ℕ → Transfer
transfer_out xfer addr ep = record xfer {
  address = addr;
  endpoint = ep;
  type = out_token;
  stage = no_xfer;
  tx_len = 0;
  tx_ptr = 0;
}

unfoldable pub transfer_in : Transfer → ℕ → ℕ → Transfer
transfer_in xfer addr ep = record xfer {
  address = addr;
  endpoint = ep;
  type = in_token;
  stage = no_xfer;
  rx_len = pos 0;
  rx_ptr = 0;
}

-- The endpoint is not masked here, so one past the 16 entries is a fault.
unfoldable pub transfer_ack : Transfer → Result Transfer
transfer_ack xfer = do
  seq ← load xfer.ep_seq xfer.endpoint
  toggled ← store xfer.ep_seq xfer.endpoint (if seq == sig0 then sig1 else sig0)
  ok (record xfer { ep_seq = toggled })

unfoldable pub transfer_tok : Transfer → Transfer
transfer_tok xfer =
    let ad = bit_and xfer.address 0x7F in
    let ep = shl (bit_and xfer.endpoint 0x0F) 7 in
    let tok = crc5_calc (bit_or ad ep) in record xfer { tok1 = bit_and tok 0xFF; tok2 = shr tok 8 }

unfoldable pub sof_frame : Transfer → Transfer
sof_frame xfer = record xfer {
  address = 0;
  endpoint = 0;
  type = sof;
  stage = no_xfer;
  cycle = 0;
  rx_len = pos 0;
  rx_ptr = 0;
  tx_len = 0;
  tx_ptr = 0;
}

-- The switch of `transfer_type_to_pid`; `none` is its `default`.
abbrev pub base_pid : XferType → Option ℕ
base_pid setup = some usbpid_setup
base_pid out_token = some usbpid_out
base_pid in_token = some usbpid_in
base_pid sof = some usbpid_sof
base_pid ping = some usbpid_ping
base_pid dn_ack = some usbpid_ack
base_pid up_ack = some usbpid_ack
base_pid up_nak = some usbpid_nak
base_pid up_nyet = some usbpid_nyet
base_pid up_stall = some usbpid_stall
base_pid dn_data0 = some usbpid_data0
base_pid up_data0 = some usbpid_data0
base_pid dn_data1 = some usbpid_data1
base_pid up_data1 = some usbpid_data1
base_pid _ = none

unfoldable pub transfer_type_to_pid : XferType → ℕ
transfer_type_to_pid t = elim (base_pid t) [
  | none ↦ 255
  | some pid ↦
      if ltb (type_number t) (type_number up_ack)
      then u8 (bit_or pid (bit_xor (shl pid 4) 0xF0))
      else bit_or pid 0x10
]
