-- ===== src/Host.antt =====
-- vpi/usb/usbhost.h and the set-up in vpi/usb/usbhost.c: the state of the simulated USB host.
pub mod Bulk
pub mod Request
pub mod Control
pub mod Step
pub mod Codes
pub mod ControlLaws
pub mod RequestLaws
pub mod StepLaws
pub mod Throttle
pub mod TimeOut
pub mod Run
pub mod Acknowledge
pub mod Opening
pub mod Transaction
pub mod Incoming
use misc_verilog_cores.Base.{ℕ, Bool, true, false, not, pos, List, replicate}
use misc_verilog_cores.Ulpi.{Bus, Transfer, xfer_idle, no_xfer, max_packet_size}

-- `host_op_t`.
pub data HostOp : Type 0 where
  host_error host_reset host_suspend host_resume host_idle host_sof host_setup : HostOp
  host_bulk_out host_bulk_in : HostOp

-- `usb_host_t`. `buf` is the memory behind the pointer of that name.
pub record Host : Type 0 where
  pub cycle : ℕ
  pub op : HostOp
  pub step : ℕ
  pub prev : Bus
  pub xfer : Transfer
  pub sof_count : ℕ
  pub turnaround : ℕ
  pub addr : ℕ
  pub error_count : ℕ
  pub len : ℕ
  pub buf : List ℕ
  pub guard : ℕ

abbrev pub host_buf_len : ℕ
host_buf_len = 16384

abbrev pub turnaround_timer : ℕ
turnaround_timer = 40

abbrev pub guardian : ℕ
guardian = 0xA5B43C690F87E12D

-- Neither `__short_timers` nor `__long_timers` is defined.
abbrev pub reset_ticks : ℕ
reset_ticks = 6000

abbrev pub sof_n_ticks : ℕ
sof_n_ticks = 1500

-- A transfer filled with zeros.
abbrev pub zero_transfer : Transfer
zero_transfer = record {
  address = 0;
  endpoint = 0;
  type = xfer_idle;
  stage = no_xfer;
  ep_seq = replicate 16 0;
  cycle = 0;
  tx = replicate max_packet_size 0;
  tx_len = 0;
  tx_ptr = 0;
  rx = replicate max_packet_size 0;
  rx_len = pos 0;
  rx_ptr = 0;
  tok1 = 0;
  tok2 = 0;
  crc1 = 0;
  crc2 = 0;
}

unfoldable pub usbh_reset : Host → Host
usbh_reset host = record host {
  op = host_reset;
  step = 0;
  turnaround = 0;
  addr = 0;
  error_count = 0;
  xfer = zero_transfer;
}

-- `memory` is what `malloc` returns.
unfoldable pub usbh_init : List ℕ → Host → Host
usbh_init memory host = record (usbh_reset host) {
  cycle = 0;
  sof_count = 0;
  buf = memory;
  len = host_buf_len;
  guard = guardian;
}

abbrev is_idle_op : HostOp → Bool
is_idle_op host_idle = true
is_idle_op _ = false

unfoldable pub usbh_busy : Host → Bool
usbh_busy host = not (is_idle_op host.op)
