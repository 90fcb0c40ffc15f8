-- ===== src/Func.antt =====
-- vpi/usb/usbfunc.h and the top of vpi/usb/usbfunc.c: the simulated USB function (device).
pub mod Recv
pub mod Send
pub mod Step
pub mod Token
pub mod Deaf
use misc_verilog_cores.Base.{ℕ}
use misc_verilog_cores.Ulpi.{Transfer}
use misc_verilog_cores.Host.{HostOp, host_reset}

-- `usbf_state`.
pub data FuncState : Type 0 where
  func_idle func_recv func_rxcmd func_rx_pid func_busy func_eot : FuncState

-- `usb_func_t`.
pub record Func : Type 0 where
  pub cycle : ℕ
  pub op : HostOp
  pub state : FuncState
  pub step : ℕ
  pub xfer : Transfer
  pub turnaround : ℕ
  pub addr : ℕ

unfoldable pub usbf_init : Func → Func
usbf_init func = record func { cycle = 0; op = host_reset; step = 0; turnaround = 0; addr = 0 }
