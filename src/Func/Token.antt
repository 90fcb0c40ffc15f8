-- ===== src/Func/Token.antt =====
-- A token from the host's `token_send_step` to the device's `usbf_step`, on one bus.
use misc_verilog_cores.Base.{ℕ, ◌≤◌, ◌≡◌, refl, ap, ◌∙◌, true, pos, ok, some, Option, Result}
use misc_verilog_cores.Ulpi.{
  XferType, setup, out_token, in_token, sof, eop, Transfer, check_pid, ulpi_bus_is_idle,
  transfer_type_to_pid,
}
use misc_verilog_cores.Ulpi.Step.Eop.{drive_eop}
use misc_verilog_cores.Ulpi.Step.Token.{token_send_step}
use misc_verilog_cores.Ulpi.Run.{Finished, ulpi_step_with, step_loop, ulpi_step_with_more}
use misc_verilog_cores.Ulpi.Listen.{phy_bus}
use misc_verilog_cores.Ulpi.TokenRun.{is_token}
use misc_verilog_cores.Host.{HostOp, host_sof, host_setup, host_bulk_out, host_bulk_in, host_idle}
use misc_verilog_cores.Func.{Func, FuncState, func_idle, func_busy}
use misc_verilog_cores.Func.Recv.{fn_token_recv_step, token_recv_at, ulpi_bus_rx}
use misc_verilog_cores.Func.Step.{usbf_step, func_xfer_step}

-- The operation that a token starts in the device.
abbrev pub op_of : XferType → HostOp
op_of setup = host_setup
op_of out_token = host_bulk_out
op_of in_token = host_bulk_in
op_of sof = host_sof
op_of _ = host_idle

-- The device behind a token of type `t`.
abbrev pub with_token : XferType → Transfer → Func → Func
with_token t xfer func = record func {
  op = op_of t;
  state = func_busy;
  step = 1;
  xfer = record (func.xfer) { type = t; stage = eop; tok1 = xfer.tok1; tok2 = xfer.tok2 };
}

abbrev delivered : XferType → Transfer → Func → Result (Option (Finished Func))
delivered t xfer func = ok (
    some (record {
      code = pos 1;
      xfer = record xfer { type = t; stage = eop };
      user = with_token t xfer func;
      bus = phy_bus 1 0 0x4D 0x00;
    }))

deliver_of :
    (t : XferType) (xfer : Transfer) (func : Func)
    → is_token t ≡ true
    → ulpi_step_with token_send_step usbf_step 7
        (record xfer { type = t })
        (record func { state = func_idle })
      ≡ delivered t xfer func
unfolding ulpi_step_with step_loop token_send_step drive_eop transfer_type_to_pid usbf_step
    func_xfer_step fn_token_recv_step token_recv_at ulpi_bus_rx check_pid ulpi_bus_is_idle
deliver_of setup xfer func h = refl
deliver_of out_token xfer func h = refl
deliver_of in_token xfer func h = refl
deliver_of sof xfer func h = refl
deliver_of _ xfer func h = cc

-- An idle device that steps with the host on one bus takes every SETUP, OUT, IN and SOF token: within
-- 7 rounds both token bytes are in its transfer, it is busy with the operation of the PID, and its
-- step is 1. The run ends there, while the host still has the end of the packet to drive, and the
-- stage of the device stays `EOP`.
pub token_delivery :
    (fuel : ℕ) (xfer : Transfer) (func : Func)
    → 7 ≤ fuel
    → is_token xfer.type ≡ true
    → func.state ≡ func_idle
    → ulpi_step_with token_send_step usbf_step fuel xfer func
      ≡ ok (
          some (record {
            code = pos 1;
            xfer = record xfer { stage = eop };
            user = with_token xfer.type xfer func;
            bus = phy_bus 1 0 0x4D 0x00;
          }))
token_delivery fuel xfer func h t idle =
    ulpi_step_with_more token_send_step usbf_step 7 fuel xfer func h (
      ap
        (λ (s : FuncState).
          ulpi_step_with token_send_step usbf_step 7 xfer (record func { state = s }))
        idle
      ∙ deliver_of xfer.type xfer func t)
