-- ===== src/Func/Step.antt =====
-- `func_xfer_step` and `usbf_step` of vpi/usb/usbfunc.c.
use misc_verilog_cores.Base.{
  ℕ, bit_and, ◌&&◌, ◌==◌, ◌!=◌, ltb, if◌then◌else◌, Option, none, some, pos, negsuc, Result,
}
use misc_verilog_cores.Ulpi.{
  sig0, sig1, Bus, XferType, setup, out_token, in_token, sof, xfer_idle, no_xfer, token1,
  usbpid_out, usbpid_in, usbpid_setup, usbpid_sof, check_pid, ulpi_bus_is_idle, Stepped, stepped,
}
use misc_verilog_cores.Host.{HostOp, host_sof, host_setup, host_bulk_out, host_bulk_in}
use misc_verilog_cores.Func.{
  Func, FuncState, func_idle, func_recv, func_rxcmd, func_rx_pid, func_busy, func_eot,
}
use misc_verilog_cores.Func.Recv.{
  fn_token_recv_step, fn_datax_recv_step, fn_recv_ack_step, is_rx_active, at_stage,
}
use misc_verilog_cores.Func.Send.{fn_datax_send_step, fn_send_ack_step}

-- The switch of `func_xfer_step`, behind the token.
func_xfer_of : HostOp → Func → Bus → Bus → Result (Stepped Func)
func_xfer_of host_bulk_out func inp out =
    if ltb func.step 2
    then fn_datax_recv_step func inp out
    else if ltb func.step 3
    then fn_send_ack_step func inp out
    else stepped (pos 1) func out
func_xfer_of host_bulk_in func inp out =
    if ltb func.step 2
    then fn_datax_send_step func inp out
    else if ltb func.step 3
    then fn_recv_ack_step func inp out
    else stepped (pos 1) func out
func_xfer_of host_setup func inp out =
    if ltb func.step 2
    then fn_datax_recv_step func inp out
    else if ltb func.step 3
    then fn_recv_ack_step func inp out
    else stepped (pos 1) func out
func_xfer_of _ func inp out = stepped (negsuc 0) func out

unfoldable pub func_xfer_step : Func → Bus → Bus → Result (Stepped Func)
unfolding func_xfer_of
func_xfer_step func inp out =
    if func.step == 0 then fn_token_recv_step func inp out else func_xfer_of func.op func inp out

-- The operation and the type that the PID of a token stands for.
abbrev pub token_op : ℕ → Option (HostOp × XferType)
token_op pid =
    if pid == usbpid_out
    then some (host_bulk_out, out_token)
    else if pid == usbpid_in
    then some (host_bulk_in, in_token)
    else if pid == usbpid_setup
    then some (host_setup, setup)
    else if pid == usbpid_sof
    then some (host_sof, sof)
    else none

-- `FuncRxPID` with a valid PID: the state is busy at `Token1` also where no token follows.
take_token : Func → Bus → Bus → Result (Stepped Func)
take_token func inp out =
    let busy : Func = at_stage token1 (record func { state = func_busy; step = 0 }) in
    elim (token_op (bit_and inp.dat.a 0x0F)) [
      | none ↦ stepped (negsuc 0) busy out
      | some (o, t) ↦
          stepped (pos 0) (record busy { op = o; xfer = record (busy.xfer) { type = t } }) inp
    ]

func_state_step : FuncState → Func → Bus → Bus → Result (Stepped Func)
unfolding take_token
func_state_step func_idle func inp out =
    if ulpi_bus_is_idle inp
    then stepped (pos 0) func inp
    else if inp.dir == sig1
    then (if ltb sig1 inp.nxt
        then stepped (negsuc 0) func out
        else stepped (pos 0)
            (record func { state = if inp.nxt == sig0 then func_rxcmd else func_recv }) inp)
    else stepped (negsuc 0) func out
func_state_step func_rxcmd func inp out =
    if inp.dir == sig1 && inp.nxt == sig0
    then stepped (pos 0) func out
    else if inp.dir == sig0
    then stepped (pos 0) (record func { state = func_idle }) inp
    else stepped (negsuc 0) func out
func_state_step func_recv func inp out =
    if inp.dir == sig1 && (inp.nxt == sig0 && (inp.dat.b == 0x00 && is_rx_active inp))
    then stepped (pos 0) (record func { state = func_rx_pid }) inp
    else stepped (negsuc 0) func out
func_state_step func_rx_pid func inp out =
    if inp.dir == sig1
    then (if inp.nxt == sig1 && check_pid inp
        then take_token func inp out
        else if inp.nxt == sig0 && (inp.dat.b == 0x00 && is_rx_active inp)
        then stepped (pos 0) func inp
        else stepped (negsuc 0) func out)
    else stepped (negsuc 0) func out
func_state_step func_busy func inp out = func_xfer_step func inp out
func_state_step func_eot func inp out =
    if ulpi_bus_is_idle inp
    then stepped (pos 1)
        (record func { xfer = record (func.xfer) { type = xfer_idle; stage = no_xfer } }) inp
    else stepped (negsuc 0) func out

unfoldable pub usbf_step : Func → Bus → Bus → Result (Stepped Func)
unfolding func_state_step
usbf_step func inp out =
    if inp.rst_n != sig1
    then stepped (negsuc 0) func out
    else if inp.clock != sig1
    then stepped (negsuc 0) func out
    else func_state_step func.state func inp out
