-- ===== src/Func/Send.antt =====
-- `fn_datax_send_step` and `fn_send_ack_step` of vpi/usb/usbfunc.c.
use misc_verilog_cores.Base.{
  ℕ, ◌+◌, ◌==◌, ◌!=◌, ltb, if◌then◌else◌, pos, negsuc, Result, ◌>>=◌, load,
}
use misc_verilog_cores.Ulpi.{
  sig0, sig1, byte, Bus, XferStage, no_xfer, datax_pid, datax_body, datax_crc1, datax_crc2, hsk_pid,
  hsk_stop, eop, ulpitx_data0, ulpitx_data1, ulpitx_ack, Stepped, stepped,
}
use misc_verilog_cores.Func.{Func}
use misc_verilog_cores.Func.Recv.{at_stage, next_step}

-- `data.a = a`, `data.b = 0x00` and `stp = s`.
abbrev pub transmit : ℕ → ℕ → Bus → Bus
transmit a s out = record out { stp = s; dat = byte a 0x00 }

-- `out->data.a = func->xfer.tx[func->xfer.tx_ptr++]`.
func_send_byte : Func → Bus → Result (Stepped Func)
func_send_byte func out = do
  x ← load func.xfer.tx func.xfer.tx_ptr
  stepped (pos 0)
      (record func {
        xfer = record (func.xfer) { tx_ptr = func.xfer.tx_ptr + 1; stage = datax_body };
      })
      (transmit x sig0 out)

-- The switch of `fn_datax_send_step`; `out` is the copy of `*in`.
func_send_at : XferStage → Func → Bus → Bus → Result (Stepped Func)
unfolding func_send_byte
func_send_at no_xfer func inp out = do
  seq ← load func.xfer.ep_seq func.xfer.endpoint
  stepped (pos 0) (at_stage datax_pid func)
      (transmit (if seq == 0 then ulpitx_data0 else ulpitx_data1) sig0 out)
func_send_at datax_pid func inp out =
    if inp.nxt == sig1
    then (if ltb 0 func.xfer.tx_len
        then func_send_byte func out
        else stepped (pos 0) (at_stage datax_crc1 func) (transmit func.xfer.crc1 sig0 out))
    else stepped (pos 0) func out
func_send_at datax_body func inp out =
    if inp.nxt == sig1
    then (if ltb func.xfer.tx_ptr func.xfer.tx_len
        then func_send_byte func out
        else stepped (pos 0) (at_stage datax_crc1 func) (transmit func.xfer.crc1 sig0 out))
    else stepped (pos 0) func out
func_send_at datax_crc1 func inp out =
    if inp.nxt == sig1
    then stepped (pos 0) (at_stage datax_crc2 func) (transmit func.xfer.crc2 sig1 out)
    else stepped (pos 0) func out
func_send_at datax_crc2 func inp out =
    if inp.nxt == sig1
    then stepped (pos 0) (at_stage eop func) (transmit 0x00 sig0 out)
    else stepped (pos 0) func out
func_send_at eop func inp out = stepped (pos 0) func (transmit 0x00 sig0 out)
func_send_at _ func inp out = stepped (negsuc 0) func out

unfoldable pub fn_datax_send_step : Func → Bus → Bus → Result (Stepped Func)
unfolding func_send_at
fn_datax_send_step func inp out =
    if inp.dir != sig0
    then stepped (negsuc 0) func out
    else func_send_at func.xfer.stage func inp inp

send_ack_at : XferStage → Func → Bus → Bus → Result (Stepped Func)
send_ack_at no_xfer func inp out =
    stepped (pos 0) (at_stage hsk_pid func) (transmit ulpitx_ack sig0 out)
send_ack_at hsk_pid func inp out =
    if inp.nxt == sig1
    then stepped (pos 0) (at_stage hsk_stop func) (transmit 0x00 sig1 out)
    else stepped (pos 0) func out
send_ack_at hsk_stop func inp out =
    stepped (pos 0) (at_stage eop (next_step func)) (transmit 0x00 sig0 out)
send_ack_at eop func inp out = stepped (pos 0) func (transmit 0x00 sig0 out)
send_ack_at _ func inp out = stepped (negsuc 0) func out

unfoldable pub fn_send_ack_step : Func → Bus → Bus → Result (Stepped Func)
unfolding send_ack_at
fn_send_ack_step func inp out =
    if inp.dir != sig0
    then stepped (negsuc 0) func out
    else send_ack_at func.xfer.stage func inp inp
