-- ===== src/Func/Recv.antt =====
-- `ulpi_bus_rx`, `fn_token_recv_step`, `fn_datax_recv_step` and `fn_recv_ack_step` of
-- vpi/usb/usbfunc.c. `printf` is left out.
use misc_verilog_cores.Base.{
  ℕ, ◌+◌, bit_and, u16, u32, Bool, ◌&&◌, ◌||◌, ◌==◌, ◌!=◌, ltb, if◌then◌else◌, ℤ, pos, negsuc,
  is_negative, is_positive, Result, ◌>>=◌, store,
}
use misc_verilog_cores.Ulpi.{
  sig0, sig1, Bus, XferStage, no_xfer, assert_dir, init_rxcmd, token_pid, token1, token2, hsk_pid,
  datax_pid, datax_body, end_rxcmd, eop, up_ack, stage_number, usbpid_out, usbpid_in, usbpid_setup,
  usbpid_sof, usbpid_ack, rx_event_mask, rx_active_bits, check_pid, check_seq, ulpi_bus_is_idle,
  Stepped, stepped,
}
use misc_verilog_cores.Ulpi.Step.Recv.{less_two}
use misc_verilog_cores.Func.{Func}

-- `func->xfer.stage = st`.
abbrev pub at_stage : XferStage → Func → Func
at_stage st func = record func { xfer = record (func.xfer) { stage = st } }

-- `func->step++`.
abbrev pub next_step : Func → Func
next_step func = record func { step = u32 (func.step + 1) }

-- The RX CMD says that a packet is being received.
abbrev pub is_rx_active : Bus → Bool
is_rx_active inp = bit_and inp.dat.a rx_event_mask == rx_active_bits

unfoldable pub ulpi_bus_rx : Bus → ℤ
ulpi_bus_rx inp =
    if inp.dir != sig1 || inp.dat.b != 0x00
    then negsuc 0
    else if inp.nxt == sig0 && is_rx_active inp
    then pos 0
    else if inp.nxt == sig1
    then pos 1
    else negsuc 0

abbrev pub is_token_pid : ℕ → Bool
is_token_pid pid =
    pid == usbpid_out || (pid == usbpid_in || (pid == usbpid_setup || pid == usbpid_sof))

-- The switch of `fn_token_recv_step`; `out` is the copy of `*in`, and `rx` is `ulpi_bus_rx`.
unfoldable pub token_recv_at : XferStage → ℤ → Func → Bus → Bus → Result (Stepped Func)
token_recv_at assert_dir rx func inp out =
    if inp.nxt == sig1
    then stepped (pos 0) (at_stage init_rxcmd func) out
    else stepped (negsuc 0) func out
token_recv_at init_rxcmd rx func inp out =
    if inp.nxt == sig1 && (check_pid inp && is_token_pid (bit_and inp.dat.a 0x0F))
    then stepped (pos 0) (at_stage token_pid func) out
    else stepped (negsuc 0) func out
token_recv_at token_pid rx func inp out =
    if is_negative rx
    then stepped (negsuc 0) func out
    else if is_positive rx
    then stepped (pos 0) (at_stage token1 func) out
    else stepped (pos 0) func out
token_recv_at token1 rx func inp out =
    if is_negative rx
    then stepped (negsuc 0) func out
    else if is_positive rx
    then stepped (pos 0)
        (record func { xfer = record (func.xfer) { tok1 = inp.dat.a; stage = token2 } }) out
    else stepped (pos 0) func out
token_recv_at token2 rx func inp out =
    if is_negative rx
    then stepped (negsuc 0) func out
    else if is_positive rx
    then stepped (pos 0)
        (record func { xfer = record (func.xfer) { tok2 = inp.dat.a; stage = end_rxcmd } }) out
    else stepped (pos 0) func out
token_recv_at end_rxcmd rx func inp out =
    if inp.nxt == sig0 && bit_and inp.dat.a rx_event_mask != rx_active_bits
    then stepped (pos 0) (at_stage eop func) out
    else stepped (negsuc 0) func out
token_recv_at eop rx func inp out =
    if inp.nxt == sig0 then stepped (pos 1) (next_step func) out else stepped (pos 0) func out
token_recv_at _ rx func inp out = stepped (negsuc 0) func out

unfoldable pub fn_token_recv_step : Func → Bus → Bus → Result (Stepped Func)
fn_token_recv_step func inp out =
    if inp.dir != sig1 && ltb (stage_number func.xfer.stage) (stage_number token2)
    then stepped (negsuc 0) func out
    else token_recv_at func.xfer.stage (ulpi_bus_rx inp) func inp inp

-- `in->data.a & RX_EVENT_MASK != RX_ACTIVE_BITS`: `!=` binds tighter than `&`, so the mask is the
-- truth value of `RX_EVENT_MASK != RX_ACTIVE_BITS`.
abbrev pub end_of_packet_test : ℕ → Bool
end_of_packet_test a = bit_and a (if rx_event_mask != rx_active_bits then 1 else 0) != 0

-- The stages `DATAxPID` and `DATAxBody`.
unfoldable pub data_recv : Func → Bus → Bus → Result (Stepped Func)
data_recv func inp out =
    if inp.nxt == sig1
    then (store func.xfer.rx func.xfer.rx_ptr inp.dat.a >>= λ filled.
        stepped (pos 0)
          (record func { xfer = record (func.xfer) { rx = filled; rx_ptr = func.xfer.rx_ptr + 1 } })
          out)
    else if inp.nxt == sig0
    then (if end_of_packet_test inp.dat.a
        then stepped (pos 0)
            (next_step (record func {
              xfer = record (func.xfer) { stage = end_rxcmd; rx_len = less_two func.xfer.rx_ptr };
            }))
            out
        else stepped (pos 0) func out)
    else stepped (negsuc 0) func out

-- The switch of `fn_datax_recv_step`; `out` is the copy of `*in`.
unfoldable pub func_datax_recv_at : XferStage → Func → Bus → Bus → Result (Stepped Func)
func_datax_recv_at no_xfer func inp out =
    if inp.dir != sig1
    then stepped (pos 0) (record func { turnaround = u16 (func.turnaround + 1) }) out
    else if inp.dir == sig1 && inp.nxt == sig1
    then stepped (pos 0) (at_stage assert_dir func) out
    else stepped (negsuc 0) func out
func_datax_recv_at assert_dir func inp out =
    if inp.nxt == sig0 && is_rx_active inp
    then stepped (pos 0) (at_stage init_rxcmd func) out
    else stepped (negsuc 0) func out
func_datax_recv_at init_rxcmd func inp out =
    if inp.nxt == sig1 && (check_pid inp && check_seq func.xfer (bit_and inp.dat.a 0x0F))
    then stepped (pos 0)
        (record func {
          xfer = record (func.xfer) { stage = datax_pid; rx_ptr = 0; rx_len = pos 0 };
        })
        out
    else stepped (negsuc 0) func out
func_datax_recv_at datax_pid func inp out = data_recv func inp out
func_datax_recv_at datax_body func inp out = data_recv func inp out
func_datax_recv_at end_rxcmd func inp out =
    stepped (pos 0) (record func { xfer = record (func.xfer) { type = up_ack } }) out
func_datax_recv_at eop func inp out =
    stepped (pos 0) (record func { xfer = record (func.xfer) { type = up_ack } }) out
func_datax_recv_at _ func inp out = stepped (negsuc 0) func out

unfoldable pub fn_datax_recv_step : Func → Bus → Bus → Result (Stepped Func)
fn_datax_recv_step func inp out =
    if inp.dir != sig1 && ltb (stage_number func.xfer.stage) (stage_number end_rxcmd)
    then stepped (negsuc 0) func out
    else func_datax_recv_at func.xfer.stage func inp inp

-- The stage `InitRXCMD` of `fn_recv_ack_step`, into which `AssertDir` falls through.
ack_pid : Func → Bus → Bus → Result (Stepped Func)
ack_pid func inp out =
    if inp.dir == sig1
      && (inp.nxt == sig1
          && (check_pid inp && (inp.dat.b == 0x00 && bit_and inp.dat.a 0x0F == usbpid_ack)))
    then stepped (pos 0) (at_stage hsk_pid func) out
    else stepped (negsuc 0) func out

recv_ack_at : XferStage → Func → Bus → Bus → Result (Stepped Func)
unfolding ack_pid
recv_ack_at no_xfer func inp out =
    if ulpi_bus_is_idle inp
    then stepped (pos 0) (record func { turnaround = u16 (func.turnaround + 1) }) out
    else if inp.dir == sig1 && inp.nxt == sig1
    then stepped (pos 0) (at_stage init_rxcmd func) out
    else stepped (negsuc 0) func out
recv_ack_at assert_dir func inp out =
    if inp.dir == sig1 && (inp.nxt == sig0 && (inp.dat.b == 0x00 && is_rx_active inp))
    then stepped (pos 0) (at_stage init_rxcmd func) out
    else ack_pid func inp out
recv_ack_at init_rxcmd func inp out = ack_pid func inp out
recv_ack_at hsk_pid func inp out =
    if inp.dir != sig0 || inp.nxt != sig0
    then stepped (negsuc 0) func out
    else stepped (pos 1) (at_stage no_xfer (next_step func)) out
recv_ack_at _ func inp out = stepped (negsuc 0) func out

unfoldable pub fn_recv_ack_step : Func → Bus → Bus → Result (Stepped Func)
unfolding recv_ack_at
fn_recv_ack_step func inp out = recv_ack_at func.xfer.stage func inp inp
