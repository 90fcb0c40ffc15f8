-- ===== src/Host/Control.antt =====
-- `stdreq_step` of vpi/usb/stdreq.c: one step of a control transfer.
use misc_verilog_cores.Base.{
  ℕ, zero, suc, ◌+◌, u32, Bool, true, false, not, ◌==◌, leb, if◌then◌else◌, ℤ, pos, negsuc, Result,
  ◌>>=◌, ◌>>◌, assert,
}
use misc_verilog_cores.Ulpi.{
  Bus, Transfer, XferType, xfer_idle, setup, in_token, out_token, dn_data0, dn_data1, dn_ack,
  up_ack, up_data1, no_xfer, type_number, max_packet_size, Stepped, stepped,
}
use misc_verilog_cores.Ulpi.Step.Token.{token_send_step}
use misc_verilog_cores.Ulpi.Step.Send.{datax_send_step}
use misc_verilog_cores.Ulpi.Step.Recv.{datax_recv_step}
use misc_verilog_cores.Ulpi.Step.Ack.{ack_recv_step, ack_send_step}
use misc_verilog_cores.Host.{Host}

abbrev has_type : XferType → Transfer → Bool
has_type t xfer = type_number xfer.type == type_number t

-- `if (xfer->type != t) { xfer->type = t; xfer->stage = NoXfer; }`.
abbrev pub begin_as : XferType → Transfer → Transfer
begin_as t xfer = if has_type t xfer then xfer else record xfer { type = t; stage = no_xfer }

-- `result > 1`.
abbrev pub above_one : ℤ → Bool
above_one (pos (suc (suc n))) = true
above_one _ = false

-- Behind the switch.
unfoldable pub control_result : Host → Stepped Transfer → Result (Stepped Host)
control_result host s =
    if above_one s.code
    then stepped (pos 0)
        (record host { step = u32 (host.step + 1); xfer = record (s.state) { type = xfer_idle } })
        s.out
    else stepped s.code (record host { xfer = s.state }) s.out

-- The switch on `host->step`: the sub-step that is made on the transfer. `none` is the error of
-- step 0 and of `default`, which return at once.
abbrev setup_data : Transfer → Bus → Bus → Result (Stepped Transfer)
setup_data xfer inp out =
    if has_type dn_data0 xfer
    then datax_send_step xfer inp out
    else (assert (leb 8 xfer.tx_len)
        >> datax_send_step (record xfer { type = dn_data0; stage = no_xfer }) inp out)

abbrev pub data_in : Transfer → Transfer
data_in xfer =
    if has_type up_data1 xfer
    then xfer
    else record xfer { type = up_data1; stage = no_xfer; rx_len = pos max_packet_size; rx_ptr = 0 }

abbrev pub status_zdp : Transfer → Transfer
status_zdp xfer =
    if has_type dn_data1 xfer
    then xfer
    else record xfer { type = dn_data1; stage = no_xfer; tx_len = 0 }

unfoldable pub control_sub_step : ℕ → Transfer → Bus → Bus → Result (Stepped Transfer)
control_sub_step zero x inp out =
    if not (has_type setup x) then stepped (negsuc 0) x out else token_send_step x inp out
control_sub_step (suc zero) x inp out = setup_data x inp out
control_sub_step (suc (suc zero)) x inp out = ack_recv_step (begin_as up_ack x) inp out
control_sub_step (suc (suc (suc zero))) x inp out = token_send_step (begin_as in_token x) inp out
control_sub_step (suc (suc (suc (suc zero)))) x inp out = datax_recv_step (data_in x) inp out
control_sub_step (suc (suc (suc (suc (suc zero))))) x inp out =
    ack_send_step (begin_as dn_ack x) inp out
control_sub_step (suc (suc (suc (suc (suc (suc zero)))))) x inp out =
    token_send_step (begin_as out_token x) inp out
control_sub_step (suc (suc (suc (suc (suc (suc (suc zero))))))) x inp out =
    datax_send_step (status_zdp x) inp out
control_sub_step (suc (suc (suc (suc (suc (suc (suc (suc zero)))))))) x inp out =
    ack_recv_step (begin_as up_ack x) inp out
control_sub_step _ x inp out = stepped (negsuc 0) x out

unfoldable pub stdreq_step : Host → Bus → Bus → Result (Stepped Host)
unfolding control_sub_step control_result
stdreq_step host inp out =
    control_sub_step host.step host.xfer inp out >>= λ s. control_result host s
